-- ===== src/Rfc5321/Params/Complete.antt =====
-- src/rfc5321.rs: displayed ESMTP parameters parse back.
use rustyknife.Nom.Rules.{many0_ok}
use rustyknife.Nom.Rules.{
  Stops, take1_filter-cons, take1_filter-nil, recognize_many0-run, recognize_many1-run,
  consumed-append, fold_prefix0-Many,
}
use rustyknife.Nom.{Nom, ok, err, error, tag, preceded, many1, Many, stop, more}
use rustyknife.Prelude.{
  ℕ, ◌⊎◌, inl, inr, refl, ◌==◌, Bool-cases, if◌then◌else◌, ◌≡◌, ◌≢◌, sym, ap, false, List, [], ◌∷◌,
  ◌++◌, Option, none, some, Bytes, codes, Every, arith, length-append, append_assoc, append-nil,
}
use rustyknife.Rfc5234.{wsp}
use rustyknife.Rfc5321.Params.{
  Keyword, Value, Param, esmtp_keyword, esmtp_value, esmtp_param, esmtp_params, display_param,
  display_params,
}
use rustyknife.Rfc5321.Params.Sound.{IsKeyword}
use rustyknife.Rfc5321.Policy.{is_ldh, is_esmtp_value_char, legacy}
use rustyknife.Util.{recognize_many1}

-- One or more value characters.
abbrev pub IsValue : Option Value → Type 0
IsValue none = Unit {0}
IsValue (some []) = ⊥
IsValue (some (c ∷ cs)) = Every is_esmtp_value_char (c ∷ cs)

-- What stands behind an equals sign, or no equals sign, is no value.
abbrev pub NoValue : Bytes → Type 0
NoValue [] = Unit {0}
NoValue (c ∷ cs) = (c ≢ b'=') ⊎ Stops is_esmtp_value_char cs

abbrev pub NoBlank : Bytes → Type 0
NoBlank [] = Unit {0}
NoBlank (c ∷ cs) = (c ≢ b' ') × (c ≢ b'\t')

module _ ⦃nom : Nom⦄ where
  abbrev pub IsParam : Param → Type 0
  IsParam p = IsKeyword p.keyword × IsValue p.value

  -- What follows does not go on with the value, or else with the keyword or with a value behind it.
  abbrev pub EndsParam : Option Value → Bytes → Type 0
  EndsParam (some v) r = Stops is_esmtp_value_char r
  EndsParam none r = Stops is_ldh r × NoValue r

  -- What follows does not go on with the last parameter.
  abbrev pub EndsLast : Param → List Param → Bytes → Type 0
  EndsLast p [] r = EndsParam p.value r
  EndsLast p (q ∷ ps) r = EndsLast q ps r

  blank_is_ldh : is_ldh b' ' ≡ false
  unfolding is_ldh
  blank_is_ldh = rw nom.is_alphanumeric_law refl

  pub cr-is_ldh : is_ldh b'\r' ≡ false
  unfolding is_ldh
  cr-is_ldh = rw nom.is_alphanumeric_law refl

  EndsParam-blank : (o : Option Value) (s : Bytes) → EndsParam o (b' ' ∷ s)
  EndsParam-blank none s = (blank_is_ldh, inl (omega arith))
  EndsParam-blank (some v) s = refl

  esmtp_keyword-run : (k r : Bytes) → IsKeyword k → Stops is_ldh r → esmtp_keyword (k ++ r) ≡ ok r k
  unfolding esmtp_keyword
  esmtp_keyword-run [] r h st = absurd h
  esmtp_keyword-run (c ∷ cs) r h st =
      rw
        (
          nom.map_law,
          nom.recognize_law,
          nom.pair_law,
          take1_filter-cons,
          h.0,
          recognize_many0-run is_ldh cs r h.1 st,
        )
        (ap (ok r) (consumed-append (c ∷ cs) r))

  esmtp_value-run :
      (v r : Bytes)
      → IsValue (some v)
      → Stops is_esmtp_value_char r
      → esmtp_value legacy (v ++ r) ≡ ok r v
  unfolding esmtp_value legacy
  esmtp_value-run [] r h st = absurd h
  esmtp_value-run (c ∷ cs) r h st =
      rw (nom.map_law, recognize_many1-run is_esmtp_value_char c cs r h st)

  value_fails : (s : Bytes) → Stops is_esmtp_value_char s → esmtp_value legacy s ≡ err error
  unfolding esmtp_value legacy recognize_many1
  value_fails [] st =
      rw (nom.map_law, nom.recognize_law, nom.fold_many1_law, nom.many1_law, take1_filter-nil) refl
  value_fails (c ∷ cs) st =
      rw (nom.map_law, nom.recognize_law, nom.fold_many1_law, nom.many1_law, take1_filter-cons, st)
        refl

  no_value : (r : Bytes) → NoValue r → preceded (tag (codes "=")) (esmtp_value legacy) r ≡ err error
  no_value [] h = rw (nom.preceded_law, nom.tag_law) refl
  no_value (c ∷ cs) (inl ne) = rw (nom.preceded_law, nom.tag_law) (ground arith)
  no_value (c ∷ cs) (inr st) = elim (Bool-cases (b'=' == c)) [
    | inl y ↦ rw (nom.preceded_law, nom.tag_law, y, if◌then◌else◌, value_fails cs st) refl
    | inr n ↦ rw (nom.preceded_law, nom.tag_law, n, if◌then◌else◌) refl
  ]

  equals_sign : is_ldh b'=' ≡ false
  unfolding is_ldh
  equals_sign = rw nom.is_alphanumeric_law

  -- A parameter whose keyword and value are well formed parses back, with what follows left over.
  esmtp_param-run :
      (k : Keyword) (o : Option Value) (r : Bytes)
      → IsKeyword k
      → IsValue o
      → EndsParam o r
      → esmtp_param legacy (display_param (record { keyword = k; value = o }) ++ r)
        ≡ ok r (record { keyword = k; value = o })
  unfolding esmtp_param display_param
  esmtp_param-run k none r hk hv e = rw (
    append-nil,
    nom.map_law,
    nom.pair_law,
    esmtp_keyword-run k r hk e.0,
    nom.opt_law,
    no_value r e.1,
  )
  esmtp_param-run k (some v) r hk hv e = rw (
    append_assoc,
    nom.map_law,
    nom.pair_law,
    esmtp_keyword-run k (b'=' ∷ (v ++ r)) hk equals_sign,
    nom.opt_law,
    nom.preceded_law,
    nom.tag_law,
    esmtp_value-run v r hv e,
  )

  abbrev pub AreParams : List Param → Type 0
  AreParams [] = Unit {0}
  AreParams (p ∷ ps) = IsParam p × AreParams ps

  -- The parameters behind the first one, each behind a space.
  abbrev spaced : List Param → Bytes
  spaced [] = []
  spaced (p ∷ ps) = b' ' ∷ (display_param p ++ spaced ps)

  display_params-spaced :
      (p : Param) (ps : List Param) → display_params (p ∷ ps) ≡ display_param p ++ spaced ps
  unfolding display_params
  display_params-spaced p [] = sym (append-nil (display_param p))
  display_params-spaced p (q ∷ ps) =
      ap (λ x. display_param p ++ (b' ' ∷ x)) (display_params-spaced q ps)

  -- A parameter that has another one behind it ends there.
  EndsParam-spaced :
      (p : Param) (ps : List Param) (r : Bytes)
      → EndsLast p ps r
      → EndsParam p.value (spaced ps ++ r)
  EndsParam-spaced p [] r e = e
  EndsParam-spaced p (q ∷ ps) r e = EndsParam-blank p.value _

  wsp-blank : (s : Bytes) → wsp (b' ' ∷ s) ≡ ok s b' '
  unfolding wsp
  wsp-blank s = rw (nom.map_law, nom.alt_law, nom.tag_law)

  wsp-fails : (c : ℕ) (s : Bytes) → c ≢ b' ' → c ≢ b'\t' → wsp (c ∷ s) ≡ err error
  unfolding wsp
  wsp-fails c s a b = simp (nom.map_law, nom.alt_law, nom.tag_law) (ground arith)

  wsp-nil : wsp [] ≡ err error
  unfolding wsp
  wsp-nil = simp (nom.map_law, nom.alt_law, nom.tag_law)

  -- A keyword does not start with a blank.
  keyword_start : (k s : Bytes) → IsKeyword k → wsp (k ++ s) ≡ err error
  keyword_start [] s h = absurd h
  keyword_start (c ∷ cs) s h =
      let alnum = rw nom.is_alphanumeric_law at (h.0) in
      wsp-fails c (cs ++ s) (ground (arith, alnum)) (ground (arith, alnum))

  many1_wsp : (k s : Bytes) → IsKeyword k → many1 wsp (b' ' ∷ (k ++ s)) ≡ ok (k ++ s) (b' ' ∷ [])
  many1_wsp k s h =
      rw (nom.many1_law, wsp-blank, many0_ok wsp (k ++ s) (stop (keyword_start k s h)))

  no_more : (r : Bytes) → NoBlank r → preceded (many1 wsp) (esmtp_param legacy) r ≡ err error
  no_more [] e = rw (nom.preceded_law, nom.many1_law, wsp-nil)
  no_more (c ∷ cs) e = rw (nom.preceded_law, nom.many1_law, wsp-fails c cs e.0 e.1)

  keyword_blank :
      (p : Param) (s : Bytes)
      → IsParam p
      → many1 wsp (b' ' ∷ (display_param p ++ s)) ≡ ok (display_param p ++ s) (b' ' ∷ [])
  unfolding display_param
  keyword_blank p s h = rw append_assoc (many1_wsp p.keyword _ h.0)

  spaced_param :
      (p : Param) (s : Bytes)
      → IsParam p
      → EndsParam p.value s
      → preceded (many1 wsp) (esmtp_param legacy) (b' ' ∷ (display_param p ++ s)) ≡ ok s p
  spaced_param p s h e =
      rw (nom.preceded_law, keyword_blank p s h) (esmtp_param-run p.keyword p.value s h.0 h.1 e)

  Many-spaced :
      (p : Param) (ps : List Param) (r : Bytes)
      → AreParams ps
      → NoBlank r
      → EndsLast p ps r
      → Many (preceded (many1 wsp) (esmtp_param legacy)) (spaced ps ++ r) ps r
  Many-spaced p [] r h b e = stop (no_more r b)
  Many-spaced p (q ∷ ps) r h b e = rw append_assoc (
      more (spaced_param q (spaced ps ++ r) h.0 (EndsParam-spaced q ps r e))
        (omega (arith, length-append (display_param q) (spaced ps ++ r)))
        (Many-spaced q ps r h.1 b e))

  -- Displayed parameters parse back, in the legacy behaviour, if there is one at the least, they are
  -- well formed, and what follows neither starts with a blank nor goes on with the last parameter:
  -- behind a value it starts with no character of a value, behind a keyword alone with none of a
  -- keyword, nor with an equals sign and a character of a value.
  pub esmtp_params-display_params :
      (p : Param) (ps : List Param) (r : Bytes)
      → AreParams (p ∷ ps)
      → NoBlank r
      → EndsLast p ps r
      → esmtp_params legacy (display_params (p ∷ ps) ++ r) ≡ ok r (p ∷ ps)
  unfolding esmtp_params
  esmtp_params-display_params p ps r h b e =
      rw (display_params-spaced, append_assoc)
        (fold_prefix0-Many (esmtp_param legacy) (preceded (many1 wsp) (esmtp_param legacy))
          {i = display_param p ++ (spaced ps ++ r)}
          (esmtp_param-run p.keyword p.value (spaced ps ++ r) h.0.0 h.0.1
            (EndsParam-spaced p ps r e))
          (Many-spaced p ps r h.1 b e))

  EndsParam-crlf : (o : Option Value) (r : Bytes) → EndsParam o (codes "\r\n" ++ r)
  EndsParam-crlf none r = (cr-is_ldh, inl (omega arith))
  EndsParam-crlf (some v) r = refl

  -- A line end ends the parameters.
  pub EndsLast-crlf : (p : Param) (ps : List Param) (r : Bytes) → EndsLast p ps (codes "\r\n" ++ r)
  EndsLast-crlf p (q ∷ ps) r = EndsLast-crlf q ps r
  EndsLast-crlf p [] r = EndsParam-crlf p.value r
