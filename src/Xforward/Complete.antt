-- ===== src/Xforward/Complete.antt =====
-- src/xforward.rs: each text of the command is read.
use rustyknife.External.{External}
use rustyknife.Nom.Rules.{
  strip-ends, tag_no_case-letters, word_here, other_word, Stops, Star, none_left, one_more,
  tag-append, fold_prefix0-Many,
}
use rustyknife.Nom.{Nom, ok, Many, stop, more, no_case, preceded, many1, opt}
use rustyknife.Prelude.{
  true, ℕ, ◌≡◌, ◌≢◌, ◌<◌, refl, ◌∙◌, false, List, [], ◌∷◌, ◌++◌, Option, none, some, Bytes, codes,
  Every, Every-all, lowercase, length, to_ascii_lowercase, arith, append_assoc, length-append,
}
use rustyknife.Rfc3461.Xtext.Encoded.{EndsText}
use rustyknife.Rfc3461.Xtext.Spelt.{xtext-Star}
use rustyknife.Rfc3461.Xtext.{is_xchar}
use rustyknife.Rfc5234.Blanks.{is_blank, NoBlank, many1_wsp-blanks, many1_wsp-NoBlank}
use rustyknife.Rfc5234.{wsp, crlf}
use rustyknife.Xforward.Texts.{
  IsName, is_addr, is_helo, is_ident, is_name, is_port, is_proto, is_source, ValueText, ParamText,
  SpacedText, CommandText,
}
use rustyknife.Xforward.{Param, command_name, unavailable, value, param, xforward_params, command}

xchar_apart : (a d : ℕ) → is_xchar a ≡ true → is_xchar d ≡ false → no_case a d ≡ false
unfolding to_ascii_lowercase
xchar_apart a d h n = ground (arith, h, n)

EndsText-Stops : (s : Bytes) → EndsText s → Stops is_xchar s
EndsText-Stops [] e = tt
EndsText-Stops (c ∷ s) e = e.0

name_start : {n : Bytes} → IsName n → (d : ℕ) × (t : Bytes) × (n ≡ d ∷ t) × (is_blank d ≡ false)
name_start is_addr = (_, _, refl, refl)
name_start is_helo = (_, _, refl, refl)
name_start is_ident = (_, _, refl, refl)
name_start is_name = (_, _, refl, refl)
name_start is_port = (_, _, refl, refl)
name_start is_proto = (_, _, refl, refl)
name_start is_source = (_, _, refl, refl)

not_blank : (x d : ℕ) → to_ascii_lowercase x ≡ d → is_blank d ≡ false → is_blank x ≡ false
unfolding to_ascii_lowercase
not_blank x d e h = ground (arith, e, h)

keyword-NoBlank : {n : Bytes} (k s : Bytes) → IsName n → lowercase k ≡ n → NoBlank (k ++ s)
keyword-NoBlank [] s x e = let (d, t, h, _) = name_start x in absurd (cc (e, h))
keyword-NoBlank (c ∷ k) s x e = let (d, t, h, b) = name_start x in not_blank c d (cc (e, h)) b

module _ ⦃nom : Nom⦄ where
  name-run : (k s : Bytes) {n : Bytes} → IsName n → lowercase k ≡ n → command_name (k ++ s) ≡ ok s n
  unfolding command_name to_ascii_lowercase
  name-run k s {n} is_addr e = word_here k s (codes "addr") _ _ e
  name-run k s {n} is_helo e =
      other_word k s (codes "addr") n _ _ e refl ∙ word_here k s (codes "helo") _ _ e
  name-run k s {n} is_ident e =
      other_word k s (codes "addr") n _ _ e refl
      ∙ other_word k s (codes "helo") n _ _ e refl
      ∙ word_here k s (codes "ident") _ _ e
  name-run k s {n} is_name e =
      other_word k s (codes "addr") n _ _ e refl
      ∙ other_word k s (codes "helo") n _ _ e refl
      ∙ other_word k s (codes "ident") n _ _ e refl
      ∙ word_here k s (codes "name") _ _ e
  name-run k s {n} is_port e =
      other_word k s (codes "addr") n _ _ e refl
      ∙ other_word k s (codes "helo") n _ _ e refl
      ∙ other_word k s (codes "ident") n _ _ e refl
      ∙ other_word k s (codes "name") n _ _ e refl
      ∙ word_here k s (codes "port") _ _ e
  name-run k s {n} is_proto e =
      other_word k s (codes "addr") n _ _ e refl
      ∙ other_word k s (codes "helo") n _ _ e refl
      ∙ other_word k s (codes "ident") n _ _ e refl
      ∙ other_word k s (codes "name") n _ _ e refl
      ∙ other_word k s (codes "port") n _ _ e refl
      ∙ word_here k s (codes "proto") _ _ e
  name-run k s {n} is_source e =
      other_word k s (codes "addr") n _ _ e refl
      ∙ other_word k s (codes "helo") n _ _ e refl
      ∙ other_word k s (codes "ident") n _ _ e refl
      ∙ other_word k s (codes "name") n _ _ e refl
      ∙ other_word k s (codes "port") n _ _ e refl
      ∙ other_word k s (codes "proto") n _ _ e refl
      ∙ rw (nom.map_law, tag_no_case-letters (codes "source") k s e) refl

  word_solid : Every is_xchar (codes "[unavailable]")
  word_solid = Every-all is_xchar (codes "[unavailable]") refl

  module _ ⦃ext : External⦄ where
    value-run :
        (v s : Bytes) (o : Option Bytes) → ValueText v o → EndsText s → value (v ++ s) ≡ ok s o
    unfolding value unavailable to_ascii_lowercase
    value-run v s none h e =
        rw (nom.alt_law, nom.map_law, tag_no_case-letters (codes "[unavailable]") v s h) refl
    value-run v s (some x) (bs, spelt, no_word, same) e =
        rw
          (
            nom.alt_law,
            nom.map_law,
            nom.tag_no_case_law,
            strip-ends is_xchar xchar_apart (codes "[unavailable]") v s word_solid
                (EndsText-Stops s e) no_word,
            nom.map_law,
            xtext-Star v bs s spelt e,
            same,
          )
          refl

    param-run : (c s : Bytes) (p : Param) → ParamText c p → EndsText s → param (c ++ s) ≡ ok s p
    unfolding param
    param-run c s p h e =
        rw
          (
            h.splits,
            append_assoc,
            nom.map_law,
            nom.separated_pair_law,
            name-run h.keyword _ h.known h.names,
            nom.tag_law,
            value-run h.value_text s p.value h.valued e,
          )
          refl

    param-NoBlank : (c s : Bytes) (p : Param) → ParamText c p → NoBlank (c ++ s)
    param-NoBlank c s p h =
        rw (h.splits, append_assoc)
          (keyword-NoBlank h.keyword (b'=' ∷ (h.value_text ++ s)) h.known h.names)

    spaced-run :
        (c s : Bytes) (p : Param)
        → SpacedText c p
        → EndsText s
        → preceded (many1 wsp) param (c ++ s) ≡ ok s p
    spaced-run c s p g e =
        rw
          (
            g.splits,
            append_assoc,
            nom.preceded_law,
            many1_wsp-blanks g.blanks (g.param_text ++ s) g.blank g.some_blank
                (param-NoBlank g.param_text s p g.spells),
          )
          (param-run g.param_text s p g.spells e)

    first-run :
        (w c s : Bytes) (p : Param)
        → Every is_blank w
        → ParamText c p
        → EndsText s
        → preceded (opt (many1 wsp)) param (w ++ (c ++ s)) ≡ ok s p
    first-run [] c s p b g e =
        rw (nom.preceded_law, nom.opt_law, many1_wsp-NoBlank (c ++ s) (param-NoBlank c s p g))
          (param-run c s p g e)
    first-run (x ∷ w) c s p b g e =
        rw
          (
            nom.preceded_law,
            nom.opt_law,
            many1_wsp-blanks (x ∷ w) (c ++ s) b (λ no. cc no) (param-NoBlank c s p g),
          )
          (param-run c s p g e)

    -- Behind the parameters comes the line end.
    abbrev behind : Bytes → Bytes
    behind r = codes "\r\n" ++ r

    EndsText-params :
        (m r : Bytes) (ps : List Param) → Star SpacedText m ps → EndsText (m ++ behind r)
    EndsText-params _ r _ none_left = (refl, λ no. cc no)
    EndsText-params _ r _ (one_more {c} {cs} g s) =
        blank_first c g.blanks g.param_text g.splits g.blank g.some_blank
      where
        blank_first :
            (c w t : Bytes)
            → c ≡ w ++ t
            → Every is_blank w
            → w ≢ []
            → EndsText ((c ++ cs) ++ behind r)
        blank_first c [] t e h ne = absurd (ne refl)
        blank_first c (b ∷ w) t e h ne = rw e (ground (arith, h.0))

    Many-params :
        (m r : Bytes) (ps : List Param)
        → Star SpacedText m ps
        → Many (preceded (many1 wsp) param) (m ++ behind r) ps (behind r)
    Many-params _ r _ none_left =
        stop (rw (nom.preceded_law, many1_wsp-NoBlank (behind r) refl) refl)
    Many-params _ r _ (one_more {c} {cs} {a = p} {as' = ps} g s) = rw append_assoc (
        more (spaced-run c (cs ++ behind r) p g (EndsText-params cs r ps s))
          (shorter c (cs ++ behind r) g.blanks g.param_text g.splits g.some_blank)
          (Many-params cs r ps s))
      where
        shorter : (c s w t : Bytes) → c ≡ w ++ t → w ≢ [] → length s < length (c ++ s)
        shorter c s [] t e ne = absurd (ne refl)
        shorter c s (b ∷ w) t e ne = rw e (omega (arith, length-append (w ++ t) s))

    -- Each text of the command is read as its parameters, and what is behind its line end is left.
    pub command-CommandText :
        (i r : Bytes) (ps : List Param) → CommandText i r ps → command i ≡ ok r ps
    unfolding command xforward_params crlf to_ascii_lowercase
    command-CommandText i r ps h =
        let m = h.tail_text ++ behind r in
        let read : xforward_params (h.blanks ++ (h.head_text ++ m))
            ≡ ok (behind r) (h.head ∷ h.tail) =
          fold_prefix0-Many (preceded (opt (many1 wsp)) param) (preceded (many1 wsp) param)
            (first-run h.blanks h.head_text m h.head h.blank h.head_spells
              (EndsText-params h.tail_text r h.tail h.tail_spells))
            (Many-params h.tail_text r h.tail h.tail_spells) in
        rw
          (
            h.splits,
            nom.delimited_law,
            tag_no_case-letters (codes "XFORWARD ") h.word (h.blanks ++ (h.head_text ++ m))
                h.xforward,
            read,
            tag-append (codes "\r\n") r,
            h.params,
          )
          refl
