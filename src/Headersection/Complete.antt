-- ===== src/Headersection/Complete.antt =====
-- src/headersection.rs: fields with values on one line are split off.
use rustyknife.Headersection.Lossless.{lines_of}
use rustyknife.Headersection.OneLine.{is_blank, is_inner, crlf-line_end, until_crlf-empty, wsp-cons}
use rustyknife.Headersection.Words.{
  Advances, round_of, text_round, blank_round, gap_at_end, visible-none,
}
use rustyknife.Headersection.{
  HeaderField, valid, invalid, wsp, unstructured, field_name, field, invalid_field, header_section,
  is_field_name,
}
use rustyknife.Nom.Rules.{
  many0_ok, consumed-append, take_while-append-skip_while, take_while-Every, skip_while-Stops,
  take_while-append, skip_while-append, Stops,
}
use rustyknife.Nom.{Nom, ok, err, error, Many, stop, more, alt, take_while, skip_while}
use rustyknife.Prelude.{
  ℕ, zero, suc, ◌≡◌, ◌≢◌, ◌<◌, refl, ap, sym, subst, false, List, [], ◌∷◌, ◌++◌, Bytes, codes,
  Every, append_assoc, append-nil, arith, length, length-append,
}

-- A line end behind which no blank comes.
abbrev line_end : ℕ → Bytes → Bytes
line_end c s = b'\r' ∷ b'\n' ∷ c ∷ s

module _ ⦃nom : Nom⦄ (c : ℕ) (s : Bytes) (plain : is_blank c ≡ false) where
  cut_round :
      (w u : Bytes)
      → Every is_blank w
      → Stops is_blank u
      → Every is_inner (w ++ u)
      → w ++ u ≢ []
      → Advances (w ++ u) (line_end c s)
  cut_round w (x ∷ u) h st i ne = text_round w x u (c ∷ s) h st (inner_behind w (x ∷ u) i)
    where
      inner_behind : (w u : Bytes) → Every is_inner (w ++ u) → Every is_inner u
      inner_behind [] u i = i
      inner_behind (b ∷ w) u i = inner_behind w u i.1
  cut_round [] [] h st i ne = absurd (ne refl)
  cut_round (b ∷ w) [] h st i ne =
      subst (λ v. Advances v (line_end c s)) (sym (append-nil (b ∷ w)))
        (blank_round b w c s h (subst (Every is_inner) (append-nil (b ∷ w)) i) plain)

  value_round : (x : ℕ) (v : Bytes) → Every is_inner (x ∷ v) → Advances (x ∷ v) (line_end c s)
  value_round x v i =
      let cut = take_while-append-skip_while is_blank (x ∷ v) in
      subst (λ v. Advances v (line_end c s)) cut
        (cut_round (take_while is_blank (x ∷ v)) (skip_while is_blank (x ∷ v))
          (take_while-Every is_blank (x ∷ v)) (skip_while-Stops is_blank (x ∷ v))
          (subst (Every is_inner) (sym cut) i) (λ e. cc (cut, e)))

  no_round : round_of (line_end c s) ≡ err error
  no_round =
      rw
        (
          nom.pair_law,
          gap_at_end [] c s tt plain,
          nom.alt_law,
          visible-none b'\r' (b'\n' ∷ c ∷ s) refl,
          until_crlf-empty,
        )
        refl

  Many-rounds :
      (n : ℕ) (v : Bytes)
      → length v < n
      → Every is_inner v
      → (as' : List (Bytes × Bytes)) × Many round_of (v ++ line_end c s) as' (line_end c s)
  Many-rounds zero v h i = absurd (omega arith)
  Many-rounds (suc n) [] h i = ([], stop no_round)
  Many-rounds (suc n) (x ∷ v) h i =
      let (v', a, i', shorter, e) = value_round x v i in
      let (as', m) = Many-rounds n v' (omega arith) i' in
      (
        a ∷ as',
        more e
            (omega (arith, length-append v' (line_end c s), length-append (x ∷ v) (line_end c s)))
            m,
      )

  unstructured-inner :
      (v : Bytes) → Every is_inner v → unstructured (v ++ line_end c s) ≡ ok (line_end c s) v
  unfolding unstructured
  unstructured-inner v i =
      let (as', m) = Many-rounds (suc (length v)) v (omega arith) i in
      rw
        (
          nom.recognize_law,
          nom.pair_law,
          many0_ok _ _ m,
          many0_ok wsp (line_end c s) (stop (wsp-cons b'\r' _)),
        )
        (ap (ok (line_end c s)) (consumed-append v (line_end c s)))

-- A name, and a value without a carriage return.
abbrev pub IsOneLine : HeaderField → Type 0
IsOneLine (valid name value) = Every is_field_name name × (name ≢ []) × Every is_inner value
IsOneLine (invalid line) = ⊥

abbrev pub AreOneLine : List HeaderField → Type 0
AreOneLine [] = Unit {0}
AreOneLine (f ∷ fs) = IsOneLine f × AreOneLine fs

-- What stands behind a line starts with no blank.
abbrev NoFold : Bytes → Type 0
NoFold [] = ⊥
NoFold (c ∷ s) = is_blank c ≡ false

name_first : (name t : Bytes) → Every is_field_name name → name ≢ [] → NoFold (name ++ t)
name_first [] t h ne = absurd (ne refl)
name_first (x ∷ name) t h ne = ground (arith, h.0)

NoFold-lines :
    (fs : List HeaderField) (body : Bytes)
    → AreOneLine fs
    → NoFold (lines_of fs ++ (codes "\r\n" ++ body))
NoFold-lines [] body h = refl
NoFold-lines (valid name value ∷ fs) body h =
    rw (append_assoc, append_assoc) (name_first name _ h.0.0 h.0.1)
NoFold-lines (invalid line ∷ fs) body h = absurd h.0

module _ ⦃nom : Nom⦄ where
  field_name-run :
      (name t : Bytes)
      → Every is_field_name name
      → name ≢ []
      → field_name (name ++ b':' ∷ t) ≡ ok (b':' ∷ t) name
  unfolding field_name
  field_name-run [] t h ne = absurd (ne refl)
  field_name-run (x ∷ name) t h ne =
      rw
        (
          nom.streaming_take_while1_law,
          skip_while-append is_field_name (x ∷ name) (b':' ∷ t) h refl,
          take_while-append is_field_name (x ∷ name) (b':' ∷ t) h refl,
        )
        refl

  field-line :
      (name value t : Bytes)
      → IsOneLine (valid name value)
      → NoFold t
      → field (name ++ b':' ∷ (value ++ (codes "\r\n" ++ t))) ≡ ok t (valid name value)
  unfolding field
  field-line name value [] h n = absurd n
  field-line name value (c ∷ s) h n =
      rw
        (
          nom.map_law,
          nom.terminated_law,
          nom.separated_pair_law,
          field_name-run name _ h.0 h.1,
          nom.streaming_tag_law,
          unstructured-inner c s n value h.2,
          crlf-line_end (c ∷ s),
        )
        refl

  pub no_field : (body : Bytes) → alt field invalid_field (codes "\r\n" ++ body) ≡ err error
  unfolding field invalid_field field_name
  no_field body =
      rw
        (
          nom.alt_law,
          nom.map_law,
          nom.terminated_law,
          nom.separated_pair_law,
          nom.streaming_take_while1_law,
          nom.map_law,
          nom.terminated_law,
          until_crlf-empty body,
        )
        refl

  regroup :
      (name value t : Bytes)
      → (name ++ (b':' ∷ (value ++ codes "\r\n"))) ++ t
        ≡ name ++ b':' ∷ (value ++ (codes "\r\n" ++ t))
  regroup name value t =
      rw (append_assoc name (b':' ∷ (value ++ codes "\r\n")) t, append_assoc value (codes "\r\n") t)
        refl

  Many-lines :
      (fs : List HeaderField) (body : Bytes)
      → AreOneLine fs
      → Many
          (alt field invalid_field)
          (lines_of fs ++ (codes "\r\n" ++ body))
          fs
          (codes "\r\n" ++ body)
  Many-lines [] body h = stop (no_field body)
  Many-lines (invalid line ∷ fs) body h = absurd h.0
  Many-lines (valid name value ∷ fs) body h =
      let t = lines_of fs ++ (codes "\r\n" ++ body) in
      let read = field-line name value t h.0 (NoFold-lines fs body h.1) in
      rw (append_assoc, regroup name value t)
        (more (rw (nom.alt_law, read) refl)
          (omega (
            arith,
            length-append name (b':' ∷ (value ++ (codes "\r\n" ++ t))),
            length-append value (codes "\r\n" ++ t),
          ))
          (Many-lines fs body h.1))

  -- A header section of fields whose values stand on one line, with an empty line behind it, is split
  -- into these fields and the body, whatever the body is.
  pub header_section-lines_of :
      (fs : List HeaderField) (body : Bytes)
      → AreOneLine fs
      → header_section (lines_of fs ++ (codes "\r\n" ++ body)) ≡ ok body fs
  unfolding header_section
  header_section-lines_of fs body h =
      rw (nom.terminated_law, many0_ok _ _ (Many-lines fs body h), nom.opt_law, crlf-line_end body)
        refl
