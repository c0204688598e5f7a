-- ===== src/Headersection/Streaming.antt =====
-- src/headersection.rs: what is decided of a header section does not change with more input.
use rustyknife.Headersection.Words.{is_visible, visible, visible-none, round_of}
use rustyknife.Headersection.{
  HeaderField, wsp, vchar, crlf, fws, ofws, until_crlf, unstructured, field_name, field,
  invalid_field, header_section, is_field_name,
}
use rustyknife.Util.{recognize_many0}
use rustyknife.Nom.Rules.{
  take1_filter-nil, take1_filter-cons, many0-filter, KeepsInside, Settled, SettledInside,
  Settled-map, Settled-map_opt, Settled-opt, Settled-recognize, Settled-alt, Settled-pair,
  SettledInside-pair, Settled-terminated, Settled-separated_pair, Settled-many0, Settled-looped,
  Settled-recognize_many0, Settled-recognize_many1, Settled-streaming_tag,
  Settled-streaming_take_until, Settled-streaming_take_while1, Keeps-KeepsInside, consumed-more,
  run-more,
}
use rustyknife.Nom.{Nom, Parser, consumed, ok, err, error, incomplete, alt, skip_while}
use rustyknife.Prelude.{
  ℕ, ◌≡◌, refl, ap, ◌∙◌, Bool-cases, inl, inr, true, List, [], ◌∷◌, ◌++◌, Bytes, codes,
  if◌then◌else◌,
}

module _ ⦃nom : Nom⦄ where
  Settled-wsp : Settled wsp
  unfolding wsp
  Settled-wsp =
      Settled-map _
        (Settled-alt _ (Settled-streaming_tag (codes " ")) _ (Settled-streaming_tag (codes "\t"))) _

  wsp-nil : wsp [] ≡ err incomplete
  unfolding wsp
  wsp-nil = rw (nom.map_law, nom.alt_law, nom.streaming_tag_law) refl

  Settled-crlf : Settled crlf
  unfolding crlf
  Settled-crlf = Settled-streaming_tag (codes "\r\n")

  Settled-ofws : Settled ofws
  unfolding ofws fws
  Settled-ofws =
      Settled-map _
        (Settled-opt _ (
          Settled-map _
            (Settled-pair _
              (Settled-opt _ (
                Settled-terminated _ (Settled-recognize_many0 wsp wsp-nil Settled-wsp) _
                  Settled-crlf))
              _ (Settled-recognize_many1 wsp wsp-nil Settled-wsp))
            _))
        _

  Settled-until_crlf : Settled until_crlf
  unfolding until_crlf
  Settled-until_crlf = Settled-map_opt _ (Settled-streaming_take_until b'\r' b'\n') _

  until_crlf-nil : until_crlf [] ≡ err incomplete
  unfolding until_crlf
  until_crlf-nil = rw (nom.map_opt_law, nom.streaming_take_until_law) refl

  visible-nil : visible [] ≡ err error
  unfolding vchar
  visible-nil = rw (nom.recognize_law, nom.many1_law, take1_filter-nil) refl

  ofws-nil : ofws [] ≡ err incomplete
  unfolding ofws fws recognize_many0
  ofws-nil =
      rw
        (
          nom.map_law, nom.opt_law, nom.map_law, nom.pair_law, nom.opt_law, nom.terminated_law,
          nom.recognize_law, nom.fold_many0_law, nom.many0_law, wsp-nil,
        )
        refl

  -- A run of visible bytes may go on, where it ends with the input.
  visible-cons :
      (x : ℕ) (s : Bytes)
      → visible (x ∷ s) ≡ (
          if is_visible x
          then ok (skip_while is_visible s) (consumed (x ∷ s) (skip_while is_visible s))
          else err error)
  unfolding vchar
  visible-cons x s = elim (Bool-cases (is_visible x)) [
    | inl y ↦
        rw (y, if◌then◌else◌)
          (rw (nom.recognize_law, nom.many1_law, take1_filter-cons, y, many0-filter) refl)
    | inr n ↦ rw (n, if◌then◌else◌) (visible-none x s n)
  ]

  word : Parser Bytes
  word = alt visible until_crlf

  word_run :
      (x : ℕ) (i more : Bytes)
      → is_visible x ≡ true
      → KeepsInside more (word (x ∷ i)) (word (x ∷ (i ++ more)))
  unfolding word
  word_run x i more y = go (skip_while is_visible i) refl
    where
      go :
          (s : Bytes)
          → skip_while is_visible i ≡ s
          → KeepsInside more (word (x ∷ i)) (word (x ∷ (i ++ more)))
      go [] e =
          rw (nom.alt_law visible until_crlf (x ∷ i), visible-cons x i, y, if◌then◌else◌, e) tt
      go (c ∷ s) e =
          let (e', t) = run-more is_visible i more c s e in
          let cut : consumed (x ∷ (i ++ more)) (c ∷ (s ++ more)) ≡ consumed (x ∷ i) (c ∷ s) =
            consumed-more (x ∷ i) (c ∷ s) more in
          rw (nom.alt_law visible until_crlf (x ∷ i), visible-cons x i, y, if◌then◌else◌, e)
            (nom.alt_law visible until_crlf (x ∷ (i ++ more))
              ∙ rw (visible-cons x (i ++ more), y, if◌then◌else◌, e')
                  (ap (ok (c ∷ (s ++ more))) cut))

  SettledInside-word : SettledInside word
  unfolding word
  SettledInside-word [] more =
      rw (nom.alt_law visible until_crlf [], visible-nil, until_crlf-nil) tt
  SettledInside-word (x ∷ i) more = elim (Bool-cases (is_visible x)) [
    | inl y ↦ word_run x i more y
    | inr n ↦
        rw
          (
            nom.alt_law visible until_crlf (x ∷ i),
            nom.alt_law visible until_crlf (x ∷ (i ++ more)),
            visible-none x i n,
            visible-none x (i ++ more) n,
          )
          (Keeps-KeepsInside more (until_crlf (x ∷ i)) (until_crlf (x ∷ (i ++ more)))
            (Settled-until_crlf (x ∷ i) more))
  ]

  Settled-unstructured : Settled unstructured
  unfolding unstructured word
  Settled-unstructured = Settled-recognize _ (
      Settled-pair _
        (Settled-many0 round_of (rw (nom.pair_law, ofws-nil) refl)
          (SettledInside-pair _ Settled-ofws _ SettledInside-word))
        _ (Settled-looped wsp wsp-nil Settled-wsp))

  Settled-field : Settled field
  unfolding field field_name
  Settled-field =
      Settled-map _
        (Settled-terminated _
          (Settled-separated_pair _ (Settled-streaming_take_while1 is_field_name) _ _
            (Settled-streaming_tag (codes ":")) Settled-unstructured)
          _ Settled-crlf)
        _

  Settled-invalid_field : Settled invalid_field
  unfolding invalid_field
  Settled-invalid_field = Settled-map _ (Settled-terminated _ Settled-until_crlf _ Settled-crlf) _

  pub Settled-line : Settled (alt field invalid_field)
  Settled-line = Settled-alt _ Settled-field _ Settled-invalid_field

  line-nil : alt field invalid_field [] ≡ err incomplete
  unfolding field field_name
  line-nil =
      rw
        (
          nom.alt_law, nom.map_law, nom.terminated_law, nom.separated_pair_law,
          nom.streaming_take_while1_law,
        )
        refl

  -- What `header_section` returns is final: where it has split off a header section, it splits off
  -- the same one with more input behind it, which is left with the body.
  pub header_section-more :
      (i more body : Bytes) (fs : List HeaderField)
      → header_section i ≡ ok body fs
      → header_section (i ++ more) ≡ ok (body ++ more) fs
  unfolding header_section
  header_section-more i more body fs e =
      let kept =
        Settled-terminated _ (Settled-looped (alt field invalid_field) line-nil Settled-line) _
          (Settled-opt _ Settled-crlf) i more in
      rw e at kept
