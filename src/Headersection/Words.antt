-- ===== src/Headersection/Words.antt =====
-- src/headersection.rs: fields with values on one line are split off.
use rustyknife.Headersection.OneLine.{
  is_blank, is_inner, skip_while-inner, length-skip_while, skip_while-line_end, crlf-line_end,
  crlf-other, blanks0, blanks1, no_blanks1, until_crlf-inner,
}
use rustyknife.Headersection.{vchar, fws, ofws, until_crlf}
use rustyknife.Nom.Rules.{many0-filter, take1_filter-cons}
use rustyknife.Nom.{Nom, Parser, consumed, ok, err, error, many1, pair, alt, recognize, skip_while}
use rustyknife.Prelude.{
  ℕ, ◌≡◌, ◌<◌, inl, inr, refl, Bool, true, false, [], ◌∷◌, ◌++◌, Bytes, Every, Bool-cases,
  append_assoc, arith, length, length-append, within,
}

module _ ⦃nom : Nom⦄ where
  -- White space in front of a text is skipped, if there is any.
  gap_before :
      (w : Bytes) (x : ℕ) (s : Bytes)
      → Every is_blank w
      → is_blank x ≡ false
      → is_inner x ≡ true
      → (t : Bytes) × (ofws (w ++ x ∷ s) ≡ ok (x ∷ s) t)
  unfolding ofws fws
  gap_before [] x s h n i = (
    [],
    rw
        (
          nom.map_law,
          nom.opt_law,
          nom.map_law,
          nom.pair_law,
          nom.opt_law,
          nom.terminated_law,
          blanks0 [] x s h n,
          crlf-other x s i,
          no_blanks1 x s n,
        )
        refl,
  )
  gap_before (b ∷ w) x s h n i = (
    b ∷ w,
    rw
        (
          nom.map_law,
          nom.opt_law,
          nom.map_law,
          nom.pair_law,
          nom.opt_law,
          nom.terminated_law,
          blanks0 (b ∷ w) x s h n,
          crlf-other x s i,
          blanks1 b w x s h n,
        )
        refl,
  )

  -- White space in front of a line end that is not folded is left.
  pub gap_at_end :
      (w : Bytes) (c : ℕ) (s : Bytes)
      → Every is_blank w
      → is_blank c ≡ false
      → ofws (w ++ b'\r' ∷ b'\n' ∷ c ∷ s) ≡ ok (w ++ b'\r' ∷ b'\n' ∷ c ∷ s) []
  unfolding ofws fws
  gap_at_end w c s h n =
      rw
        (
          nom.map_law,
          nom.opt_law,
          nom.map_law,
          nom.pair_law,
          nom.opt_law,
          nom.terminated_law,
          blanks0 w b'\r' (b'\n' ∷ c ∷ s) h refl,
          crlf-line_end (c ∷ s),
          no_blanks1 c s n,
        )
        refl

  abbrev pub visible : Parser Bytes
  visible = recognize (many1 vchar)

  abbrev pub is_visible : ℕ → Bool
  is_visible = within 0x21 0x7e

  pub visible-none : (x : ℕ) (s : Bytes) → is_visible x ≡ false → visible (x ∷ s) ≡ err error
  unfolding vchar
  visible-none x s n = rw (nom.recognize_law, nom.many1_law, take1_filter-cons, n) refl

  pub visible-run :
      (x : ℕ) (s : Bytes)
      → is_visible x ≡ true
      → (t : Bytes) × (visible (x ∷ s) ≡ ok (skip_while is_visible s) t)
  unfolding vchar
  visible-run x s y = (
    consumed (x ∷ s) (skip_while is_visible s),
    rw (nom.recognize_law, nom.many1_law, take1_filter-cons, y, many0-filter) refl,
  )

  abbrev pub round_of : Parser (Bytes × Bytes)
  round_of = pair ofws (alt visible until_crlf)

  -- A round of the loop takes something of the value and nothing behind it.
  abbrev pub Advances : Bytes → Bytes → Type 0
  Advances v e =
      (v' : Bytes) × (a : Bytes × Bytes) × Every is_inner v'
      × (length v' < length v)
      × (round_of (v ++ e) ≡ ok (v' ++ e) a)

  pub text_round :
      (w : Bytes) (x : ℕ) (u s : Bytes)
      → Every is_blank w
      → is_blank x ≡ false
      → Every is_inner (x ∷ u)
      → Advances (w ++ x ∷ u) (b'\r' ∷ b'\n' ∷ s)
  text_round w x u s h n i =
      let (t, gap) = gap_before w x (u ++ b'\r' ∷ b'\n' ∷ s) h n i.0 in
      elim (Bool-cases (is_visible x)) [
        | inl y ↦
            let (a, run) = visible-run x (u ++ b'\r' ∷ b'\n' ∷ s) y in
            (
              skip_while is_visible u,
              (t, a),
              skip_while-inner is_visible u i.1,
              omega (arith, length-append w (x ∷ u), length-skip_while is_visible u),
              rw
                  (
                    append_assoc,
                    nom.pair_law,
                    gap,
                    nom.alt_law,
                    run,
                    skip_while-line_end is_visible u (b'\n' ∷ s) refl,
                  )
                  refl,
            )
        | inr y ↦ (
          [],
          (t, x ∷ u),
          tt,
          omega (arith, length-append w (x ∷ u)),
          rw
              (
                append_assoc,
                nom.pair_law,
                gap,
                nom.alt_law,
                visible-none x _ y,
                until_crlf-inner x u s i,
              )
              refl,
        )
      ]

  blank_not_visible : (b : ℕ) → is_blank b ≡ true → is_visible b ≡ false
  blank_not_visible b h = ground (arith, h)

  pub blank_round :
      (b : ℕ) (w : Bytes) (c : ℕ) (s : Bytes)
      → Every is_blank (b ∷ w)
      → Every is_inner (b ∷ w)
      → is_blank c ≡ false
      → Advances (b ∷ w) (b'\r' ∷ b'\n' ∷ c ∷ s)
  blank_round b w c s h i n = (
    [],
    ([], b ∷ w),
    tt,
    omega arith,
    rw
        (
          nom.pair_law,
          gap_at_end (b ∷ w) c s h n,
          nom.alt_law,
          visible-none b _ (blank_not_visible b h.0),
          until_crlf-inner b w (c ∷ s) i,
        )
        refl,
  )
