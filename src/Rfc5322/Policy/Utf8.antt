-- ===== src/Rfc5322/Policy/Utf8.antt =====
-- src/rfc5322.rs: `utf8_non_ascii` reads one character.
use rustyknife.Nom.{Nom, ok, err, error, from_option}
use rustyknife.Prelude.{
  ℕ, suc, not_ltb, sym, ◌∙◌, Bool-cases, inl, inr, ◌+◌, ◌/◌, ◌%◌, ◌≡◌, ◌≤◌, ◌<◌, ◌⊎◌, refl, ap,
  false, [], ◌∷◌, ◌++◌, some, Bytes, within, ltb, arith, length,
}
use rustyknife.Prelude.Utf8.{only_char, encode_utf8}
use rustyknife.Rfc5322.Policy.{single_char, utf8_non_ascii}

two_bytes : (c : ℕ) → 0x80 ≤ c → c < 0x800 → only_char (encode_utf8 c) ≡ some c
unfolding only_char encode_utf8
two_bytes c l h = ground (arith, l, h)

three_bytes :
    (c : ℕ)
    → 0x800 ≤ c
    → c < 0x10000
    → (c < 0xd800) ⊎ (0xe000 ≤ c)
    → only_char (encode_utf8 c) ≡ some c
unfolding only_char encode_utf8
three_bytes c l h s = ground (arith, l, h, s)

four_bytes : (c : ℕ) → 0x10000 ≤ c → c < 0x110000 → only_char (encode_utf8 c) ≡ some c
unfolding only_char encode_utf8
four_bytes c l h = ground (arith, l, h)

-- The encodings, by their length.
pub encode_2 :
    (c : ℕ) → 0x80 ≤ c → c < 0x800 → encode_utf8 c ≡ (c / 64 + 0xc0) ∷ (c % 64 + 0x80) ∷ []
unfolding encode_utf8
encode_2 c l h = ground (arith, l, h)

pub encode_3 :
    (c : ℕ)
    → 0x800 ≤ c
    → c < 0x10000
    → encode_utf8 c ≡ (c / 4096 + 0xe0) ∷ (c / 64 % 64 + 0x80) ∷ (c % 64 + 0x80) ∷ []
unfolding encode_utf8
encode_3 c l h = ground (arith, l, h)

pub encode_4 :
    (c : ℕ)
    → 0x10000 ≤ c
    → encode_utf8 c
      ≡ (c / 262144 + 0xf0) ∷ (c / 4096 % 64 + 0x80) ∷ (c / 64 % 64 + 0x80) ∷ (c % 64 + 0x80) ∷ []
unfolding encode_utf8
encode_4 c l = ground (arith, l)

module _ ⦃nom : Nom⦄ where
  single_2 :
      (a b : ℕ) (r : Bytes) → single_char 2 (a ∷ b ∷ r) ≡ from_option r (only_char (a ∷ b ∷ []))
  unfolding single_char
  single_2 a b r =
      rw (nom.map_opt_law, nom.take_bytes_law, not_ltb (suc (suc (length r))) 2 (omega arith)) refl

  single_3 :
      (a b c : ℕ) (r : Bytes)
      → single_char 3 (a ∷ b ∷ c ∷ r) ≡ from_option r (only_char (a ∷ b ∷ c ∷ []))
  unfolding single_char
  single_3 a b c r =
      rw (nom.map_opt_law, nom.take_bytes_law, not_ltb (suc (suc (suc (length r)))) 3 (omega arith))
        refl

  single_4 :
      (a b c d : ℕ) (r : Bytes)
      → single_char 4 (a ∷ b ∷ c ∷ d ∷ r) ≡ from_option r (only_char (a ∷ b ∷ c ∷ d ∷ []))
  unfolding single_char
  single_4 a b c d r =
      rw
        (
          nom.map_opt_law,
          nom.take_bytes_law,
          not_ltb (suc (suc (suc (suc (length r))))) 4 (omega arith),
        )
        refl

  pub too_short : (n : ℕ) (s : Bytes) → length s < n → single_char n s ≡ err error
  unfolding single_char
  too_short n s h = rw (nom.map_opt_law, nom.take_bytes_law) (ground (arith, h))

  pub not_2 :
      (a b : ℕ) (r : Bytes) → within 0xc2 0xdf a ≡ false → single_char 2 (a ∷ b ∷ r) ≡ err error
  unfolding only_char
  not_2 a b r h = single_2 a b r ∙ rw (only_char, h) refl

  pub not_3 :
      (a b : ℕ) (r : Bytes) → within 0xe0 0xef a ≡ false → single_char 3 (a ∷ b ∷ r) ≡ err error
  unfolding only_char
  not_3 a b [] h = too_short 3 (a ∷ b ∷ []) (omega arith)
  not_3 a b (c ∷ r) h = single_3 a b c r ∙ rw (only_char, h) refl

  pub not_4 :
      (a b : ℕ) (r : Bytes) → within 0xf0 0xf4 a ≡ false → single_char 4 (a ∷ b ∷ r) ≡ err error
  unfolding only_char
  not_4 a b [] h = too_short 4 (a ∷ b ∷ []) (omega arith)
  not_4 a b (c ∷ []) h = too_short 4 (a ∷ b ∷ c ∷ []) (omega arith)
  not_4 a b (c ∷ d ∷ r) h = single_4 a b c d r ∙ rw (only_char, h) refl

  utf8_2 : (c : ℕ) (r : Bytes) → 0x80 ≤ c → c < 0x800 → utf8_non_ascii (encode_utf8 c ++ r) ≡ ok r c
  unfolding utf8_non_ascii
  utf8_2 c r l h =
      rw
        (
          encode_2 c l h,
          nom.alt_law,
          not_4 (c / 64 + 0xc0) (c % 64 + 0x80) r (ground (arith, l, h)),
          nom.alt_law,
          not_3 (c / 64 + 0xc0) (c % 64 + 0x80) r (ground (arith, l, h)),
          single_2,
        )
        (ap (from_option r) (ap only_char (sym (encode_2 c l h)) ∙ two_bytes c l h))

  utf8_3 :
      (c : ℕ) (r : Bytes)
      → 0x800 ≤ c
      → c < 0x10000
      → (c < 0xd800) ⊎ (0xe000 ≤ c)
      → utf8_non_ascii (encode_utf8 c ++ r) ≡ ok r c
  unfolding utf8_non_ascii
  utf8_3 c r l h s =
      rw
        (
          encode_3 c l h,
          nom.alt_law,
          not_4 (c / 4096 + 0xe0) (c / 64 % 64 + 0x80) ((c % 64 + 0x80) ∷ r) (ground (arith, l, h)),
          nom.alt_law,
          single_3,
          ap only_char (sym (encode_3 c l h)) ∙ three_bytes c l h s,
        )
        refl

  utf8_4 :
      (c : ℕ) (r : Bytes)
      → 0x10000 ≤ c
      → c < 0x110000
      → utf8_non_ascii (encode_utf8 c ++ r) ≡ ok r c
  unfolding utf8_non_ascii
  utf8_4 c r l h =
      rw (encode_4 c l, nom.alt_law, single_4, ap only_char (sym (encode_4 c l)) ∙ four_bytes c l h)
        refl

  -- Every character that is not ASCII is read back from its UTF-8 form, whatever follows: the scalar
  -- values from 128, without the surrogates.
  pub utf8_non_ascii-encode_utf8 :
      (c : ℕ) (r : Bytes)
      → 0x80 ≤ c
      → c < 0x110000
      → (c < 0xd800) ⊎ (0xe000 ≤ c)
      → utf8_non_ascii (encode_utf8 c ++ r) ≡ ok r c
  utf8_non_ascii-encode_utf8 c r l h s = elim (Bool-cases (ltb c 0x800)) [
    | inl y ↦ utf8_2 c r l (ground (arith, y))
    | inr n ↦ elim (Bool-cases (ltb c 0x10000)) [
      | inl y ↦ utf8_3 c r (ground (arith, n)) (ground (arith, y)) s
      | inr m ↦ utf8_4 c r (ground (arith, m)) h
    ]
  ]
