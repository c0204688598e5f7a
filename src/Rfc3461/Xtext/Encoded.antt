-- ===== src/Rfc3461/Xtext/Encoded.antt =====
-- src/rfc3461.rs: xtext reads what RFC 3461 encodes.
use rustyknife.Nom.Rules.{many0_ok}
use rustyknife.Nom.Rules.{take1_filter-cons, take1_filter-nil}
use rustyknife.Nom.{Nom, ok, Many, stop, more, alt, is_hex_digit, from_option}
use rustyknife.Prelude.{
  ℕ, suc, length, not_ltb, ◌+◌, ◌/◌, ◌%◌, ◌≡◌, ◌≢◌, ◌<◌, refl, ap, ◌∙◌, true, false, [], ◌∷◌, ◌++◌,
  some, Bytes, ltb, Every, arith, if◌then◌else◌, Bool-cases, inl, inr,
}
use rustyknife.Prelude.Utf8.{from_hex, hex_value}
use rustyknife.Rfc3461.Xtext.{is_xchar, hexpair, hexchar, xchar, xtext}

-- An upper-case hexadecimal digit.
abbrev pub hex_digit : ℕ → ℕ
hex_digit n = if ltb n 10 then n + b'0' else n + 55

-- The encoding of RFC 3461: other bytes than those of xchar are a plus sign and two digits.
abbrev pub encode : Bytes → Bytes
encode [] = []
encode (c ∷ cs) =
    if is_xchar c then c ∷ encode cs else b'+' ∷ hex_digit (c / 16) ∷ hex_digit (c % 16) ∷ encode cs

-- The text ends here.
abbrev pub EndsText : Bytes → Type 0
EndsText [] = Unit {0}
EndsText (c ∷ cs) = (is_xchar c ≡ false) × (c ≢ b'+')

hex_value-hex_digit : (n : ℕ) → n < 16 → hex_value (hex_digit n) ≡ n
unfolding hex_value
hex_value-hex_digit n h = ground (arith, h)

from_hex-hex_digit :
    (c : ℕ) → c < 256 → from_hex (hex_digit (c / 16) ∷ hex_digit (c % 16) ∷ []) ≡ some c
unfolding from_hex
from_hex-hex_digit c h =
    rw (hex_value-hex_digit (c / 16) (omega (arith, h)), hex_value-hex_digit (c % 16) (omega arith))
      (ap some (omega arith))

module _ ⦃nom : Nom⦄ where
  hex_digit-is_hex_digit : (n : ℕ) → n < 16 → is_hex_digit (hex_digit n) ≡ true
  hex_digit-is_hex_digit n h = nom.is_hex_digit_law (hex_digit n) ∙ ground (arith, h)

  pub hexpair-hex_digit :
      (c : ℕ) (s : Bytes) → c < 256 → hexpair (hex_digit (c / 16) ∷ hex_digit (c % 16) ∷ s) ≡ ok s c
  unfolding hexpair
  hexpair-hex_digit c s h =
      rw
        (
          nom.map_res_law,
          nom.verify_law,
          nom.take_bytes_law,
          not_ltb (suc (suc (length s))) 2 (omega arith),
          hex_digit-is_hex_digit (c / 16) (omega (arith, h)),
          hex_digit-is_hex_digit (c % 16) (omega arith),
        )
        (ap (from_option s) (from_hex-hex_digit c h))

  Many-encode :
      (bs r : Bytes)
      → Every (λ c. ltb c 256) bs
      → EndsText r
      → Many (alt xchar hexchar) (encode bs ++ r) bs r
  unfolding xchar hexchar
  Many-encode [] [] h e =
      stop (rw (nom.alt_law, take1_filter-nil, nom.preceded_law, nom.tag_law) refl)
  Many-encode [] (c ∷ r) h e = stop (
      rw (nom.alt_law, take1_filter-cons, e.0, nom.preceded_law, nom.tag_law) (ground (arith, e.1)))
  Many-encode (b ∷ bs) r h e = elim (Bool-cases (is_xchar b)) [
    | inl y ↦
        rw (y, if◌then◌else◌)
          (more (rw (nom.alt_law, take1_filter-cons, y) refl) (omega arith)
            (Many-encode bs r h.1 e))
    | inr n ↦
        rw (n, if◌then◌else◌)
          (more
            (rw (nom.alt_law, take1_filter-cons, nom.preceded_law, nom.tag_law)
              (hexpair-hex_digit b _ (ground (arith, h.0))))
            (omega arith) (Many-encode bs r h.1 e))
  ]

  -- Byte values are read back from their encoding, if what follows is neither a byte of xchar nor a
  -- plus sign.
  pub xtext-encode :
      (bs r : Bytes) → Every (λ c. ltb c 256) bs → EndsText r → xtext (encode bs ++ r) ≡ ok r bs
  unfolding xtext
  xtext-encode bs r h e = many0_ok _ _ (Many-encode bs r h e)
