-- ===== src/Rfc5322/Policy/Decoded.antt =====
-- src/rfc5322.rs: what `utf8_non_ascii` reads is the UTF-8 form of one character beyond ASCII.
use rustyknife.Nom.Rules.{Sound, Sound-weaken, Sound-map_opt, Sound-alt}
use rustyknife.Nom.{Nom, take_bytes}
use rustyknife.Prelude.{
  ℕ, ◌+◌, ◌/◌, ◌%◌, ◌≡◌, ◌∙◌, take, ◌≤◌, ◌<◌, ◌⊎◌, inl, inr, refl, sym, none, if◌then◌else◌,
  Bool-cases, take-append-drop, ◌==◌, [], ◌∷◌, Bytes, arith, some, ltb, length,
}
use rustyknife.Prelude.Utf8.{only_char, encode_utf8}
use rustyknife.Rfc5322.Policy.Chars.{Wide}
use rustyknife.Rfc5322.Policy.Utf8.{encode_2, encode_3, encode_4}
use rustyknife.Rfc5322.Policy.{single_char, utf8_non_ascii}

only_char_2 :
    (a b c : ℕ)
    → only_char (a ∷ b ∷ []) ≡ some c
    → (0x80 ≤ c) × (c < 0x800) × (a ≡ c / 64 + 0xc0) × (b ≡ c % 64 + 0x80)
unfolding only_char
only_char_2 a b c h = ground (arith, h)

only_char_3 :
    (a b c d : ℕ)
    → only_char (a ∷ b ∷ c ∷ []) ≡ some d
    → (0x800 ≤ d)
      × (d < 0x10000)
      × ((d < 0xd800) ⊎ (0xe000 ≤ d))
      × (a ≡ d / 4096 + 0xe0)
      × (b ≡ d / 64 % 64 + 0x80)
      × (c ≡ d % 64 + 0x80)
unfolding only_char
only_char_3 a b c d h = ground (arith, h)

only_char_4 :
    (a b c d e : ℕ)
    → only_char (a ∷ b ∷ c ∷ d ∷ []) ≡ some e
    → (0x10000 ≤ e)
      × (e < 0x110000)
      × (a ≡ e / 262144 + 0xf0)
      × (b ≡ e / 4096 % 64 + 0x80)
      × (c ≡ e / 64 % 64 + 0x80)
      × (d ≡ e % 64 + 0x80)
unfolding only_char
only_char_4 a b c d e h = ground (arith, h)

-- The UTF-8 form of a character beyond ASCII.
abbrev pub FormOf : Bytes → ℕ → Type 0
FormOf t c = (t ≡ encode_utf8 c) × Wide c

form_2 : (a b c : ℕ) → only_char (a ∷ b ∷ []) ≡ some c → FormOf (a ∷ b ∷ []) c
form_2 a b c h =
    let (l, u, e, f) = only_char_2 a b c h in
    (rw (encode_2 c l u, e, f) refl, (l, omega arith, inl (omega arith)))

form_3 : (a b c d : ℕ) → only_char (a ∷ b ∷ c ∷ []) ≡ some d → FormOf (a ∷ b ∷ c ∷ []) d
form_3 a b c d h =
    let (l, u, s, e, f, g) = only_char_3 a b c d h in
    (rw (encode_3 d l u, e, f, g) refl, (omega arith, omega arith, s))

form_4 : (a b c d e : ℕ) → only_char (a ∷ b ∷ c ∷ d ∷ []) ≡ some e → FormOf (a ∷ b ∷ c ∷ d ∷ []) e
form_4 a b c d e h =
    let (l, u, p, q, r, s) = only_char_4 a b c d e h in
    (rw (encode_4 e l, p, q, r, s) refl, (omega arith, u, inr (omega arith)))

form : (t : Bytes) (c : ℕ) → 2 ≤ length t → only_char t ≡ some c → FormOf t c
unfolding only_char
form [] c l h = absurd (omega arith)
form (a ∷ []) c l h = absurd (omega arith)
form (a ∷ b ∷ []) c l h = form_2 a b c h
form (a ∷ b ∷ d ∷ []) c l h = form_3 a b d c h
form (a ∷ b ∷ d ∷ e ∷ []) c l h = form_4 a b d e c h
form (a ∷ b ∷ d ∷ e ∷ f ∷ t) c l h = absurd (cc h)

module _ ⦃nom : Nom⦄ where
  Sound-take_bytes : (n : ℕ) → Sound (take_bytes n) (λ t a. t ≡ a)
  Sound-take_bytes n i r a e = elim (Bool-cases (ltb (length i) n)) [
    | inl y ↦ absurd (cc (rw (nom.take_bytes_law, y, if◌then◌else◌) at e))
    | inr y ↦
        let h = rw (nom.take_bytes_law, y, if◌then◌else◌) at e in
        record { text = take n i; splits = sym (take-append-drop n i) ∙ cc h; spells = cc h }
  ]

  -- What one character of several bytes is read from.
  Sound-single_char : (n : ℕ) → 2 ≤ n → Sound (single_char n) FormOf
  unfolding single_char
  Sound-single_char n two =
      Sound-weaken (single_char n) (Sound-map_opt (take_bytes n) (Sound-take_bytes n) _)
        (λ t c (a, same, h). go t c a same h)
    where
      go :
          (t : Bytes) (c : ℕ) (a : Bytes)
          → t ≡ a
          → (if length a == n then only_char a else none) ≡ some c
          → FormOf t c
      go t c a same h = elim (Bool-cases (length a == n)) [
        | inl y ↦ rw same (form a c (ground (arith, y, two)) (rw (y, if◌then◌else◌) at h))
        | inr y ↦ absurd (cc (rw (y, if◌then◌else◌) at h))
      ]

  -- `utf8_non_ascii` reads the UTF-8 form of the character that it returns.
  pub Sound-utf8_non_ascii : Sound utf8_non_ascii FormOf
  unfolding utf8_non_ascii
  Sound-utf8_non_ascii =
      Sound-weaken utf8_non_ascii
        (Sound-alt _ _ (Sound-single_char 4 (omega arith))
          (Sound-alt _ _ (Sound-single_char 3 (omega arith)) (Sound-single_char 2 (omega arith))))
        (λ t c. any t c)
    where
      any : (t : Bytes) (c : ℕ) → FormOf t c ⊎ (FormOf t c ⊎ FormOf t c) → FormOf t c
      any t c (inl h) = h
      any t c (inr (inl h)) = h
      any t c (inr (inr h)) = h
