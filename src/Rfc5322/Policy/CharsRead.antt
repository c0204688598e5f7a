-- ===== src/Rfc5322/Policy/CharsRead.antt =====
-- src/rfc5322.rs: what the loops over characters of a class read.
use rustyknife.Nom.Rules.{
  AllOf, Sound, Sound-weaken, Sound-alt, Sound-take1_filter, Sound-recognize_many1, Star, none_left,
  one_more, OneOf, Plus,
}
use rustyknife.Nom.{Nom, alt}
use rustyknife.Prelude.{
  ℕ, ◌≡◌, ◌≤◌, ◌<◌, ◌⊎◌, inl, inr, refl, sym, ◌∙◌, Bool, Bool-cases, false, List, [], ◌∷◌, Bytes,
  arith, ltb,
}
use rustyknife.Prelude.Utf8.{collect, encode_utf8}
use rustyknife.Rfc5322.Policy.Chars.{CharOf, encode_utf8-ascii}
use rustyknife.Rfc5322.Policy.Decoded.{FormOf, Sound-utf8_non_ascii}
use rustyknife.Rfc5322.Policy.{utf8_non_ascii}
use rustyknife.Util.{take1_filter, recognize_many1}

module _ (f : ℕ → Bool) (narrow : (a : ℕ) → 0x80 ≤ a → f a ≡ false) where
  -- The form of a character of the class.
  abbrev pub CharForm : Bytes → ℕ → Type 0
  CharForm t c = (t ≡ encode_utf8 c) × CharOf f c

  ascii_form : (t : Bytes) (c : ℕ) → OneOf f t c → CharForm t c
  ascii_form t c (e, y) = elim (Bool-cases (ltb c 0x80)) [
    | inl l ↦
        let low : c < 0x80 = ground (arith, l) in (e ∙ sym (encode_utf8-ascii c low), inl (low, y))
    | inr l ↦ absurd (cc (narrow c (ground (arith, l)), y))
  ]

  pub Star-collect :
      {t : Bytes} {cs : List ℕ} → Star CharForm t cs → (t ≡ collect cs) × AllOf (CharOf f) cs
  Star-collect none_left = (refl, tt)
  Star-collect (one_more (e, h) s) = let (e', hs) = Star-collect s in (rw (e, e') refl, (h, hs))

  module _ ⦃nom : Nom⦄ where
    pub Sound-char : Sound (alt (take1_filter f) utf8_non_ascii) CharForm
    Sound-char =
        Sound-weaken _ (Sound-alt _ _ (Sound-take1_filter f) Sound-utf8_non_ascii)
          (λ t c. either t c)
      where
        either : (t : Bytes) (c : ℕ) → OneOf f t c ⊎ FormOf t c → CharForm t c
        either t c (inl h) = ascii_form t c h
        either t c (inr (e, w)) = (e, inr w)

    -- A text of such characters, one or more.
    abbrev pub SomeChars : Bytes → Type 0
    SomeChars x = (c : ℕ) × (cs : List ℕ) × (x ≡ collect (c ∷ cs)) × AllOf (CharOf f) (c ∷ cs)

    pub Sound-chars :
        Sound (recognize_many1 (alt (take1_filter f) utf8_non_ascii)) (λ t x. (t ≡ x) × SomeChars x)
    Sound-chars =
        Sound-weaken _ (Sound-recognize_many1 _ Sound-char)
          (λ t x (same, (cs, plus)). go t x cs same plus)
      where
        go : (t x : Bytes) (cs : List ℕ) → x ≡ t → Plus CharForm t cs → (t ≡ x) × SomeChars x
        go t x [] same plus = absurd (plus.1 refl)
        go t x (c ∷ cs) same plus =
            let (e, h) = Star-collect plus.0 in (sym same, (c, cs, same ∙ e, h))
