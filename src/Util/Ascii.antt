-- ===== src/Util/Ascii.antt =====
-- src/util.rs: a text of ASCII bytes is its string.
use rustyknife.External.{External}
use rustyknife.Prelude.{ℕ, ◌≡◌, refl, Bool, true, [], ◌∷◌, Bytes, Every, ltb}
use rustyknife.Util.{ascii_to_string, is_ascii}

module _ ⦃ext : External⦄ where
  pub ascii_to_string-class :
      (f : ℕ → Bool)
      → ((c : ℕ) → f c ≡ true → ltb c 0x80 ≡ true)
      → (s : Bytes) → Every f s
      → ascii_to_string s ≡ s
  unfolding ascii_to_string
  ascii_to_string-class f low s h = rw (all_low s h) refl
    where
      all_low : (s : Bytes) → Every f s → is_ascii s ≡ true
      all_low [] h = refl
      all_low (c ∷ s) h = rw (low c h.0, all_low s h.1) refl
