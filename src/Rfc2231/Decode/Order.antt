-- ===== src/Rfc2231/Decode/Order.antt =====
-- src/rfc2231.rs: the order of the segments of a value does not matter.
use rustyknife.External.{External, Codec}
use rustyknife.Prelude.{
  ℕ, ◌≡◌, ◌≢◌, refl, ap, sym, ◌∙◌, Bool-cases, inl, inr, true, false, leb, List, [], ◌∷◌, arith,
  if◌then◌else◌, some,
}
use rustyknife.Rfc2231.Decode.Meaning.{joined}
use rustyknife.Rfc2231.Decode.{Segment, insert_sorted, sort_by_section, decode_segments}

-- Neighbours of different numbers have changed places, any number of times.
pub data Exchanged {V : Type 0} : List (ℕ × V) → List (ℕ × V) → Type 0 where
  same : {xs : List (ℕ × V)} → Exchanged xs xs
  swap :
      (m n : ℕ) (v w : V) (xs : List (ℕ × V))
      → m ≢ n
      → Exchanged ((m, v) ∷ (n, w) ∷ xs) ((n, w) ∷ (m, v) ∷ xs)
  keep : {xs ys : List (ℕ × V)} (x : ℕ × V) → Exchanged xs ys → Exchanged (x ∷ xs) (x ∷ ys)
  both : {xs ys zs : List (ℕ × V)} → Exchanged xs ys → Exchanged ys zs → Exchanged xs zs

module _ {V : Type 0} where
  insert_sorted-low :
      (m k : ℕ) (v u : V) (xs : List (ℕ × V))
      → leb m k ≡ true
      → insert_sorted (m, v) ((k, u) ∷ xs) ≡ (m, v) ∷ (k, u) ∷ xs
  unfolding insert_sorted
  insert_sorted-low m k v u xs y = rw (y, if◌then◌else◌) refl

  insert_sorted-high :
      (m k : ℕ) (v u : V) (xs : List (ℕ × V))
      → leb m k ≡ false
      → insert_sorted (m, v) ((k, u) ∷ xs) ≡ (k, u) ∷ insert_sorted (m, v) xs
  unfolding insert_sorted
  insert_sorted-high m k v u xs n = rw (n, if◌then◌else◌) refl

  insert_sorted-nil :
      (m n : ℕ) (v w : V)
      → m ≢ n
      → insert_sorted (m, v) ((n, w) ∷ []) ≡ insert_sorted (n, w) ((m, v) ∷ [])
  unfolding insert_sorted
  insert_sorted-nil m n v w ne = elim (Bool-cases (leb m n)) [
    | inl y ↦ let back : leb n m ≡ false = ground (arith, y, ne) in rw (y, back, if◌then◌else◌) refl
    | inr y ↦ let back : leb n m ≡ true = ground (arith, y, ne) in rw (y, back, if◌then◌else◌) refl
  ]

  low_low :
      (m n k : ℕ) (v w u : V) (xs : List (ℕ × V))
      → leb m k ≡ true
      → leb n k ≡ true
      → leb m n ≡ true
      → leb n m ≡ false
      → insert_sorted (m, v) (insert_sorted (n, w) ((k, u) ∷ xs))
        ≡ insert_sorted (n, w) (insert_sorted (m, v) ((k, u) ∷ xs))
  low_low m n k v w u xs a b c d =
      rw
        (
          insert_sorted-low n k w u xs b,
          insert_sorted-low m n v w ((k, u) ∷ xs) c,
          insert_sorted-low m k v u xs a,
          insert_sorted-high n m w v ((k, u) ∷ xs) d,
          insert_sorted-low n k w u xs b,
        )
        refl

  low_high :
      (m n k : ℕ) (v w u : V) (xs : List (ℕ × V))
      → leb m k ≡ true
      → leb n k ≡ false
      → leb n m ≡ false
      → insert_sorted (m, v) (insert_sorted (n, w) ((k, u) ∷ xs))
        ≡ insert_sorted (n, w) (insert_sorted (m, v) ((k, u) ∷ xs))
  low_high m n k v w u xs a b d =
      rw
        (
          insert_sorted-high n k w u xs b,
          insert_sorted-low m k v u (insert_sorted (n, w) xs) a,
          insert_sorted-low m k v u xs a,
          insert_sorted-high n m w v ((k, u) ∷ xs) d,
          insert_sorted-high n k w u xs b,
        )
        refl

  insert_sorted-swap :
      (m n : ℕ) (v w : V) (xs : List (ℕ × V))
      → m ≢ n
      → insert_sorted (m, v) (insert_sorted (n, w) xs)
        ≡ insert_sorted (n, w) (insert_sorted (m, v) xs)
  unfolding insert_sorted
  insert_sorted-swap m n v w [] ne = insert_sorted-nil m n v w ne
  insert_sorted-swap m n v w ((k, u) ∷ xs) ne = elim (Bool-cases (leb m k)) [
    | inl a ↦ elim (Bool-cases (leb n k)) [
      | inl b ↦ elim (Bool-cases (leb m n)) [
        | inl c ↦ low_low m n k v w u xs a b c (ground (arith, c, ne))
        | inr c ↦ sym (low_low n m k w v u xs b a (ground (arith, c)) c)
      ]
      | inr b ↦ low_high m n k v w u xs a b (ground (arith, a, b))
    ]
    | inr a ↦ elim (Bool-cases (leb n k)) [
      | inl b ↦ sym (low_high n m k w v u xs b a (ground (arith, a, b)))
      | inr b ↦
          rw
            (
              insert_sorted-high n k w u xs b,
              insert_sorted-high m k v u (insert_sorted (n, w) xs) a,
              insert_sorted-high m k v u xs a,
              insert_sorted-high n k w u (insert_sorted (m, v) xs) b,
            )
            (ap (λ ys. (k, u) ∷ ys) (insert_sorted-swap m n v w xs ne))
    ]
  ]

  sort_by_section-Exchanged :
      {xs ys : List (ℕ × V)} → Exchanged xs ys → sort_by_section xs ≡ sort_by_section ys
  unfolding sort_by_section
  sort_by_section-Exchanged same = refl
  sort_by_section-Exchanged (swap m n v w xs ne) =
      insert_sorted-swap m n v w (sort_by_section xs) ne
  sort_by_section-Exchanged (keep x e) = ap (insert_sorted x) (sort_by_section-Exchanged e)
  sort_by_section-Exchanged (both e f) = sort_by_section-Exchanged e ∙ sort_by_section-Exchanged f

module _ ⦃ext : External⦄ where
  decode_segments-Exchanged :
      {xs ys : List (ℕ × Segment)} (codec : Codec)
      → Exchanged xs ys
      → decode_segments xs codec ≡ decode_segments ys codec
  unfolding decode_segments
  decode_segments-Exchanged codec e = rw (sort_by_section-Exchanged e) refl

  pub joined-Exchanged :
      {xs ys : List (ℕ × Segment)} (codec : Codec)
      → Exchanged xs ys
      → joined codec xs ≡ joined codec ys
  joined-Exchanged codec same = refl
  joined-Exchanged codec (swap m n v w xs ne) =
      ap some (decode_segments-Exchanged codec (swap m n v w xs ne))
  joined-Exchanged codec (keep x e) = ap some (decode_segments-Exchanged codec (keep x e))
  joined-Exchanged codec (both e f) = joined-Exchanged codec e ∙ joined-Exchanged codec f
