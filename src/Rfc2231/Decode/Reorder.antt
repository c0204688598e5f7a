-- ===== src/Rfc2231/Decode/Reorder.antt =====
-- src/rfc2231.rs: parameters that change places.
use rustyknife.External.{External}
use rustyknife.Prelude.{
  ℕ, ◌≡◌, ◌≢◌, ◌⊎◌, refl, ap, sym, ◌∙◌, subst, Bool-cases, inl, inr, true, false, List, [], ◌∷◌,
  ◌++◌, Bytes, Option, some, none, if◌then◌else◌, equal→eq, lowercase,
}
use rustyknife.Rfc2231.Decode.Lookup.{later, later-none}
use rustyknife.Rfc2231.Decode.Meaning.{
  plain_of, coded_of, codec_of, segments_of, named, last, segments, meaning,
}
use rustyknife.Rfc2231.Decode.Merged.{get-decode_parameter_list}
use rustyknife.Rfc2231.Decode.Order.{Exchanged, same, swap, keep, both, joined-Exchanged}
use rustyknife.Rfc2231.Decode.{Segment, get, get_or, decode_parameter_list}
use rustyknife.Rfc2231.Syntax.{Parameter, Value, regular, extended, initial, other}

module _ ⦃ext : External⦄ where
  -- Parameters of two names, or two segments of different numbers, at most one of which names a
  -- known charset.
  pub data Apart (p q : Parameter) : Type 0 where
    by_name : lowercase p.name.name ≢ lowercase q.name.name → Apart p q
    by_section :
        (m n : ℕ)
        → p.name.section ≡ some m
        → q.name.section ≡ some n
        → m ≢ n
        → (codec_of p.name.section p.value ≡ none) ⊎ (codec_of q.name.section q.value ≡ none)
        → Apart p q

  -- Such neighbours have changed places, any number of times.
  pub data Reordered : List Parameter → List Parameter → Type 0 where
    as_is : {ps : List Parameter} → Reordered ps ps
    exchange :
        (p q : Parameter) (ps : List Parameter) → Apart p q → Reordered (p ∷ q ∷ ps) (q ∷ p ∷ ps)
    behind :
        {ps qs : List Parameter} (p : Parameter) → Reordered ps qs → Reordered (p ∷ ps) (p ∷ qs)
    and_then_on : {ps qs rs : List Parameter} → Reordered ps qs → Reordered qs rs → Reordered ps rs

  later_swap :
      {V : Type 0} (a b r : Option V)
      → (a ≡ none) ⊎ (b ≡ none)
      → later (later r b) a ≡ later (later r a) b
  later_swap a b r (inl e) = rw (e, later-none (later r b), later-none r) refl
  later_swap a b r (inr e) = rw (e, later-none r, later-none (later r a)) refl

  abbrev said : {V : Type 0} → (Option ℕ → Value → Option V) → Bytes → Parameter → Option V
  said f k p = if named k p then f p.name.section p.value else none

  unsaid :
      {V : Type 0} (f : Option ℕ → Value → Option V) (k : Bytes) (p : Parameter)
      → f p.name.section p.value ≡ none
      → said f k p ≡ none
  unsaid f k p e = elim (Bool-cases (named k p)) [
    | inl y ↦ rw (y, if◌then◌else◌) e
    | inr n ↦ rw (n, if◌then◌else◌) refl
  ]

  -- Of two names, one is not the name in question.
  not_both :
      (k : Bytes) (p q : Parameter)
      → lowercase p.name.name ≢ lowercase q.name.name
      → (named k p ≡ false) ⊎ (named k q ≡ false)
  not_both k p q ne = elim (Bool-cases (named k p)) [
    | inr n ↦ inl n
    | inl y ↦ elim (Bool-cases (named k q)) [
      | inr n ↦ inr n
      | inl z ↦
          absurd
            (ne (equal→eq (lowercase p.name.name) k y ∙ sym (equal→eq (lowercase q.name.name) k z)))
    ]
  ]

  abbrev Quiet : {V : Type 0} → (Option ℕ → Value → Option V) → Type 0
  Quiet f =
      (p q : Parameter) (m n : ℕ)
      → p.name.section ≡ some m
      → q.name.section ≡ some n
      → (codec_of p.name.section p.value ≡ none) ⊎ (codec_of q.name.section q.value ≡ none)
      → (f p.name.section p.value ≡ none) ⊎ (f q.name.section q.value ≡ none)

  one_silent :
      {V : Type 0} (f : Option ℕ → Value → Option V)
      → Quiet f
      → (k : Bytes) (p q : Parameter) → Apart p q
      → (said f k p ≡ none) ⊎ (said f k q ≡ none)
  one_silent f quiet k p q (by_name ne) = elim (not_both k p q ne) [
    | inl n ↦ inl (rw (n, if◌then◌else◌) refl)
    | inr n ↦ inr (rw (n, if◌then◌else◌) refl)
  ]
  one_silent f quiet k p q (by_section m n e e' ne c) = elim (quiet p q m n e e' c) [
    | inl h ↦ inl (unsaid f k p h)
    | inr h ↦ inr (unsaid f k q h)
  ]

  last-Reordered :
      {V : Type 0} (f : Option ℕ → Value → Option V)
      → Quiet f
      → (k : Bytes) {ps qs : List Parameter} → Reordered ps qs
      → last f k ps ≡ last f k qs
  last-Reordered f quiet k as_is = refl
  last-Reordered f quiet k (exchange p q ps apart) =
      later_swap _ _ (last f k ps) (one_silent f quiet k p q apart)
  last-Reordered f quiet k (behind p r) =
      ap (λ o. later o (said f k p)) (last-Reordered f quiet k r)
  last-Reordered f quiet k (and_then_on r s) =
      last-Reordered f quiet k r ∙ last-Reordered f quiet k s

  plain_unaware : Quiet plain_of
  plain_unaware p q m n e e' c = inl (rw e refl)

  coded_unaware : Quiet coded_of
  coded_unaware p q m n e e' c = inl (rw e refl)

  abbrev segs : Bytes → Parameter → List (ℕ × Segment)
  segs k p = if named k p then segments_of p.name.section p.value else []

  -- A section is one segment of its number.
  one_segment : (m : ℕ) (v : Value) → (s : Segment) × (segments_of (some m) v ≡ (m, s) ∷ [])
  one_segment m (regular v) = (_, refl)
  one_segment m (extended (initial e l v)) = (_, refl)
  one_segment m (extended (other v)) = (_, refl)

  unnamed : (k : Bytes) (p : Parameter) → named k p ≡ false → segs k p ≡ []
  unnamed k p n = rw (n, if◌then◌else◌) refl

  swap_empty :
      (xs ys rest : List (ℕ × Segment))
      → (xs ≡ []) ⊎ (ys ≡ [])
      → Exchanged (xs ++ (ys ++ rest)) (ys ++ (xs ++ rest))
  swap_empty xs ys rest (inl e) = rw e same
  swap_empty xs ys rest (inr e) = rw e same

  segs-named :
      (k : Bytes) (p : Parameter) (m : ℕ)
      → named k p ≡ true
      → p.name.section ≡ some m
      → (s : Segment) × (segs k p ≡ (m, s) ∷ [])
  segs-named k p m y e = let (s, h) = one_segment m p.value in (s, rw (y, e, if◌then◌else◌) h)

  segs_swap :
      (k : Bytes) (p q : Parameter) (rest : List (ℕ × Segment))
      → Apart p q
      → Exchanged (segs k p ++ (segs k q ++ rest)) (segs k q ++ (segs k p ++ rest))
  segs_swap k p q rest (by_name ne) = elim (not_both k p q ne) [
    | inl n ↦ swap_empty (segs k p) (segs k q) rest (inl (unnamed k p n))
    | inr n ↦ swap_empty (segs k p) (segs k q) rest (inr (unnamed k q n))
  ]
  segs_swap k p q rest (by_section m n e e' ne c) = elim (Bool-cases (named k p)) [
    | inr a ↦ swap_empty (segs k p) (segs k q) rest (inl (unnamed k p a))
    | inl a ↦ elim (Bool-cases (named k q)) [
      | inr b ↦ swap_empty (segs k p) (segs k q) rest (inr (unnamed k q b))
      | inl b ↦
          let (s, h) = segs-named k p m a e in
          let (t, h') = segs-named k q n b e' in
          subst (λ xs. Exchanged (xs ++ (segs k q ++ rest)) (segs k q ++ (xs ++ rest))) (sym h)
            (subst (λ ys. Exchanged (((m, s) ∷ []) ++ (ys ++ rest)) (ys ++ (((m, s) ∷ []) ++ rest)))
              (sym h') (swap m n s t rest ne))
    ]
  ]

  keep_all :
      (xs : List (ℕ × Segment)) {ys zs : List (ℕ × Segment)}
      → Exchanged ys zs
      → Exchanged (xs ++ ys) (xs ++ zs)
  keep_all [] e = e
  keep_all (x ∷ xs) e = keep x (keep_all xs e)

  segments-Reordered :
      (k : Bytes) {ps qs : List Parameter}
      → Reordered ps qs
      → Exchanged (segments k ps) (segments k qs)
  segments-Reordered k as_is = same
  segments-Reordered k (exchange p q ps apart) = segs_swap k p q (segments k ps) apart
  segments-Reordered k (behind p r) = keep_all (segs k p) (segments-Reordered k r)
  segments-Reordered k (and_then_on r s) = both (segments-Reordered k r) (segments-Reordered k s)

  meaning-Reordered :
      (k : Bytes) {ps qs : List Parameter} → Reordered ps qs → meaning k ps ≡ meaning k qs
  meaning-Reordered k {ps} {qs} r =
      rw
        (
          last-Reordered codec_of (λ p q m n e e' c. c) k r,
          last-Reordered coded_of coded_unaware k r,
          last-Reordered plain_of plain_unaware k r,
        )
        (ap (λ o. later o (later (last coded_of k qs) (last plain_of k qs)))
          (joined-Exchanged (get_or ext.ascii (last codec_of k qs)) (segments-Reordered k r)))

  -- The order of the parameters does not matter where neighbours change places, any number of times,
  -- that have two names or are two segments of different numbers, at most one of which names a known
  -- charset: each name has one value in what is decoded from both lists.
  pub decode_parameter_list-Reordered :
      (k : Bytes) (ps qs : List Parameter) (out out' : List (Bytes × Bytes))
      → Reordered ps qs
      → decode_parameter_list ps ≡ some out
      → decode_parameter_list qs ≡ some out'
      → get k out ≡ get k out'
  decode_parameter_list-Reordered k ps qs out out' r e e' =
      get-decode_parameter_list k ps out e
      ∙ meaning-Reordered k r
      ∙ sym (get-decode_parameter_list k qs out' e')
