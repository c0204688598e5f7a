-- ===== src/Nom/Rules/StreamingLoops.antt =====
-- Loops and parsers of bytes of the streaming kind do not change their mind either.
use rustyknife.Nom.Interface.{Nom, many0, many1, fold_many0, fold_many1}
use rustyknife.Nom.Result.{
  Parser, IResult, ok, err, incomplete, error, failure, round, stream_strip, before, skip_while,
  take_while, non_empty,
}
use rustyknife.Nom.Rules.Streaming.{
  Keeps, KeepsInside, Keeps-KeepsInside, Keeps-and_then, Settled, SettledInside, Settled-recognize,
}
use rustyknife.Nom.Rules.Classes.{before-splits}
use rustyknife.Util.{recognize_many0, recognize_many1}
use rustyknife.Prelude.{
  ◌⊎◌, Option-cases, ℕ, zero, suc, ◌≡◌, ◌≤◌, ◌<◌, refl, ap, ◌∙◌, Bool, true, ltb, List, [], ◌∷◌,
  ◌++◌, some, Bytes, length, drop, length-append, arith, Bool-cases, inl, inr, if◌then◌else◌, ◌==◌,
}

Keeps-stream_strip : (t i more : Bytes) → Keeps more (stream_strip t i) (stream_strip t (i ++ more))
Keeps-stream_strip [] i more = refl
Keeps-stream_strip (a ∷ t) [] more = tt
Keeps-stream_strip (a ∷ t) (c ∷ i) more = elim (Bool-cases (a == c)) [
  | inl y ↦ rw (y, if◌then◌else◌) (Keeps-stream_strip t i more)
  | inr n ↦ rw (n, if◌then◌else◌) refl
]

-- The place of a line end of two bytes, say, does not change.
before-more :
    (a b : ℕ) (i more x : Bytes)
    → before (a ∷ b ∷ []) i ≡ some x
    → before (a ∷ b ∷ []) (i ++ more) ≡ some x
before-more a b [] more x h = absurd (cc h)
before-more a b (c ∷ []) more x h = absurd (ground (arith, h))
before-more a b (c ∷ d ∷ i) more x h = elim (Option-cases (before (a ∷ b ∷ []) (d ∷ i))) [
  | inl e ↦ ground (arith, h, e)
  | inr (y, e) ↦ ground (arith, h, e, before-more a b (d ∷ i) more y e)
]

drop-inside : (n : ℕ) (i more : Bytes) → n ≤ length i → drop n (i ++ more) ≡ drop n i ++ more
drop-inside zero i more h = refl
drop-inside (suc n) [] more h = absurd (omega (arith, h))
drop-inside (suc n) (c ∷ i) more h = drop-inside n i more (omega (arith, h))

-- A run that ends inside the input is the same with more behind it.
pub run-more :
    (f : ℕ → Bool) (i more : Bytes) (c : ℕ) (s : Bytes)
    → skip_while f i ≡ c ∷ s
    → (skip_while f (i ++ more) ≡ c ∷ (s ++ more)) × (take_while f (i ++ more) ≡ take_while f i)
run-more f [] more c s h = absurd (cc h)
run-more f (x ∷ i) more c s h = elim (Bool-cases (f x)) [
  | inl y ↦
      let (e, e') = run-more f i more c s (rw (y, if◌then◌else◌) at h) in
      (rw (y, if◌then◌else◌) e, rw (y, if◌then◌else◌) (ap (λ t. x ∷ t) e'))
  | inr n ↦
      let e = rw (n, if◌then◌else◌) at h in
      (rw (n, if◌then◌else◌) (ap (λ t. t ++ more) e), rw (n, if◌then◌else◌) refl)
]

Keeps-non_empty : (more s t : Bytes) → Keeps more (non_empty s t) (non_empty (s ++ more) t)
Keeps-non_empty more s [] = refl
Keeps-non_empty more s (c ∷ t) = refl

-- A round of the loop, where the parser asks for more at the end.
module _ {A : Type 0} (i more : Bytes) (rest rest' : Bytes → IResult (List A)) where
  Keeps-round :
      (x x' : IResult A)
      → rest [] ≡ err incomplete
      → (x ≡ err incomplete) ⊎ (0 < length i)
      → KeepsInside more x x'
      → ((s : Bytes) → length s < length i → Keeps more (rest s) (rest' (s ++ more)))
      → Keeps more (round i x rest) (round (i ++ more) x' rest')
  Keeps-round (ok [] a) x' e (inl w) h later = absurd (cc w)
  Keeps-round (ok [] a) x' e (inr l) h later =
      let shorter : ltb 0 (length i) ≡ true = ground (arith, l) in rw (round, shorter, e) tt
  Keeps-round (ok (c ∷ s) a) x' e w h later =
      let longer : ltb (length ((c ∷ s) ++ more)) (length (i ++ more))
          ≡ ltb (length (c ∷ s)) (length i) =
        ground (arith, length-append (c ∷ s) more, length-append i more) in
      elim (Bool-cases (ltb (length (c ∷ s)) (length i))) [
        | inl y ↦
            rw (h, round, longer, y)
              (Keeps-and_then more _ _ _ _ (later (c ∷ s) (ground (arith, y))) (λ u bs. refl))
        | inr n ↦ rw (h, round, longer, n) refl
      ]
  Keeps-round (err error) x' e w h later = rw h refl
  Keeps-round (err incomplete) x' e w h later = tt
  Keeps-round (err failure) x' e w h later = tt

module _ ⦃nom : Nom⦄ {A : Type 0} (p : Parser A) (ends : p [] ≡ err incomplete)
    (sp : SettledInside p) where
  -- A parser that asks for more at the end of the input may be looped.
  pub Settled-many0 : Settled (many0 p)
  Settled-many0 i more = go (suc (length i)) i (omega arith)
    where
      at_end : many0 p [] ≡ err incomplete
      at_end = rw (nom.many0_law, ends) refl

      starts : (i : Bytes) → (p i ≡ err incomplete) ⊎ (0 < length i)
      starts [] = inl ends
      starts (c ∷ i) = inr (omega arith)

      go : (n : ℕ) (i : Bytes) → length i < n → Keeps more (many0 p i) (many0 p (i ++ more))
      go zero i h = absurd (omega (arith, h))
      go (suc n) i h =
          rw (nom.many0_law p i, nom.many0_law p (i ++ more))
            (Keeps-round i more (many0 p) (many0 p) (p i) (p (i ++ more)) at_end (starts i)
              (sp i more) (λ s shorter. go n s (omega (arith, h, shorter))))

  pub Settled-fold_many0 : {B : Type 0} (b : B) (f : B → A → B) → Settled (fold_many0 p b f)
  Settled-fold_many0 b f i more =
      rw (nom.fold_many0_law p b f i, nom.fold_many0_law p b f (i ++ more))
        (Keeps-and_then more _ _ _ _ (Settled-many0 i more) (λ r bs. refl))

module _ ⦃nom : Nom⦄ {A : Type 0} (p : Parser A) (ends : p [] ≡ err incomplete)
    (sp : Settled p) where
  inside : SettledInside p
  inside i more = Keeps-KeepsInside more (p i) (p (i ++ more)) (sp i more)

  pub Settled-many1 : Settled (many1 p)
  Settled-many1 i more =
      rw (nom.many1_law p i, nom.many1_law p (i ++ more))
        (Keeps-and_then more _ _ _ _ (sp i more)
          (λ r a. Keeps-and_then more _ _ _ _ (Settled-many0 p ends inside r more) (λ s bs. refl)))

  pub Settled-recognize_many0 : Settled (recognize_many0 p)
  unfolding recognize_many0
  Settled-recognize_many0 =
      Settled-recognize _ (Settled-fold_many0 p ends inside {B = Unit {0}} tt (λ _ _. tt))

  pub Settled-recognize_many1 : Settled (recognize_many1 p)
  unfolding recognize_many1
  Settled-recognize_many1 = Settled-recognize _ fold
    where
      fold : Settled (fold_many1 {B = Unit {0}} p tt (λ _ _. tt))
      fold i more =
          rw (nom.fold_many1_law, nom.fold_many1_law)
            (Keeps-and_then more _ _ _ _ (Settled-many1 i more) (λ r bs. refl))

  pub Settled-looped : Settled (many0 p)
  Settled-looped = Settled-many0 p ends inside

module _ ⦃nom : Nom⦄ where
  pub Settled-streaming_tag : (t : Bytes) → Settled (nom.streaming_tag t)
  Settled-streaming_tag t i more =
      rw (nom.streaming_tag_law t i, nom.streaming_tag_law t (i ++ more))
        (Keeps-and_then more _ _ _ _ (Keeps-stream_strip t i more) (λ r u. refl))

  pub Settled-streaming_take_until : (a b : ℕ) → Settled (nom.streaming_take_until (a ∷ b ∷ []))
  Settled-streaming_take_until a b i more = elim (Option-cases (before (a ∷ b ∷ []) i)) [
    | inl e ↦ rw (nom.streaming_take_until_law (a ∷ b ∷ []) i, e) tt
    | inr (x, e) ↦
        rw (nom.streaming_take_until_law (a ∷ b ∷ []) i, e)
          (nom.streaming_take_until_law (a ∷ b ∷ []) (i ++ more)
            ∙ rw (before-more a b i more x e) (ap (λ r. ok r x) (drop_inside x e)))
  ]
    where
      drop_inside :
          (x : Bytes)
          → before (a ∷ b ∷ []) i ≡ some x
          → drop (length x) (i ++ more) ≡ drop (length x) i ++ more
      drop_inside x e =
          let split =
            ap length (before-splits (a ∷ b ∷ []) i x e) ∙ length-append x (drop (length x) i) in
          drop-inside (length x) i more (omega (arith, split))

  pub Settled-streaming_take_while1 : (f : ℕ → Bool) → Settled (nom.streaming_take_while1 f)
  Settled-streaming_take_while1 f i more = go (skip_while f i) refl
    where
      go :
          (s : Bytes)
          → skip_while f i ≡ s
          → Keeps more (nom.streaming_take_while1 f i) (nom.streaming_take_while1 f (i ++ more))
      go [] e = rw (nom.streaming_take_while1_law f i, e) tt
      go (c ∷ s) e =
          let (e', t) = run-more f i more c s e in
          rw
            (
              nom.streaming_take_while1_law f i,
              e,
              nom.streaming_take_while1_law f (i ++ more),
              e',
              t,
            )
            (Keeps-non_empty more (c ∷ s) (take_while f i))
