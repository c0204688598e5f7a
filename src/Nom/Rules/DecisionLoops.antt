-- ===== src/Nom/Rules/DecisionLoops.antt =====
-- Loops give an answer where their rounds do.
use rustyknife.Nom.Interface.{Nom, many0, many1, fold_many0, fold_many1}
use rustyknife.Nom.Result.{Parser, IResult, ok, round}
use rustyknife.Nom.Rules.Decisions.{
  Condition, Found, Answer, Finds, Answers, Answer-and_then, Found-and_then, Answers-recognize,
}
use rustyknife.Prelude.{
  ℕ, zero, suc, ◌≡◌, ◌<◌, refl, true, ltb, List, [], ◌∷◌, Bytes, length, arith, Bool-cases, inl,
  inr,
}
use rustyknife.Util.{recognize_many0, recognize_many1}

module _ {A : Type 0} {Hold : Condition} (i : Bytes) (rest : Bytes → IResult (List A))
    (h : Hold i) where
  Answer-round :
      (x : IResult A)
      → Answer Hold x
      → ((s : Bytes) → length s < length i → Hold s → Answer Hold (rest s))
      → Answer Hold (round i x rest)
  Answer-round x (inl e) later = rw e (inr (i, [], refl, h))
  Answer-round x (inr (r, a, e, k)) later = elim (Bool-cases (ltb (length r) (length i))) [
    | inl y ↦
        rw (e, round, y)
          (Answer-and_then (rest r) (λ s as'. ok s (a ∷ as')) (later r (ground (arith, y)) k)
            (λ s as' l. inr (s, a ∷ as', refl, l)))
    | inr n ↦ rw (e, round, n) (inl refl)
  ]

  Found-round :
      (x : IResult A)
      → Answer Hold x
      → ((r : Bytes) (a : A) → x ≡ ok r a → length r < length i)
      → ((s : Bytes) → length s < length i → Hold s → Found Hold (rest s))
      → Found Hold (round i x rest)
  Found-round x (inl e) takes later = rw e (i, [], refl, h)
  Found-round x (inr (r, a, e, k)) takes later =
      let shorter = takes r a e in
      let y : ltb (length r) (length i) ≡ true = ground (arith, shorter) in
      rw (e, round, y)
        (Found-and_then (rest r) (λ s as'. ok s (a ∷ as')) (later r shorter k)
          (λ s as' l. (s, a ∷ as', refl, l)))

module _ ⦃nom : Nom⦄ {A : Type 0} {Hold : Condition} (p : Parser A) (ap : Answers p Hold Hold) where
  pub Answers-many0 : Answers (many0 p) Hold Hold
  Answers-many0 i h = go (suc (length i)) i (omega arith) h
    where
      go : (n : ℕ) (i : Bytes) → length i < n → Hold i → Answer Hold (many0 p i)
      go zero i l h = absurd (omega (arith, l))
      go (suc n) i l h = rw (nom.many0_law p i) (
          Answer-round i (many0 p) h (p i) (ap i h)
            (λ s shorter. go n s (omega (arith, l, shorter))))

  -- Each round reads something, so that the loop finds its end.
  pub Finds-many0 :
      ((i r : Bytes) (a : A) → p i ≡ ok r a → length r < length i) → Finds (many0 p) Hold Hold
  Finds-many0 takes i h = go (suc (length i)) i (omega arith) h
    where
      go : (n : ℕ) (i : Bytes) → length i < n → Hold i → Found Hold (many0 p i)
      go zero i l h = absurd (omega (arith, l))
      go (suc n) i l h = rw (nom.many0_law p i) (
          Found-round i (many0 p) h (p i) (ap i h) (takes i)
            (λ s shorter. go n s (omega (arith, l, shorter))))

  pub Answers-recognize_many0 : Answers (recognize_many0 p) Hold Hold
  unfolding recognize_many0
  Answers-recognize_many0 = Answers-recognize _ fold
    where
      fold : Answers (fold_many0 {B = Unit {0}} p tt (λ _ _. tt)) Hold Hold
      fold i h =
          rw (nom.fold_many0_law)
            (Answer-and_then (many0 p i) _ (Answers-many0 i h) (λ r bs k. inr (r, _, refl, k)))

module _ ⦃nom : Nom⦄ {A : Type 0} {Pre Post : Condition} (p : Parser A)
    (stay : (i : Bytes) → Post i → Pre i) (ap : Answers p Pre Post) where
  onward : Answers p Post Post
  onward i h = ap i (stay i h)

  pub Answers-many1 : Answers (many1 p) Pre Post
  Answers-many1 i h = rw (nom.many1_law) (
      Answer-and_then (p i) _ (ap i h) (λ r a k.
        Answer-and_then (many0 p r) _ (Answers-many0 p onward r k)
          (λ s bs l. inr (s, a ∷ bs, refl, l))))

  pub Answers-recognize_many1 : Answers (recognize_many1 p) Pre Post
  unfolding recognize_many1
  Answers-recognize_many1 = Answers-recognize _ fold
    where
      fold : Answers (fold_many1 {B = Unit {0}} p tt (λ _ _. tt)) Pre Post
      fold i h =
          rw (nom.fold_many1_law)
            (Answer-and_then (many1 p i) _ (Answers-many1 i h) (λ r bs k. inr (r, _, refl, k)))
