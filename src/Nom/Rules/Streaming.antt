-- ===== src/Nom/Rules/Streaming.antt =====
-- Parsers of the streaming kind do not change their mind when more input arrives.
use rustyknife.Nom.Interface.{
  Nom, consumed, map, map_opt, alt, opt, pair, terminated, separated_pair, recognize,
}
use rustyknife.Nom.Result.{
  Parser, IResult, ok, err, incomplete, error, failure, and_then, or_else, from_option,
}
use rustyknife.Prelude.{
  ℕ, zero, suc, ◌-◌, ◌≡◌, ◌≤◌, refl, ap, [], ◌∷◌, ◌++◌, Option, none, some, Bytes, length, take,
  length-append, arith,
}

-- The second result is the first one with more input behind it. Nothing is asked where the first one
-- wants more input.
abbrev pub Keeps : {A : Type 0} → Bytes → IResult A → IResult A → Type 0
Keeps more (ok r a) y = y ≡ ok (r ++ more) a
Keeps more (err error) y = y ≡ err error
Keeps more (err incomplete) y = Unit {0}
Keeps more (err failure) y = Unit {0}

-- The same, but nothing is asked either where all input was read.
abbrev pub KeepsInside : {A : Type 0} → Bytes → IResult A → IResult A → Type 0
KeepsInside more (ok [] a) y = Unit {0}
KeepsInside more (ok (c ∷ r) a) y = y ≡ ok ((c ∷ r) ++ more) a
KeepsInside more (err error) y = y ≡ err error
KeepsInside more (err incomplete) y = Unit {0}
KeepsInside more (err failure) y = Unit {0}

abbrev pub Settled : {A : Type 0} → Parser A → Type 0
Settled p = (i more : Bytes) → Keeps more (p i) (p (i ++ more))

abbrev pub SettledInside : {A : Type 0} → Parser A → Type 0
SettledInside p = (i more : Bytes) → KeepsInside more (p i) (p (i ++ more))

take-inside : (n : ℕ) (i more : Bytes) → n ≤ length i → take n (i ++ more) ≡ take n i
take-inside zero i more h = refl
take-inside (suc n) [] more h = absurd (omega (arith, h))
take-inside (suc n) (c ∷ i) more h = ap (λ x. c ∷ x) (take-inside n i more (omega (arith, h)))

pub consumed-more : (i r more : Bytes) → consumed (i ++ more) (r ++ more) ≡ consumed i r
consumed-more i r more =
    let same : length (i ++ more) - length (r ++ more) ≡ length i - length r =
      omega (arith, length-append i more, length-append r more) in
    rw same (take-inside (length i - length r) i more (omega arith))

module _ {A : Type 0} (more : Bytes) where
  pub Keeps-KeepsInside : (x y : IResult A) → Keeps more x y → KeepsInside more x y
  Keeps-KeepsInside (ok [] a) y h = tt
  Keeps-KeepsInside (ok (c ∷ r) a) y h = h
  Keeps-KeepsInside (err error) y h = h
  Keeps-KeepsInside (err incomplete) y h = h
  Keeps-KeepsInside (err failure) y h = h

  Keeps-or_else :
      (x x' q q' : IResult A)
      → Keeps more x x'
      → Keeps more q q'
      → Keeps more (or_else x q) (or_else x' q')
  Keeps-or_else (ok r a) x' q q' h k = rw h refl
  Keeps-or_else (err error) x' q q' h k = rw h k
  Keeps-or_else (err incomplete) x' q q' h k = tt
  Keeps-or_else (err failure) x' q q' h k = tt

  Keeps-from_option :
      (r : Bytes) (o : Option A) → Keeps more (from_option r o) (from_option (r ++ more) o)
  Keeps-from_option r none = refl
  Keeps-from_option r (some a) = refl

module _ {A B : Type 0} (more : Bytes) where
  pub Keeps-and_then :
      (x x' : IResult A) (f f' : Bytes → A → IResult B)
      → Keeps more x x'
      → ((r : Bytes) (a : A) → Keeps more (f r a) (f' (r ++ more) a))
      → Keeps more (and_then x f) (and_then x' f')
  Keeps-and_then (ok r a) x' f f' h k = rw h (k r a)
  Keeps-and_then (err error) x' f f' h k = rw h refl
  Keeps-and_then (err incomplete) x' f f' h k = tt
  Keeps-and_then (err failure) x' f f' h k = tt

  KeepsInside-and_then :
      (x x' : IResult A) (f f' : Bytes → A → IResult B)
      → Keeps more x x'
      → ((r : Bytes) (a : A) → KeepsInside more (f r a) (f' (r ++ more) a))
      → KeepsInside more (and_then x f) (and_then x' f')
  KeepsInside-and_then (ok r a) x' f f' h k = rw h (k r a)
  KeepsInside-and_then (err error) x' f f' h k = rw h refl
  KeepsInside-and_then (err incomplete) x' f f' h k = tt
  KeepsInside-and_then (err failure) x' f f' h k = tt

  KeepsInside-ok :
      (x x' : IResult A) (f : A → B)
      → KeepsInside more x x'
      → KeepsInside more (and_then x (λ r a. ok r (f a))) (and_then x' (λ r a. ok r (f a)))
  KeepsInside-ok (ok [] a) x' f h = tt
  KeepsInside-ok (ok (c ∷ r) a) x' f h = rw h refl
  KeepsInside-ok (err error) x' f h = rw h refl
  KeepsInside-ok (err incomplete) x' f h = tt
  KeepsInside-ok (err failure) x' f h = tt

module _ ⦃nom : Nom⦄ {A B : Type 0} (p : Parser A) (sp : Settled p) where
  pub Settled-map : (f : A → B) → Settled (map p f)
  Settled-map f i more =
      rw (nom.map_law p f i, nom.map_law p f (i ++ more))
        (Keeps-and_then more _ _ _ _ (sp i more) (λ r a. refl))

  pub Settled-map_opt : (f : A → Option B) → Settled (map_opt p f)
  Settled-map_opt f i more =
      rw (nom.map_opt_law p f i, nom.map_opt_law p f (i ++ more))
        (Keeps-and_then more _ _ _ _ (sp i more) (λ r a. Keeps-from_option more r (f a)))

module _ ⦃nom : Nom⦄ {A : Type 0} (p : Parser A) (sp : Settled p) where
  pub Settled-opt : Settled (opt p)
  Settled-opt i more =
      rw (nom.opt_law p i, nom.opt_law p (i ++ more))
        (Keeps-or_else more _ _ _ _ (Keeps-and_then more _ _ _ _ (sp i more) (λ r a. refl)) refl)

  pub Settled-recognize : Settled (recognize p)
  Settled-recognize i more =
      rw (nom.recognize_law p i, nom.recognize_law p (i ++ more))
        (Keeps-and_then more _ _ _ _ (sp i more)
          (λ r a. ap (ok (r ++ more)) (consumed-more i r more)))

  pub Settled-alt : (q : Parser A) → Settled q → Settled (alt p q)
  Settled-alt q sq i more =
      rw (nom.alt_law p q i, nom.alt_law p q (i ++ more))
        (Keeps-or_else more _ _ _ _ (sp i more) (sq i more))

module _ ⦃nom : Nom⦄ {A B : Type 0} (p : Parser A) (sp : Settled p) (q : Parser B) where
  pub Settled-pair : Settled q → Settled (pair p q)
  Settled-pair sq i more =
      rw (nom.pair_law p q i, nom.pair_law p q (i ++ more))
        (Keeps-and_then more _ _ _ _ (sp i more)
          (λ r a. Keeps-and_then more _ _ _ _ (sq r more) (λ s b. refl)))

  pub SettledInside-pair : SettledInside q → SettledInside (pair p q)
  SettledInside-pair sq i more =
      rw (nom.pair_law p q i, nom.pair_law p q (i ++ more))
        (KeepsInside-and_then more _ _ _ _ (sp i more)
          (λ r a. KeepsInside-ok more _ _ (λ b. (a, b)) (sq r more)))

  pub Settled-terminated : Settled q → Settled (terminated p q)
  Settled-terminated sq i more =
      rw (nom.terminated_law p q i, nom.terminated_law p q (i ++ more))
        (Keeps-and_then more _ _ _ _ (sp i more)
          (λ r a. Keeps-and_then more _ _ _ _ (sq r more) (λ s b. refl)))

  pub Settled-separated_pair :
      {C : Type 0} (t : Parser C) → Settled q → Settled t → Settled (separated_pair p q t)
  Settled-separated_pair t sq st i more =
      rw (nom.separated_pair_law p q t i, nom.separated_pair_law p q t (i ++ more))
        (Keeps-and_then more _ _ _ _ (sp i more) (λ r a.
          Keeps-and_then more _ _ _ _ (sq r more)
            (λ s b. Keeps-and_then more _ _ _ _ (st s more) (λ u c. refl))))
