-- ===== src/Nom/Rules/Inversion.antt =====
-- Inversion of the results of chained parsers.
use rustyknife.Nom.Result.{
  IResult, Err, ok, err, error, and_then, or_else, strip, no_case, take_while, skip_while,
  stream_strip,
}
use rustyknife.Prelude.{
  ℕ, ◌≡◌, refl, ap, ◌⊎◌, inl, inr, Bool, false, [], ◌∷◌, ◌++◌, Bytes, some, ◌==◌, arith, ==_iff,
  Bool-cases, lowercase, Every, if◌then◌else◌,
}

module _ {A B : Type 0} where
  pub and_then-ok :
      (x : IResult A) (f : Bytes → A → IResult B) {r : Bytes} {b : B}
      → and_then x f ≡ ok r b
      → (s : Bytes) × (a : A) × (x ≡ ok s a) × (f s a ≡ ok r b)
  and_then-ok (ok s a) f h = (s, a, refl, h)
  and_then-ok (err e) f h = absurd (cc h)

module _ {A : Type 0} where
  pub IResult-cases :
      (x : IResult A) → ((r : Bytes) × (a : A) × (x ≡ ok r a)) ⊎ ((e : Err) × (x ≡ err e))
  IResult-cases (ok r a) = inl (r, a, refl)
  IResult-cases (err e) = inr (e, refl)

  pub or_else-ok :
      (x q : IResult A) {r : Bytes} {a : A}
      → or_else x q ≡ ok r a
      → (x ≡ ok r a) ⊎ ((x ≡ err error) × (q ≡ ok r a))
  or_else-ok (ok s b) q h = inl h
  or_else-ok (err error) q h = inr (refl, h)
  or_else-ok (err _) q h = absurd (cc h)

  pub ok-value : {r s : Bytes} {a b : A} → ok r a ≡ ok s b → a ≡ b
  ok-value h = cc

  pub ok-rest : {r s : Bytes} {a b : A} → ok r a ≡ ok s b → r ≡ s
  ok-rest {a} {b} h = cc

pub strip-some : (t i r : Bytes) → strip ◌==◌ t i ≡ some r → i ≡ t ++ r
strip-some [] i r h = cc
strip-some (t ∷ ts) [] r h = absurd (cc h)
strip-some (t ∷ ts) (c ∷ cs) r h = ground (arith, strip-some ts cs r)

pub strip-no_case :
    (t i r : Bytes)
    → strip no_case t i ≡ some r
    → (c : Bytes) × (i ≡ c ++ r) × (lowercase c ≡ lowercase t)
strip-no_case [] i r h = ([], cc, refl)
strip-no_case (t ∷ ts) [] r h = absurd (cc h)
strip-no_case (t ∷ ts) (c ∷ cs) r h = elim (Bool-cases (no_case t c)) [
  | inl same ↦
      let (d, split, lower) = strip-no_case ts cs r (rw (same, if◌then◌else◌) at h) in
      (c ∷ d, ap (◌∷◌ c) split, cc (lower, (==_iff _ _).0 same))
  | inr other ↦ absurd (cc (rw (other, if◌then◌else◌) at h))
]

pub strip-append : (t r : Bytes) → strip ◌==◌ t (t ++ r) ≡ some r
strip-append [] r = refl
strip-append (t ∷ ts) r = ground (arith, strip-append ts r)

pub strip-no_case-append :
    (t c r : Bytes) → lowercase c ≡ lowercase t → strip no_case t (c ++ r) ≡ some r
strip-no_case-append [] [] r h = refl
strip-no_case-append [] (c ∷ cs) r h = absurd (cc h)
strip-no_case-append (t ∷ ts) [] r h = absurd (cc h)
strip-no_case-append (t ∷ ts) (c ∷ cs) r h = ground (arith, h, strip-no_case-append ts cs r)

pub stream_strip-ok : (t i r : Bytes) {u : Unit {0}} → stream_strip t i ≡ ok r u → i ≡ t ++ r
stream_strip-ok [] i r h = cc
stream_strip-ok (t ∷ ts) [] r h = absurd (cc h)
stream_strip-ok (t ∷ ts) (c ∷ cs) r {u} h = ground (arith, stream_strip-ok ts cs r {u = u})

pub take_while-append-skip_while : (f : ℕ → Bool) (i : Bytes) → take_while f i ++ skip_while f i ≡ i
take_while-append-skip_while f [] = refl
take_while-append-skip_while f (c ∷ cs) = ground (arith, take_while-append-skip_while f cs)

pub take_while-Every : (f : ℕ → Bool) (i : Bytes) → Every f (take_while f i)
take_while-Every f [] = tt
take_while-Every f (c ∷ cs) = elim (Bool-cases (f c)) [
  | inl h ↦ rw (h, if◌then◌else◌) (h, take_while-Every f cs)
  | inr h ↦ rw (h, if◌then◌else◌) tt
]

-- The next byte, if there is one, fails the test.
abbrev pub Stops : (ℕ → Bool) → Bytes → Type 0
Stops f [] = Unit {0}
Stops f (c ∷ cs) = f c ≡ false

pub skip_while-Stops : (f : ℕ → Bool) (i : Bytes) → Stops f (skip_while f i)
skip_while-Stops f [] = tt
skip_while-Stops f (c ∷ cs) = elim (Bool-cases (f c)) [
  | inl h ↦ rw (h, if◌then◌else◌) (skip_while-Stops f cs)
  | inr h ↦ rw (h, if◌then◌else◌) h
]

module _ (f : ℕ → Bool) where
  pub take_while-append : (s r : Bytes) → Every f s → Stops f r → take_while f (s ++ r) ≡ s
  take_while-append [] [] h st = refl
  take_while-append [] (c ∷ cs) h st = rw st
  take_while-append (c ∷ cs) r h st = rw h.0 (ap (◌∷◌ c) (take_while-append cs r h.1 st))

  pub skip_while-append : (s r : Bytes) → Every f s → Stops f r → skip_while f (s ++ r) ≡ r
  skip_while-append [] [] h st = refl
  skip_while-append [] (c ∷ cs) h st = rw st
  skip_while-append (c ∷ cs) r h st = rw h.0 (skip_while-append cs r h.1 st)
