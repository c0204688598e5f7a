-- ===== src/Nom/Rules/Runs.antt =====
-- The loops over one byte of a class read the longest run of such bytes.
use rustyknife.Nom.Rules.Rounds.{many0_ok}
use rustyknife.Nom.Interface.{Nom, consumed, many0, take_while_m_n, take_while1}
use rustyknife.Nom.Result.{ok, take_while, skip_while, non_empty, Many, stop, more}
use rustyknife.Nom.Rules.Classes.{take1_filter-cons, take1_filter-nil}
use rustyknife.Nom.Rules.Inversion.{
  take_while-append-skip_while, Stops, take_while-append, skip_while-append,
}
use rustyknife.Nom.Rules.Grammars.{consumed-append}
use rustyknife.Prelude.{
  ℕ, ◌≤◌, length, take-all, drop-append, refl, not_ltb, ◌≡◌, ◌≢◌, ap, sym, ◌∙◌, Bool, [], ◌∷◌, ◌++◌,
  Bytes, Every, arith, if◌then◌else◌, Bool-cases, inl, inr,
}
use rustyknife.Util.{take1_filter, recognize_many0, recognize_many1}

module _ ⦃nom : Nom⦄ (f : ℕ → Bool) where
  pub Many-filter : (i : Bytes) → Many (take1_filter f) i (take_while f i) (skip_while f i)
  Many-filter [] = stop (take1_filter-nil f)
  Many-filter (c ∷ cs) = elim (Bool-cases (f c)) [
    | inl y ↦
        rw (y, if◌then◌else◌) (more (rw (take1_filter-cons, y)) (omega arith) (Many-filter cs))
    | inr n ↦ rw (n, if◌then◌else◌) (stop (rw (take1_filter-cons, n)))
  ]

  pub many0-filter : (i : Bytes) → many0 (take1_filter f) i ≡ ok (skip_while f i) (take_while f i)
  many0-filter i = many0_ok (take1_filter f) i (Many-filter i)

  consumed-skip_while : (i : Bytes) → consumed i (skip_while f i) ≡ take_while f i
  consumed-skip_while i =
      ap (λ x. consumed x (skip_while f i)) (sym (take_while-append-skip_while f i))
      ∙ consumed-append (take_while f i) (skip_while f i)

  pub recognize_many0-filter :
      (i : Bytes) → recognize_many0 (take1_filter f) i ≡ ok (skip_while f i) (take_while f i)
  unfolding recognize_many0
  recognize_many0-filter i =
      rw (nom.recognize_law, nom.fold_many0_law, many0-filter)
        (ap (ok (skip_while f i)) (consumed-skip_while i))

  pub recognize_many1-filter :
      (i : Bytes) → recognize_many1 (take1_filter f) i ≡ non_empty (skip_while f i) (take_while f i)
  unfolding recognize_many1
  recognize_many1-filter [] =
      rw (nom.recognize_law, nom.fold_many1_law, nom.many1_law, take1_filter-nil)
  recognize_many1-filter (c ∷ cs) = elim (Bool-cases (f c)) [
    | inl y ↦
        rw
          (nom.recognize_law, nom.fold_many1_law, nom.many1_law, take1_filter-cons, y, many0-filter)
          (ap (ok (skip_while f cs)) (rw y at (consumed-skip_while (c ∷ cs))))
    | inr n ↦ rw (nom.recognize_law, nom.fold_many1_law, nom.many1_law, take1_filter-cons, n)
  ]

  -- A run that is followed by a byte of another class, or by nothing.
  pub recognize_many0-run :
      (s r : Bytes) → Every f s → Stops f r → recognize_many0 (take1_filter f) (s ++ r) ≡ ok r s
  recognize_many0-run s r h st =
      recognize_many0-filter (s ++ r)
      ∙ rw (take_while-append f s r h st, skip_while-append f s r h st)

  pub recognize_many1-run :
      (c : ℕ) (s r : Bytes)
      → Every f (c ∷ s)
      → Stops f r
      → recognize_many1 (take1_filter f) (c ∷ (s ++ r)) ≡ ok r (c ∷ s)
  recognize_many1-run c s r h st =
      recognize_many1-filter (c ∷ (s ++ r))
      ∙ rw (take_while-append f (c ∷ s) r h st, skip_while-append f (c ∷ s) r h st)

  -- A run of bytes of the class, within the bounds of `take_while_m_n`.
  pub take_while1-run :
      (s r : Bytes) → s ≢ [] → Every f s → Stops f r → take_while1 f (s ++ r) ≡ ok r s
  take_while1-run [] r ne h st = absurd (ne refl)
  take_while1-run (c ∷ s) r ne h st =
      rw
        (
          nom.take_while1_law,
          skip_while-append f (c ∷ s) r h st,
          take_while-append f (c ∷ s) r h st,
        )
        refl

  pub take_while_m_n-run :
      (m n : ℕ) (s r : Bytes)
      → Every f s
      → Stops f r
      → m ≤ length s
      → length s ≤ n
      → take_while_m_n m n f (s ++ r) ≡ ok r s
  take_while_m_n-run m n s r h st low high =
      rw
        (
          nom.take_while_m_n_law,
          take_while-append f s r h st,
          take-all n s high,
          not_ltb (length s) m low,
          drop-append,
        )
        refl
