-- ===== src/Nom/Rules/Rounds.antt =====
-- The rounds of `many0`.
use rustyknife.Nom.Interface.{Nom, many0}
use rustyknife.Nom.Result.{
  Parser, IResult, ok, err, error, incomplete, failure, round, round_cong, Many, stop, more,
}
use rustyknife.Nom.Rules.Inversion.{and_then-ok}
use rustyknife.Prelude.{
  ℕ, zero, suc, ◌≡◌, ◌≤◌, ◌<◌, refl, ap, sym, ◌∙◌, true, List, [], ◌∷◌, Bytes, length, ltb, arith,
  Bool-cases, inl, inr, subst,
}

module _ ⦃nom : Nom⦄ {A : Type 0} (p : Parser A) where
  -- The loop succeeds where its rounds do.
  pub many0_ok : (i : Bytes) {bs : List A} {r : Bytes} → Many p i bs r → many0 p i ≡ ok r bs
  many0_ok i (stop e) = nom.many0_law p i ∙ rw e refl
  many0_ok i (more {r} {last} {a} {as'} e lt m) =
      let progress : ltb (length r) (length i) ≡ true = ground (arith, lt) in
      nom.many0_law p i ∙ rw (e, progress, round, many0_ok r m) refl

  later-Many :
      (i : Bytes) (x : IResult A)
      → ((s : Bytes) (as' : List A) (r : Bytes)
          → length s < length i
          → many0 p s ≡ ok r as'
          → Many p s as' r)
      → (bs : List A) (r : Bytes) → p i ≡ x
      → round i x (many0 p) ≡ ok r bs
      → Many p i bs r
  later-Many i (ok s a) later bs r e h = elim (Bool-cases (ltb (length s) (length i))) [
    | inl lt ↦
        let (t, as', e', split) =
          and_then-ok (many0 p s) (λ t as'. ok t (a ∷ as')) (rw (lt, round) at h) in
        let same : a ∷ as' ≡ bs = cc split in
        let end : t ≡ r = cc split in
        subst (λ q. Many p i q r) same
          (more e (ground (arith, lt))
            (later s as' r (ground (arith, lt)) (e' ∙ ap (λ q. ok q as') end)))
    | inr no_progress ↦ absurd (cc (rw (no_progress, round) at h))
  ]
  later-Many i (err error) later bs r e h =
      subst (λ q. Many p i q r) (cc) (subst (λ q. Many p i [] q) (cc) (stop e))
  later-Many i (err incomplete) later bs r e h = absurd (cc h)
  later-Many i (err failure) later bs r e h = absurd (cc h)

  Many-within :
      (n : ℕ) (i : Bytes) (bs : List A) (r : Bytes)
      → length i < n
      → many0 p i ≡ ok r bs
      → Many p i bs r
  Many-within zero i bs r lt h = absurd (omega arith)
  Many-within (suc n) i bs r lt h =
      later-Many i (p i) (λ s as' q shorter e. Many-within n s as' q (omega arith) e) bs r refl
        (sym (nom.many0_law p i) ∙ h)

  -- And its rounds do where it does.
  pub many0-Many : (i : Bytes) {bs : List A} {r : Bytes} → many0 p i ≡ ok r bs → Many p i bs r
  many0-Many i {bs} {r} h = Many-within (suc (length i)) i bs r (omega arith) h

  -- Two parsers that agree on inputs that are no longer have the same loop there.
  pub many0_agree :
      (q : Parser A) (n : ℕ)
      → ((s : Bytes) → length s ≤ n → p s ≡ q s)
      → (i : Bytes) → length i ≤ n
      → many0 p i ≡ many0 q i
  many0_agree q n same i h = go (suc (length i)) i (omega arith) h
    where
      go : (k : ℕ) (i : Bytes) → length i < k → length i ≤ n → many0 p i ≡ many0 q i
      go zero i lt h = absurd (omega arith)
      go (suc k) i lt h =
          nom.many0_law p i
          ∙ ap (λ x. round i x (many0 p)) (same i h)
          ∙ round_cong i (q i) (many0 p) (many0 q) (λ s shorter. go k s (omega arith) (omega arith))
          ∙ sym (nom.many0_law q i)
