-- ===== src/Nom/Rules/Values.antt =====
-- What holds of every value that a parser returns, whatever it reads.
use rustyknife.Nom.Rules.Rounds.{many0-Many}
use rustyknife.Nom.Interface.{
  Nom, map, map_res, pair, many_m_n, alt, preceded, terminated, delimited, separated_pair, many0,
}
use rustyknife.Nom.Result.{Parser, ok, and_then, from_option, Many, stop, more}
use rustyknife.Nom.Rules.Grammars.{Grammar, Sound}
use rustyknife.Nom.Rules.Inversion.{and_then-ok, or_else-ok}
use rustyknife.Prelude.{
  ◌≡◌, List, [], ◌∷◌, Bytes, inl, inr, subst, ℕ, zero, suc, Option, some, Option-cases, Bool-cases,
  ltb, length, if◌then◌else◌,
}

abbrev pub Yields : {A : Type 0} → Parser A → (A → Type 0) → Type 0
Yields {A} p P = (i r : Bytes) (a : A) → p i ≡ ok r a → P a

abbrev pub AllOf : {A : Type 0} → (A → Type 0) → List A → Type 0
AllOf P [] = Unit {0}
AllOf P (a ∷ as') = P a × AllOf P as'

ok-value : {A : Type 0} (P : A → Type 0) {r s : Bytes} {a b : A} → ok r a ≡ ok s b → P a → P b
ok-value P {a} {b} e x = let same : a ≡ b = cc e in subst P same x

module _ ⦃nom : Nom⦄ {A B : Type 0} (p : Parser A) where
  pub Yields-map :
      {P : A → Type 0} (Q : B → Type 0)
      → Yields p P
      → (f : A → B) → ((a : A) → P a → Q (f a))
      → Yields (map p f) Q
  Yields-map Q y f g i r b e =
      let (s, a, pe, h) = and_then-ok (p i) (λ r a. ok r (f a)) (rw nom.map_law at e) in
      ok-value Q h (g a (y i s a pe))

  pub Yields-map_res :
      (Q : B → Type 0) (f : A → Option B)
      → ((a : A) (b : B) → f a ≡ some b → Q b)
      → Yields (map_res p f) Q
  Yields-map_res Q f g i r b e =
      let (s, a, pe, h) =
        and_then-ok (p i) (λ r a. from_option r (f a)) (rw nom.map_res_law at e) in
      elim (Option-cases (f a)) [
        | inl n ↦ absurd (cc (rw n at h))
        | inr (v, y) ↦ ok-value Q (rw y at h) (g a v y)
      ]

  pub Yields-pair :
      (q : Parser B) {P : A → Type 0} {Q : B → Type 0}
      → Yields p P
      → Yields q Q
      → Yields (pair p q) (λ ab. P ab.0 × Q ab.1)
  Yields-pair q {P} {Q} y z i r ab e =
      let (s, a, pe, h) = and_then-ok (p i) _ (rw nom.pair_law at e) in
      let (u, b, qe, h') = and_then-ok (q s) (λ s b. ok s (a, b)) h in
      ok-value (λ ab. P ab.0 × Q ab.1) h' (y i s a pe, z s u b qe)

  pub Yields-preceded : (q : Parser B) {Q : B → Type 0} → Yields q Q → Yields (preceded p q) Q
  Yields-preceded q y i r b e =
      let (s, a, pe, h) = and_then-ok (p i) (λ r _. q r) (rw nom.preceded_law at e) in y s r b h

  pub Yields-terminated : (q : Parser B) {P : A → Type 0} → Yields p P → Yields (terminated p q) P
  Yields-terminated q {P} y i r a e =
      let (s, x, pe, h) = and_then-ok (p i) _ (rw nom.terminated_law at e) in
      let (u, z, qe, h') = and_then-ok (q s) (λ s _. ok s x) h in ok-value P h' (y i s x pe)

  pub Yields-delimited :
      {C : Type 0} (q : Parser B) (t : Parser C) {Q : B → Type 0}
      → Yields q Q
      → Yields (delimited p q t) Q
  Yields-delimited q t {Q} y i r b e =
      let (s, a, pe, h) = and_then-ok (p i) _ (rw nom.delimited_law at e) in
      let (u, x, qe, h') = and_then-ok (q s) (λ s b. and_then (t s) (λ u _. ok u b)) h in
      let (v, d, te, h'') = and_then-ok (t u) (λ u _. ok u x) h' in ok-value Q h'' (y s u x qe)

  pub Yields-separated_pair :
      {C : Type 0} (t : Parser C) (q : Parser B) {P : A → Type 0} {Q : B → Type 0}
      → Yields p P
      → Yields q Q
      → Yields (separated_pair p t q) (λ ab. P ab.0 × Q ab.1)
  Yields-separated_pair t q {P} {Q} y z i r ab e =
      let (s, a, pe, h) = and_then-ok (p i) _ (rw nom.separated_pair_law at e) in
      let (u, c, te, h') = and_then-ok (t s) (λ s _. and_then (q s) (λ u b. ok u (a, b))) h in
      let (v, b, qe, h'') = and_then-ok (q u) (λ u b. ok u (a, b)) h' in
      ok-value (λ ab. P ab.0 × Q ab.1) h'' (y i s a pe, z u v b qe)

module _ ⦃nom : Nom⦄ {A : Type 0} {P : A → Type 0} (p : Parser A) where
  pub Yields-alt : (q : Parser A) → Yields p P → Yields q P → Yields (alt p q) P
  Yields-alt q y z i r a e = elim (or_else-ok (p i) (q i) (rw nom.alt_law at e)) [
    | inl h ↦ y i r a h
    | inr h ↦ z i r a h.1
  ]

  Many-AllOf : Yields p P → {i r : Bytes} {as' : List A} → Many p i as' r → AllOf P as'
  Many-AllOf y (stop e) = tt
  Many-AllOf y (more {i} {r = s} {a} e lt m) = (y i s a e, Many-AllOf y m)

  pub Yields-many0 : Yields p P → Yields (many0 p) (AllOf P)
  Yields-many0 y i r as' e = Many-AllOf y (many0-Many p i e)

  -- A parser that is applied a fixed number of times.
  pub Yields-many_m_n : (n : ℕ) → Yields p P → Yields (many_m_n n n p) (AllOf P)
  Yields-many_m_n zero y i r as' e = ok-value (AllOf P) (rw nom.many_m_n_zero at e) tt
  Yields-many_m_n (suc n) y i r as' e =
      let (s, a, pe, h) = and_then-ok (p i) _ (rw nom.many_m_n_suc at e) in
      elim (Bool-cases (ltb (length s) (length i))) [
        | inr lt ↦ absurd (cc (rw (lt, if◌then◌else◌) at h))
        | inl lt ↦
            let (u, bs, me, h') =
              and_then-ok (many_m_n n n p s) (λ s bs. ok s (a ∷ bs))
                (rw (lt, if◌then◌else◌) at h) in
            ok-value (AllOf P) h' (y i s a pe, Yields-many_m_n n y s u bs me)
      ]

  -- What a grammar says of the value alone.
  pub Yields-Sound : {G : Grammar A} → Sound p G → ((c : Bytes) (a : A) → G c a → P a) → Yields p P
  Yields-Sound sp f i r a e = let x = sp i r a e in f x.text a x.spells
