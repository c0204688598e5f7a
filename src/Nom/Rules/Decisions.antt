-- ===== src/Nom/Rules/Decisions.antt =====
-- Parsers that give an answer, and do not ask for more input, where a condition on the input holds.
use rustyknife.Nom.Interface.{
  Nom, consumed, map, map_opt, alt, opt, pair, terminated, separated_pair, recognize,
}
use rustyknife.Nom.Result.{Parser, IResult, ok, err, error, and_then, from_option}
use rustyknife.Prelude.{◌≡◌, ◌⊎◌, refl, ap, Option, none, some, Bytes, inl, inr}

abbrev pub Condition : Type 1
Condition = Bytes → Type 0

-- A value, with what is left as the second condition says.
abbrev pub Found : {A : Type 0} → Condition → IResult A → Type 0
Found {A} Post x = (r : Bytes) × (a : A) × (x ≡ ok r a) × Post r

abbrev pub Answer : {A : Type 0} → Condition → IResult A → Type 0
Answer Post x = (x ≡ err error) ⊎ Found Post x

abbrev pub Finds : {A : Type 0} → Parser A → Condition → Condition → Type 0
Finds p Pre Post = (i : Bytes) → Pre i → Found Post (p i)

abbrev pub Answers : {A : Type 0} → Parser A → Condition → Condition → Type 0
Answers p Pre Post = (i : Bytes) → Pre i → Answer Post (p i)

pub Finds-Answers :
    {A : Type 0} {Pre Post : Condition} (p : Parser A) → Finds p Pre Post → Answers p Pre Post
Finds-Answers p f i h = inr (f i h)

pub Answer-and_then :
    {A B : Type 0} {Mid Post : Condition} (x : IResult A) (f : Bytes → A → IResult B)
    → Answer Mid x
    → ((r : Bytes) (a : A) → Mid r → Answer Post (f r a))
    → Answer Post (and_then x f)
Answer-and_then x f (inl e) k = rw e (inl refl)
Answer-and_then x f (inr (r, a, e, h)) k = rw e (k r a h)

pub Found-and_then :
    {A B : Type 0} {Mid Post : Condition} (x : IResult A) (f : Bytes → A → IResult B)
    → Found Mid x
    → ((r : Bytes) (a : A) → Mid r → Found Post (f r a))
    → Found Post (and_then x f)
Found-and_then x f (r, a, e, h) k = rw e (k r a h)

module _ ⦃nom : Nom⦄ {A B : Type 0} {Pre Post : Condition} (p : Parser A)
    (ap : Answers p Pre Post) where
  pub Answers-map : (f : A → B) → Answers (map p f) Pre Post
  Answers-map f i h =
      rw (nom.map_law) (Answer-and_then (p i) _ (ap i h) (λ r a k. inr (r, f a, refl, k)))

  pub Answers-map_opt : (f : A → Option B) → Answers (map_opt p f) Pre Post
  Answers-map_opt f i h =
      rw (nom.map_opt_law) (Answer-and_then (p i) _ (ap i h) (λ r a k. given r (f a) k))
    where
      given : (r : Bytes) (o : Option B) → Post r → Answer Post (from_option r o)
      given r none k = inl refl
      given r (some b) k = inr (r, b, refl, k)

module _ ⦃nom : Nom⦄ {A B : Type 0} {Pre Mid Post : Condition} (p : Parser A) (q : Parser B) where
  pub Answers-pair : Answers p Pre Mid → Answers q Mid Post → Answers (pair p q) Pre Post
  Answers-pair ap aq i h = rw (nom.pair_law) (
      Answer-and_then (p i) _ (ap i h)
        (λ r a k. Answer-and_then (q r) _ (aq r k) (λ s b l. inr (s, (a, b), refl, l))))

  pub Finds-pair : Finds p Pre Mid → Finds q Mid Post → Finds (pair p q) Pre Post
  Finds-pair ap aq i h = rw (nom.pair_law) (
      Found-and_then (p i) _ (ap i h)
        (λ r a k. Found-and_then (q r) _ (aq r k) (λ s b l. (s, (a, b), refl, l))))

  pub Answers-terminated :
      Answers p Pre Mid → Answers q Mid Post → Answers (terminated p q) Pre Post
  Answers-terminated ap aq i h = rw (nom.terminated_law) (
      Answer-and_then (p i) _ (ap i h)
        (λ r a k. Answer-and_then (q r) _ (aq r k) (λ s b l. inr (s, a, refl, l))))

  pub Finds-terminated : Finds p Pre Mid → Finds q Mid Post → Finds (terminated p q) Pre Post
  Finds-terminated ap aq i h = rw (nom.terminated_law) (
      Found-and_then (p i) _ (ap i h)
        (λ r a k. Found-and_then (q r) _ (aq r k) (λ s b l. (s, a, refl, l))))

module _ ⦃nom : Nom⦄ {A B C : Type 0} {Pre Mid Next Post : Condition} (p : Parser A) (q : Parser B)
    (t : Parser C) where
  pub Answers-separated_pair :
      Answers p Pre Mid
      → Answers q Mid Next
      → Answers t Next Post
      → Answers (separated_pair p q t) Pre Post
  Answers-separated_pair ap aq at i h = rw (nom.separated_pair_law) (
      Answer-and_then (p i) _ (ap i h) (λ r a k.
        Answer-and_then (q r) _ (aq r k)
          (λ s b l. Answer-and_then (t s) _ (at s l) (λ u c m. inr (u, (a, c), refl, m)))))

module _ ⦃nom : Nom⦄ {A : Type 0} {Pre Post : Condition} (p : Parser A) where
  pub Answers-recognize : Answers p Pre Post → Answers (recognize p) Pre Post
  Answers-recognize ap i h =
      rw (nom.recognize_law)
        (Answer-and_then (p i) _ (ap i h) (λ r a k. inr (r, consumed i r, refl, k)))

  pub Answers-alt :
      (q : Parser A) → Answers p Pre Post → Answers q Pre Post → Answers (alt p q) Pre Post
  Answers-alt q ap aq i h =
      rw (nom.alt_law)
        (elim (ap i h) [ inl e ↦ rw e (aq i h) | inr (r, a, e, k) ↦ rw e (inr (r, a, refl, k)) ])

  pub Finds-opt : ((i : Bytes) → Pre i → Post i) → Answers p Pre Post → Finds (opt p) Pre Post
  Finds-opt stay ap i h = rw (nom.opt_law) (elim (ap i h) [
    | inl e ↦ rw e (i, none, refl, stay i h)
    | inr (r, a, e, k) ↦ rw e (r, some a, refl, k)
  ])

-- What is left is not of interest.
pub Answers-any :
    {A : Type 0} {Pre Post : Condition} (p : Parser A)
    → Answers p Pre Post
    → Answers p Pre (λ _. Unit {0})
Answers-any p ap i h = elim (ap i h) [ inl e ↦ inl e | inr (r, a, e, _) ↦ inr (r, a, e, tt) ]
