-- ===== src/Nom/Rules/Grammars.antt =====
-- Grammars, and what it is for a parser to be sound for one.
use rustyknife.Nom.Interface.{consumed}
use rustyknife.Nom.Result.{Parser, ok}
use rustyknife.Prelude.{
  ◌-◌, ◌≡◌, ◌≢◌, refl, ap, sym, ◌∙◌, List, [], ◌∷◌, ◌++◌, Option, none, some, Bytes, length, arith,
  append_assoc, take-append, length-append, lowercase,
}

-- A grammar relates the bytes consumed to the value returned.
abbrev pub Grammar : Type 0 → Type 1
Grammar A = Bytes → A → Type 0

pub record Reads {A : Type 0} (G : Grammar A) (i r : Bytes) (a : A) : Type 0 where
  pub text : Bytes
  pub splits : i ≡ text ++ r
  pub spells : G text a

abbrev pub Sound : {A : Type 0} → Parser A → Grammar A → Type 0
Sound {A} p G = (i r : Bytes) (a : A) → p i ≡ ok r a → Reads G i r a

pub join_splits : {i s : Bytes} (x y r : Bytes) → i ≡ x ++ s → s ≡ y ++ r → i ≡ (x ++ y) ++ r
join_splits x y r e f = e ∙ ap (◌++◌ x) f ∙ sym (append_assoc x y r)

-- The text splits in two.
pub record Both {A B : Type 0} (G : Grammar A) (H : Grammar B) (c : Bytes) (a : A) (b : B)
    : Type 0 where
  pub left : Bytes
  pub right : Bytes
  pub joined : c ≡ left ++ right
  pub left_spells : G left a
  pub right_spells : H right b

pub data Star {A : Type 0} (G : Grammar A) : Bytes → List A → Type 0 where
  none_left : Star G [] []
  one_more :
      {c cs : Bytes} {a : A} {as' : List A} → G c a → Star G cs as' → Star G (c ++ cs) (a ∷ as')

-- One or more.
abbrev pub Plus : {A : Type 0} → Grammar A → Grammar (List A)
Plus G c bs = Star G c bs × (bs ≢ [])

abbrev pub Maybe : {A : Type 0} → Grammar A → Grammar (Option A)
Maybe G c none = c ≡ []
Maybe G c (some a) = G c a

abbrev pub Literal : Bytes → Grammar Bytes
Literal t c a = (c ≡ t) × (a ≡ t)

abbrev pub LiteralNoCase : Bytes → Grammar Bytes
LiteralNoCase t c a = (c ≡ a) × (lowercase c ≡ lowercase t)

module _ {A : Type 0} {G : Grammar A} where
  pub Reads-ok : {i s r : Bytes} {a b : A} → Reads G i s a → ok s a ≡ ok r b → Reads G i r b
  Reads-ok {i} {s} {r} {a} {b} x e = record {
    text = x.text;
    splits = cc (x.splits);
    spells = let same : a ≡ b = cc in rw (← same) (x.spells);
  }

  pub Reads-weaken :
      {H : Grammar A} {i r : Bytes} {a : A}
      → Reads G i r a
      → ((c : Bytes) → G c a → H c a)
      → Reads H i r a
  Reads-weaken x f = record { text = x.text; splits = x.splits; spells = f x.text x.spells }

  pub Sound-weaken :
      {H : Grammar A} (p : Parser A) → Sound p G → ((c : Bytes) (a : A) → G c a → H c a) → Sound p H
  Sound-weaken p s f i r a e = Reads-weaken (s i r a e) (λ c g. f c a g)

  -- Two stretches of input, one behind the other.
  pub Reads-Both :
      {B : Type 0} {H : Grammar B} {i s r : Bytes} {a : A} {b : B}
      → Reads G i s a
      → Reads H s r b
      → (c : Bytes) × (i ≡ c ++ r) × Both G H c a b
  Reads-Both x y = (
    x.text ++ y.text,
    join_splits x.text y.text _ x.splits y.splits,
    record {
      left = x.text;
      right = y.text;
      joined = refl;
      left_spells = x.spells;
      right_spells = y.spells;
    },
  )

pub consumed-append : (c r : Bytes) → consumed (c ++ r) r ≡ c
consumed-append c r =
    let e : length (c ++ r) - length r ≡ length c = omega (arith, length-append c r) in
    rw e (take-append c r)
