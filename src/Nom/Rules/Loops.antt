-- ===== src/Nom/Rules/Loops.antt =====
-- The soundness rules of the loops that `util` builds on nom's.
use rustyknife.Nom.Rules.Rounds.{many0_ok}
use rustyknife.Nom.Interface.{Nom, many0, many1, fold_many0, fold_many1}
use rustyknife.Nom.Result.{Parser, ok, Many}
use rustyknife.Nom.Rules.Inversion.{and_then-ok}
use rustyknife.Nom.Rules.Grammars.{
  Grammar, Sound, Reads-ok, Star, Both, Plus, Sound-weaken, Reads-Both,
}
use rustyknife.Nom.Rules.Soundness.{Sound-recognize, Sound-many0, Sound-many1}
use rustyknife.Prelude.{
  ◌≡◌, refl, ap, ◌∙◌, sym, List, [], ◌∷◌, ◌++◌, Bytes, foldl, append_assoc, append-nil,
}
use rustyknife.Util.{recognize_many0, recognize_many1, fold_prefix0}

-- A parser that returns what is left of its input.
abbrev pub Takes : {A : Type 0} → Parser A → Type 0
Takes p = Sound p (λ _ _. Unit {0})

pub Takes-Sound : {A : Type 0} {G : Grammar A} (p : Parser A) → Sound p G → Takes p
Takes-Sound p s = Sound-weaken p s (λ _ _ _. tt)

module _ ⦃nom : Nom⦄ {A : Type 0} {G : Grammar A} (p : Parser A) (sp : Sound p G) where
  pub Sound-fold_many0 :
      {B : Type 0} (z : B) (f : B → A → B)
      → Sound (fold_many0 p z f) (λ c b. (bs : List A) × Star G c bs × (b ≡ foldl f z bs))
  Sound-fold_many0 z f i r b e =
      let (s, bs, me, h) = and_then-ok (many0 p i) _ (rw nom.fold_many0_law at e) in
      let x = Sound-many0 p sp i s bs me in
      Reads-ok (record { text = x.text; splits = x.splits; spells = (bs, x.spells, refl) }) h

  pub Sound-fold_many1 :
      {B : Type 0} (z : B) (f : B → A → B)
      → Sound (fold_many1 p z f) (λ c b. (bs : List A) × Plus G c bs × (b ≡ foldl f z bs))
  Sound-fold_many1 z f i r b e =
      let (s, bs, me, h) = and_then-ok (many1 p i) _ (rw nom.fold_many1_law at e) in
      let x = Sound-many1 p sp i s bs me in
      Reads-ok (record { text = x.text; splits = x.splits; spells = (bs, x.spells, refl) }) h

  pub Sound-recognize_many0 :
      Sound (recognize_many0 p) (λ c a. (a ≡ c) × ((bs : List A) × Star G c bs))
  unfolding recognize_many0
  Sound-recognize_many0 =
      Sound-weaken (recognize_many0 p)
        (Sound-recognize _ (Sound-fold_many0 {B = Unit {0}} tt (λ _ _. tt)))
        (λ c a g. (g.0, (g.1.1.0, g.1.1.1)))

  pub Sound-recognize_many1 :
      Sound (recognize_many1 p) (λ c a. (a ≡ c) × ((bs : List A) × Plus G c bs))
  unfolding recognize_many1
  Sound-recognize_many1 =
      Sound-weaken (recognize_many1 p)
        (Sound-recognize _ (Sound-fold_many1 {B = Unit {0}} tt (λ _ _. tt)))
        (λ c a g. (g.0, (g.1.1.0, g.1.1.1)))

pub foldl-push : {A : Type 0} (zs bs : List A) → foldl (λ acc b. acc ++ b ∷ []) zs bs ≡ zs ++ bs
foldl-push zs [] = sym (append-nil zs)
foldl-push zs (b ∷ bs) = foldl-push (zs ++ b ∷ []) bs ∙ append_assoc zs (b ∷ []) bs

module _ ⦃nom : Nom⦄ {A : Type 0} {G H : Grammar A} (p q : Parser A) (sp : Sound p G)
    (sq : Sound q H) where
  pub Sound-fold_prefix0 :
      Sound
        (fold_prefix0 p q)
        (λ c as'. (b : A) × (bs : List A) × (as' ≡ b ∷ bs) × Both G (Star H) c b bs)
  unfolding fold_prefix0
  Sound-fold_prefix0 i r as' e =
      let (s, b, pe, h) = and_then-ok (p i) _ e in
      let (u, bs, me, h') = and_then-ok (many0 q s) _ (rw nom.fold_many0_law at h) in
      let (c, split, both) = Reads-Both (sp i s b pe) (Sound-many0 q sq s u bs me) in
      Reads-ok (record { text = c; splits = split; spells = (b, bs, foldl-push (b ∷ []) bs, both) })
        h'

-- The loop behind a first value succeeds if its rounds do.
pub fold_prefix0-Many :
    ⦃nom : Nom⦄
    → {A : Type 0} (p q : Parser A) {i s r : Bytes} {b : A} {bs : List A} → p i ≡ ok s b
    → Many q s bs r
    → fold_prefix0 p q i ≡ ok r (b ∷ bs)
unfolding fold_prefix0
fold_prefix0-Many ⦃nom⦄ p q {s} {r} {b} {bs} e m =
    rw (e, nom.fold_many0_law, many0_ok q s m) (ap (ok r) (foldl-push (b ∷ []) bs))
