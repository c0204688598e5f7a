-- ===== src/Nom/Rules/Soundness.antt =====
-- The soundness rules of the combinators.
use rustyknife.Nom.Rules.Rounds.{many0-Many}
use rustyknife.Nom.Interface.{
  Nom, consumed, tag, tag_no_case, map, map_opt, map_res, opt, recognize, verify, exact, alt, pair,
  preceded, terminated, delimited, separated_pair, many0, many1,
}
use rustyknife.Nom.Result.{
  Parser, IResult, ok, err, error, and_then, from_option, strip, no_case, Many, stop, more,
}
use rustyknife.Nom.Rules.Inversion.{and_then-ok, or_else-ok, strip-some, strip-no_case}
use rustyknife.Prelude.{
  ◌≡◌, refl, ap, sym, ◌∙◌, ◌⊎◌, inl, inr, Bool, true, List, [], ◌∷◌, ◌++◌, Option, none, some,
  Bytes, length, take, ◌==◌, take-append, lowercase, Bool-cases, if◌then◌else◌,
}
use rustyknife.Nom.Rules.Grammars.{
  Grammar, Reads, Sound, join_splits, Both, Star, none_left, one_more, Plus, Maybe, Literal,
  LiteralNoCase, Reads-ok, Reads-weaken, Reads-Both, consumed-append,
}

length-lowercase : (c : Bytes) → length (lowercase c) ≡ length c
length-lowercase [] = refl
length-lowercase (c ∷ cs) = rw (length-lowercase cs) refl

module _ ⦃nom : Nom⦄ where
  pub Sound-tag : (t : Bytes) → Sound (tag t) (Literal t)
  Sound-tag t i r a e = go (strip ◌==◌ t i) refl (rw nom.tag_law at e)
    where
      go :
          (x : Option Bytes)
          → strip ◌==◌ t i ≡ x
          → elim x [ none ↦ err error | some s ↦ ok s t ] ≡ ok r a
          → Reads (Literal t) i r a
      go none w h = absurd (cc h)
      go (some s) w h = record {
        text = t;
        splits = strip-some t i s w ∙ ap (◌++◌ t) (cc h);
        spells = (refl, cc h);
      }

  pub Sound-tag_no_case : (t : Bytes) → Sound (tag_no_case t) (LiteralNoCase t)
  Sound-tag_no_case t i r a e = go (strip no_case t i) refl (rw nom.tag_no_case_law at e)
    where
      go :
          (x : Option Bytes)
          → strip no_case t i ≡ x
          → elim x [ none ↦ err error | some s ↦ ok s (take (length t) i) ] ≡ ok r a
          → Reads (LiteralNoCase t) i r a
      go none w h = absurd (cc h)
      go (some s) w h =
          let (c, split, lower) = strip-no_case t i s w in
          let same : length t ≡ length c =
            cc (length-lowercase c, length-lowercase t, ap length lower) in
          record {
            text = c;
            splits = split ∙ ap (◌++◌ c) (cc h);
            spells = (sym (take-append c s) ∙ cc (h, same, split), lower);
          }

module _ ⦃nom : Nom⦄ {A B : Type 0} {G : Grammar A} (p : Parser A) (sp : Sound p G) where
  pub Sound-map : (f : A → B) → Sound (map p f) (λ c b. (a : A) × G c a × (b ≡ f a))
  Sound-map f i r b e =
      let (s, a, pe, h) = and_then-ok (p i) (λ r a. ok r (f a)) (rw nom.map_law at e) in
      let x = sp i s a pe in
      record {
        text = x.text;
        splits = x.splits ∙ ap (◌++◌ x.text) (cc h);
        spells = (a, x.spells, cc h);
      }

  pub Sound-map_opt :
      (f : A → Option B) → Sound (map_opt p f) (λ c b. (a : A) × G c a × (f a ≡ some b))
  Sound-map_opt f i r b e =
      let (s, a, pe, h) =
        and_then-ok (p i) (λ r a. from_option r (f a)) (rw nom.map_opt_law at e) in
      go (sp i s a pe) (f a) refl h
    where
      go :
          {s : Bytes} {a : A}
          → Reads G i s a
          → (o : Option B) → f a ≡ o
          → from_option s o ≡ ok r b
          → Reads (λ c b. (a : A) × G c a × (f a ≡ some b)) i r b
      go x none w h = absurd (cc h)
      go {a = a} x (some b') w h = record {
        text = x.text;
        splits = x.splits ∙ ap (◌++◌ x.text) (cc h);
        spells = (a, x.spells, cc (w, h));
      }

  pub map_res-map_opt : (f : A → Option B) (i : Bytes) → map_res p f i ≡ map_opt p f i
  map_res-map_opt f i = nom.map_res_law p f i ∙ sym (nom.map_opt_law p f i)

  pub Sound-map_res :
      (f : A → Option B) → Sound (map_res p f) (λ c b. (a : A) × G c a × (f a ≡ some b))
  Sound-map_res f i r b e = Sound-map_opt f i r b (sym (map_res-map_opt f i) ∙ e)

module _ ⦃nom : Nom⦄ {A : Type 0} {G : Grammar A} (p : Parser A) (sp : Sound p G) where
  pub Sound-opt : Sound (opt p) (Maybe G)
  Sound-opt i r o e = elim (or_else-ok _ _ (rw nom.opt_law at e)) [
    | inl h ↦
        let (s, a, pe, h') = and_then-ok (p i) (λ r a. ok r (some a)) h in
        Reads-ok
          (record {
            text = (sp i s a pe).text;
            splits = (sp i s a pe).splits;
            spells = (sp i s a pe).spells;
          })
          h'
    | inr h ↦ Reads-ok (record { text = []; splits = refl; spells = refl }) (h.1)
  ]

  pub Sound-recognize : Sound (recognize p) (λ c a. (a ≡ c) × ((v : A) × G c v))
  Sound-recognize i r c e =
      let (s, a, pe, h) =
        and_then-ok (p i) (λ r _. ok r (consumed i r)) (rw nom.recognize_law at e) in
      let x = sp i s a pe in
      let here : consumed i s ≡ x.text = rw (x.splits) (consumed-append x.text s) in
      Reads-ok (record { text = x.text; splits = x.splits; spells = (here, (a, x.spells)) }) h

  pub Sound-verify : (f : A → Bool) → Sound (verify p f) (λ c a. G c a × (f a ≡ true))
  Sound-verify f i r b e =
      let (s, a, pe, h) =
        and_then-ok (p i) (λ r a. if f a then ok r a else err error) (rw nom.verify_law at e) in
      let x = sp i s a pe in
      elim (Bool-cases (f a)) [
        | inl y ↦
            Reads-ok (record { text = x.text; splits = x.splits; spells = (x.spells, y) })
              (rw (y, if◌then◌else◌) at h)
        | inr n ↦ absurd (cc (rw (n, if◌then◌else◌) at h))
      ]

  pub Sound-exact : Sound (exact p) G
  Sound-exact i r b e =
      let (s, a, pe, h) = and_then-ok (p i) at_end (rw nom.exact_law at e) in go s (sp i s a pe) h
    where
      at_end : Bytes → A → IResult A
      at_end r a = elim r [ [] ↦ ok [] a | _ ∷ _ ↦ err error ]

      go : {a : A} → (s : Bytes) → Reads G i s a → at_end s a ≡ ok r b → Reads G i r b
      go [] x h = Reads-ok x h
      go (c ∷ cs) x h = absurd (cc h)

  pub exact-rest : (i r : Bytes) (b : A) → exact p i ≡ ok r b → r ≡ []
  exact-rest i r b e =
      let (s, a, pe, h) = and_then-ok (p i) at_end (rw nom.exact_law at e) in go s a h
    where
      at_end : Bytes → A → IResult A
      at_end r a = elim r [ [] ↦ ok [] a | _ ∷ _ ↦ err error ]

      go : (s : Bytes) (a : A) → at_end s a ≡ ok r b → r ≡ []
      go [] a h = cc
      go (c ∷ cs) a h = absurd (cc h)

module _ ⦃nom : Nom⦄ {A : Type 0} {G H : Grammar A} (p q : Parser A) where
  pub Sound-alt : Sound p G → Sound q H → Sound (alt p q) (λ c a. G c a ⊎ H c a)
  Sound-alt sp sq i r a e = elim (or_else-ok (p i) (q i) (rw nom.alt_law at e)) [
    | inl h ↦ Reads-weaken (sp i r a h) (λ c g. inl g)
    | inr h ↦ Reads-weaken (sq i r a h.1) (λ c g. inr g)
  ]

module _ ⦃nom : Nom⦄ {A B : Type 0} {G : Grammar A} {H : Grammar B} (p : Parser A) (q : Parser B)
    (sp : Sound p G) (sq : Sound q H) where
  pub Sound-pair : Sound (pair p q) (λ c ab. Both G H c ab.0 ab.1)
  Sound-pair i r ab e =
      let (s, a, pe, h) =
        and_then-ok (p i) (λ r a. and_then (q r) (λ s b. ok s (a, b))) (rw nom.pair_law at e) in
      let (u, b, qe, h') = and_then-ok (q s) (λ s b. ok s (a, b)) h in
      let (c, split, both) = Reads-Both (sp i s a pe) (sq s u b qe) in
      Reads-ok (record { text = c; splits = split; spells = both }) h'

  pub Sound-preceded : Sound (preceded p q) (λ c b. (a : A) × Both G H c a b)
  Sound-preceded i r b e =
      let (s, a, pe, h) = and_then-ok (p i) (λ r _. q r) (rw nom.preceded_law at e) in
      let (c, split, both) = Reads-Both (sp i s a pe) (sq s r b h) in
      record { text = c; splits = split; spells = (a, both) }

  pub Sound-terminated : Sound (terminated p q) (λ c a. (b : B) × Both G H c a b)
  Sound-terminated i r a' e =
      let (s, a, pe, h) =
        and_then-ok (p i) (λ r a. and_then (q r) (λ s _. ok s a)) (rw nom.terminated_law at e) in
      let (u, b, qe, h') = and_then-ok (q s) (λ s _. ok s a) h in
      let (c, split, both) = Reads-Both (sp i s a pe) (sq s u b qe) in
      Reads-ok (record { text = c; splits = split; spells = (b, both) }) h'

-- Three parsers in a row.
abbrev pub Three : {A B C : Type 0} → Grammar A → Grammar B → Grammar C → Bytes → A → B → C → Type 0
Three {B} {C} G H K c a b d = (l m r : Bytes) × (c ≡ l ++ (m ++ r)) × G l a × H m b × K r d

module _ ⦃nom : Nom⦄ {A B C : Type 0} {G : Grammar A} {H : Grammar B} {K : Grammar C} (p : Parser A)
    (q : Parser B) (t : Parser C) (sp : Sound p G) (sq : Sound q H) (st : Sound t K) where
  three :
      {i r s u : Bytes} {a : A} {b : B} {d : C}
      → Reads G i s a
      → Reads H s u b
      → Reads K u r d
      → (c : Bytes) × (i ≡ c ++ r) × Three G H K c a b d
  three x y z = (
    x.text ++ (y.text ++ z.text),
    join_splits x.text (y.text ++ z.text) _ x.splits
        (join_splits y.text z.text _ y.splits z.splits),
    (x.text, y.text, z.text, refl, x.spells, y.spells, z.spells),
  )

  pub Sound-delimited : Sound (delimited p q t) (λ c b. (a : A) × ((d : C) × Three G H K c a b d))
  Sound-delimited i r b' e =
      let (s, a, pe, h) = and_then-ok (p i) _ (rw nom.delimited_law at e) in
      let (u, b, qe, h') = and_then-ok (q s) (λ s b. and_then (t s) (λ u _. ok u b)) h in
      let (v, d, te, h'') = and_then-ok (t u) (λ u _. ok u b) h' in
      let (c, split, all_three) = three (sp i s a pe) (sq s u b qe) (st u v d te) in
      Reads-ok (record { text = c; splits = split; spells = (a, (d, all_three)) }) h''

  pub Sound-separated_pair :
      Sound (separated_pair p q t) (λ c ad. (b : B) × Three G H K c ad.0 b ad.1)
  Sound-separated_pair i r ad e =
      let (s, a, pe, h) = and_then-ok (p i) _ (rw nom.separated_pair_law at e) in
      let (u, b, qe, h') = and_then-ok (q s) (λ s _. and_then (t s) (λ u c. ok u (a, c))) h in
      let (v, d, te, h'') = and_then-ok (t u) (λ u c. ok u (a, c)) h' in
      let (c, split, all_three) = three (sp i s a pe) (sq s u b qe) (st u v d te) in
      Reads-ok (record { text = c; splits = split; spells = (b, all_three) }) h''

module _ ⦃nom : Nom⦄ {A : Type 0} {G : Grammar A} (p : Parser A) (sp : Sound p G) where
  pub Many-Star :
      {i r : Bytes} {bs : List A} → Many p i bs r → (c : Bytes) × (i ≡ c ++ r) × Star G c bs
  Many-Star (stop e) = ([], refl, none_left)
  Many-Star (more {i} {r = s} {a} e lt m) =
      let x = sp i s a e in
      let (c, split, star) = Many-Star m in
      (x.text ++ c, join_splits x.text c _ x.splits split, one_more x.spells star)

  pub Sound-many0 : Sound (many0 p) (Star G)
  Sound-many0 i r bs e =
      let (c, split, star) = Many-Star (many0-Many p i e) in
      record { text = c; splits = split; spells = star }

  pub Sound-many1 : Sound (many1 p) (Plus G)
  Sound-many1 i r bs e =
      let (s, a, pe, h) = and_then-ok (p i) _ (rw nom.many1_law at e) in
      let (u, as', me, h') = and_then-ok (many0 p s) (λ s bs. ok s (a ∷ bs)) h in
      let x = sp i s a pe in
      let y = Sound-many0 s u as' me in
      Reads-ok
        (record {
          text = x.text ++ y.text;
          splits = join_splits x.text y.text _ x.splits y.splits;
          spells = (one_more x.spells y.spells, λ no. cc no);
        })
        h'
