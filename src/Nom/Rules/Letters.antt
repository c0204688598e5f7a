-- ===== src/Nom/Rules/Letters.antt =====
-- Words that are compared without case.
use rustyknife.Nom.Interface.{Nom, tag_no_case, alt, map}
use rustyknife.Nom.Result.{Parser, ok, strip, no_case}
use rustyknife.Nom.Rules.Inversion.{strip-no_case-append, Stops}
use rustyknife.Prelude.{
  ℕ, ◌≡◌, refl, Bool, true, false, [], ◌∷◌, ◌++◌, none, Bytes, Every, lowercase, take, length,
  to_ascii_lowercase, arith,
}

-- Case does not matter to a comparison without case.
pub strip-same_letters :
    (t k n s : Bytes)
    → lowercase k ≡ lowercase n
    → strip no_case t (n ++ s) ≡ none
    → strip no_case t (k ++ s) ≡ none
strip-same_letters [] k n s e h = absurd (cc h)
strip-same_letters (a ∷ t) [] [] s e h = h
strip-same_letters (a ∷ t) [] (d ∷ n) s e h = absurd (cc e)
strip-same_letters (a ∷ t) (c ∷ k) [] s e h = absurd (cc e)
strip-same_letters (a ∷ t) (c ∷ k) (d ∷ n) s e h =
    let same : to_ascii_lowercase c ≡ to_ascii_lowercase d = cc e in
    let later : lowercase k ≡ lowercase n = cc e in
    ground (arith, h, same, strip-same_letters t k n s later)

-- What ends a text of a class does not complete a word of the class.
pub strip-ends :
    (f : ℕ → Bool)
    → ((a d : ℕ) → f a ≡ true → f d ≡ false → no_case a d ≡ false)
    → (t v s : Bytes) → Every f t
    → Stops f s
    → strip no_case t v ≡ none
    → strip no_case t (v ++ s) ≡ none
strip-ends f apart [] v s x e h = absurd (cc h)
strip-ends f apart (a ∷ t) [] [] x e h = refl
strip-ends f apart (a ∷ t) [] (d ∷ s) x e h = rw (apart a d x.0 e) refl
strip-ends f apart (a ∷ t) (c ∷ v) s x e h = ground (arith, h, strip-ends f apart t v s x.1 e)

module _ ⦃nom : Nom⦄ where
  pub tag_no_case-letters :
      (t k s : Bytes)
      → lowercase k ≡ lowercase t
      → tag_no_case t (k ++ s) ≡ ok s (take (length t) (k ++ s))
  tag_no_case-letters t k s e = rw (nom.tag_no_case_law, strip-no_case-append t k s e) refl

  -- The input starts with the first word of a choice, or does not.
  module _ {A : Type 0} (k s : Bytes) where
    pub word_here :
        (t : Bytes) (v : A) (q : Parser A)
        → lowercase k ≡ lowercase t
        → alt (map (tag_no_case t) (λ _. v)) q (k ++ s) ≡ ok s v
    word_here t v q e = rw (nom.alt_law, nom.map_law, tag_no_case-letters t k s e) refl

    pub word_not_here :
        (t : Bytes) (v : A) (q : Parser A)
        → strip no_case t (k ++ s) ≡ none
        → alt (map (tag_no_case t) (λ _. v)) q (k ++ s) ≡ q (k ++ s)
    word_not_here t v q e = rw (nom.alt_law, nom.map_law, nom.tag_no_case_law, e) refl

    pub other_word :
        (t n : Bytes) (v : A) (q : Parser A)
        → lowercase k ≡ lowercase n
        → strip no_case t (n ++ s) ≡ none
        → alt (map (tag_no_case t) (λ _. v)) q (k ++ s) ≡ q (k ++ s)
    other_word t n v q e h = word_not_here t v q (strip-same_letters t k n s e h)
