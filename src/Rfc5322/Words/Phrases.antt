-- ===== src/Rfc5322/Words/Phrases.antt =====
-- src/rfc5322.rs: how the words of a display name are put together.
use rustyknife.Prelude.{◌≡◌, refl, ap, ◌∷◌, ◌++◌, List, [], Bytes}
use rustyknife.Rfc5322.Words.{Text, atom_text, concat_atom_and_qs, text_of}

-- The texts in order, with a blank between two words unless both are literals.
abbrev pub phrase : List Text → Bytes
phrase [] = []
phrase (cur ∷ []) = text_of cur
phrase (atom_text v ∷ next ∷ rest) = v ++ (b' ' ∷ phrase (next ∷ rest))
phrase (Text.literal s ∷ atom_text v ∷ rest) = s ++ (b' ' ∷ phrase (atom_text v ∷ rest))
phrase (Text.literal s ∷ Text.literal t ∷ rest) = s ++ phrase (Text.literal t ∷ rest)

-- Literals directly in front of an atom with the text of that atom in place of their own.
abbrev pub shadowed : List Text → List Text
shadowed [] = []
shadowed (cur ∷ []) = cur ∷ []
shadowed (atom_text v ∷ next ∷ rest) = atom_text v ∷ shadowed (next ∷ rest)
shadowed (Text.literal s ∷ atom_text v ∷ rest) = Text.literal v ∷ shadowed (atom_text v ∷ rest)
shadowed (Text.literal s ∷ Text.literal t ∷ rest) =
    Text.literal s ∷ shadowed (Text.literal t ∷ rest)

-- The first word keeps its kind.
phrase-atom :
    (v u : Bytes) (rest : List Text)
    → phrase (Text.literal u ∷ shadowed (atom_text v ∷ rest))
      ≡ u ++ (b' ' ∷ phrase (shadowed (atom_text v ∷ rest)))
phrase-atom v u [] = refl
phrase-atom v u (next ∷ rest) = refl

phrase-literal :
    (s u : Bytes) (rest : List Text)
    → phrase (Text.literal u ∷ shadowed (Text.literal s ∷ rest))
      ≡ u ++ phrase (shadowed (Text.literal s ∷ rest))
phrase-literal s u [] = refl
phrase-literal s u (atom_text v ∷ rest) = refl
phrase-literal s u (Text.literal t ∷ rest) = refl

phrase-behind_atom :
    (v : Bytes) (next : Text) (rest : List Text)
    → phrase (atom_text v ∷ shadowed (next ∷ rest)) ≡ v ++ (b' ' ∷ phrase (shadowed (next ∷ rest)))
phrase-behind_atom v next [] = refl
phrase-behind_atom v (atom_text w) (next ∷ rest) = refl
phrase-behind_atom v (Text.literal s) (atom_text w ∷ rest) = refl
phrase-behind_atom v (Text.literal s) (Text.literal t ∷ rest) = refl

-- A display name is the texts of its words in order, with a blank between two words unless both are
-- literals; but a literal directly in front of an atom is shown with the text of that atom in place
-- of its own.
pub concat_atom_and_qs-shadowed : (ws : List Text) → concat_atom_and_qs ws ≡ phrase (shadowed ws)
unfolding concat_atom_and_qs
concat_atom_and_qs-shadowed [] = refl
concat_atom_and_qs-shadowed (cur ∷ []) = refl
concat_atom_and_qs-shadowed (atom_text v ∷ next ∷ rest) =
    rw (phrase-behind_atom v next rest)
      (ap (λ x. v ++ (b' ' ∷ x)) (concat_atom_and_qs-shadowed (next ∷ rest)))
concat_atom_and_qs-shadowed (Text.literal s ∷ atom_text v ∷ rest) =
    rw (phrase-atom v v rest)
      (ap (λ x. v ++ (b' ' ∷ x)) (concat_atom_and_qs-shadowed (atom_text v ∷ rest)))
concat_atom_and_qs-shadowed (Text.literal s ∷ Text.literal t ∷ rest) =
    rw (phrase-literal t s rest)
      (ap (λ x. s ++ x) (concat_atom_and_qs-shadowed (Text.literal t ∷ rest)))
