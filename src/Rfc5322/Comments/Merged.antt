-- ===== src/Rfc5322/Comments/Merged.antt =====
-- src/rfc5322.rs: `_concat_comment` joins the texts of a comment.
use rustyknife.Prelude.{
  ℕ, ◌≡◌, refl, ap, sym, ◌∙◌, ◌⊎◌, inl, inr, List, [], ◌∷◌, ◌++◌, Bytes, append_assoc, append-nil,
}
use rustyknife.Prelude.Utf8.{encode_utf8}
use rustyknife.Rfc5322.Comments.{
  CommentContent, text, nested, qp, Contents, nil, cons, push, push_text, concat_onto,
  concat_comment,
}

-- A comment as its bytes, one by one, and the comments in it.
abbrev Item : Type 0
Item = ℕ ⊎ Contents

abbrev pub bytes : Bytes → List Item
bytes [] = []
bytes (c ∷ cs) = inl c ∷ bytes cs

abbrev pub item : CommentContent → List Item
item (text t) = bytes t
item (qp c) = bytes (encode_utf8 c)
item (nested cs) = inr cs ∷ []

abbrev pub items : Contents → List Item
items nil = []
items (cons x xs) = item x ++ items xs

-- No text comes first.
abbrev NoText : Contents → Type 0
NoText nil = Unit {0}
NoText (cons (nested cs) xs) = Unit {0}
NoText (cons (text t) xs) = ⊥
NoText (cons (qp c) xs) = ⊥

-- Texts are not empty and not next to each other, and there are no quoted pairs.
abbrev pub IsMerged : Contents → Type 0
IsMerged nil = Unit {0}
IsMerged (cons (nested cs) xs) = IsMerged xs
IsMerged (cons (text []) xs) = ⊥
IsMerged (cons (text (c ∷ cs)) xs) = NoText xs × IsMerged xs
IsMerged (cons (qp c) xs) = ⊥

-- No text is last.
abbrev IsOpen : Contents → Type 0
IsOpen nil = Unit {0}
IsOpen (cons (nested cs) nil) = Unit {0}
IsOpen (cons (text t) nil) = ⊥
IsOpen (cons (qp c) nil) = ⊥
IsOpen (cons x (cons y xs)) = IsOpen (cons y xs)

bytes-append : (s t : Bytes) → bytes (s ++ t) ≡ bytes s ++ bytes t
bytes-append [] t = refl
bytes-append (c ∷ s) t = ap (λ x. inl c ∷ x) (bytes-append s t)

items-push : (xs : Contents) (x : CommentContent) → items (push xs x) ≡ items xs ++ item x
unfolding push
items-push nil x = append-nil (item x)
items-push (cons y ys) x =
    ap (λ z. item y ++ z) (items-push ys x) ∙ sym (append_assoc (item y) (items ys) (item x))

items-push_text : (t : Bytes) (xs : Contents) → items (push_text t xs) ≡ items xs ++ bytes t
unfolding push_text
items-push_text [] xs = sym (append-nil (items xs))
items-push_text (c ∷ cs) xs = items-push xs (text (c ∷ cs))

items-concat_onto :
    (acc : Bytes) (out cs : Contents)
    → items (concat_onto acc out cs) ≡ items out ++ (bytes acc ++ items cs)
unfolding concat_onto
items-concat_onto acc out nil =
    items-push_text acc out ∙ ap (λ x. items out ++ x) (sym (append-nil (bytes acc)))
items-concat_onto acc out (cons (text t) xs) =
    items-concat_onto (acc ++ t) out xs
    ∙ ap (λ x. items out ++ x)
        (ap (λ b. b ++ items xs) (bytes-append acc t)
          ∙ append_assoc (bytes acc) (bytes t) (items xs))
items-concat_onto acc out (cons (qp c) xs) =
    items-concat_onto (acc ++ encode_utf8 c) out xs
    ∙ ap (λ x. items out ++ x)
        (ap (λ b. b ++ items xs) (bytes-append acc (encode_utf8 c))
          ∙ append_assoc (bytes acc) (bytes (encode_utf8 c)) (items xs))
items-concat_onto acc out (cons (nested cs) xs) =
    items-concat_onto [] (push (push_text acc out) (nested cs)) xs
    ∙ ap (λ x. x ++ items xs)
        (items-push (push_text acc out) (nested cs)
          ∙ ap (λ x. x ++ inr cs ∷ []) (items-push_text acc out))
    ∙ append_assoc (items out ++ bytes acc) (inr cs ∷ []) (items xs)
    ∙ append_assoc (items out) (bytes acc) (inr cs ∷ items xs)

NoText-push_nested : (xs cs : Contents) → NoText xs → NoText (push xs (nested cs))
unfolding push
NoText-push_nested nil cs h = tt
NoText-push_nested (cons (nested y) xs) cs h = tt
NoText-push_nested (cons (text t) xs) cs h = absurd h
NoText-push_nested (cons (qp c) xs) cs h = absurd h

IsMerged-push_nested : (xs cs : Contents) → IsMerged xs → IsMerged (push xs (nested cs))
unfolding push
IsMerged-push_nested nil cs h = tt
IsMerged-push_nested (cons (nested y) xs) cs h = IsMerged-push_nested xs cs h
IsMerged-push_nested (cons (text []) xs) cs h = absurd h
IsMerged-push_nested (cons (text (c ∷ t)) xs) cs h =
    (NoText-push_nested xs cs h.0, IsMerged-push_nested xs cs h.1)
IsMerged-push_nested (cons (qp c) xs) cs h = absurd h

IsOpen-push_nested : (xs cs : Contents) → IsOpen (push xs (nested cs))
unfolding push
IsOpen-push_nested nil cs = tt
IsOpen-push_nested (cons x nil) cs = tt
IsOpen-push_nested (cons x (cons y xs)) cs = IsOpen-push_nested (cons y xs) cs

IsMerged-push_text :
    (t : Bytes) (xs : Contents) → IsMerged xs → IsOpen xs → IsMerged (push_text t xs)
unfolding push_text push
IsMerged-push_text [] xs h o = h
IsMerged-push_text (c ∷ t) nil h o = (tt, tt)
IsMerged-push_text (c ∷ t) (cons (nested y) nil) h o = (tt, tt)
IsMerged-push_text (c ∷ t) (cons (nested y) (cons z xs)) h o =
    IsMerged-push_text (c ∷ t) (cons z xs) h o
IsMerged-push_text (c ∷ t) (cons (text s) nil) h o = absurd o
IsMerged-push_text (c ∷ t) (cons (text []) (cons z xs)) h o = absurd h
IsMerged-push_text (c ∷ t) (cons (text (d ∷ s)) (cons (nested y) xs)) h o =
    (tt, IsMerged-push_text (c ∷ t) (cons (nested y) xs) h.1 o)
IsMerged-push_text (c ∷ t) (cons (text (d ∷ s)) (cons (text u) xs)) h o = absurd h.0
IsMerged-push_text (c ∷ t) (cons (text (d ∷ s)) (cons (qp u) xs)) h o = absurd h.0
IsMerged-push_text (c ∷ t) (cons (qp d) xs) h o = absurd h

IsMerged-concat_onto :
    (acc : Bytes) (out cs : Contents)
    → IsMerged out
    → IsOpen out
    → IsMerged (concat_onto acc out cs)
unfolding concat_onto
IsMerged-concat_onto acc out nil h o = IsMerged-push_text acc out h o
IsMerged-concat_onto acc out (cons (text t) xs) h o = IsMerged-concat_onto (acc ++ t) out xs h o
IsMerged-concat_onto acc out (cons (qp c) xs) h o =
    IsMerged-concat_onto (acc ++ encode_utf8 c) out xs h o
IsMerged-concat_onto acc out (cons (nested cs) xs) h o =
    IsMerged-concat_onto [] (push (push_text acc out) (nested cs)) xs
      (IsMerged-push_nested (push_text acc out) cs (IsMerged-push_text acc out h o))
      (IsOpen-push_nested (push_text acc out) cs)

-- `_concat_comment` keeps the bytes of a comment, quoted pairs included, and the comments in it, in
-- their order; in what it returns texts are not empty and not next to each other, and there are no
-- quoted pairs.
pub concat_comment-IsMerged :
    (cs : Contents) → (items (concat_comment cs) ≡ items cs) × IsMerged (concat_comment cs)
unfolding concat_comment
concat_comment-IsMerged cs = (items-concat_onto [] nil cs, IsMerged-concat_onto [] nil cs tt tt)
