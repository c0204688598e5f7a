-- ===== src/Rfc5322/Comments/Fuel.antt =====
-- src/rfc5322.rs: `comment` has the fuel that it needs.
use rustyknife.Nom.Rules.{
  Grammar, Sound, Takes, Takes-Sound, Sound-map, Sound-opt, Sound-pair, Sound-terminated, Sound-alt,
  Sound-tag, Sound-recognize_many0, Sound-recognize_many1, many0_agree,
}
use rustyknife.Nom.{
  Nom, Parser, IResult, ok, err, and_then, or_else, map, pair, tag, many0, fold_many0,
}
use rustyknife.Prelude.{
  ℕ, zero, suc, ◌≡◌, ◌≤◌, ◌<◌, ◌↔◌, refl, ap, sym, ◌∙◌, Bytes, codes, length, length-append, arith,
}
use rustyknife.Rfc5234.{wsp, crlf}
use rustyknife.Rfc5322.Comments.{
  CommentContent, Contents, nested, nil, fws, ofws, ccontent, comment_body, comment_within, comment,
}
use rustyknife.Rfc5322.Policy.{Utf8Policy}

and_then_cong :
    {A B : Type 0} (x : IResult A) (f g : Bytes → A → IResult B)
    → ((r : Bytes) (a : A) → x ≡ ok r a → f r a ≡ g r a)
    → and_then x f ≡ and_then x g
and_then_cong (ok r a) f g h = h r a refl
and_then_cong (err e) f g h = refl

module _ ⦃nom : Nom⦄ where
  Takes-wsp : Takes wsp
  unfolding wsp
  Takes-wsp =
      Takes-Sound _ (Sound-map _ (Sound-alt _ _ (Sound-tag (codes " ")) (Sound-tag (codes "\t"))) _)

  Takes-fws : Takes fws
  unfolding fws crlf
  Takes-fws = Takes-Sound _ (
      Sound-map _
        (Sound-pair _ _
          (Sound-opt _
            (Sound-terminated _ _ (Sound-recognize_many0 _ Takes-wsp) (Sound-tag (codes "\r\n"))))
          (Sound-recognize_many1 _ Takes-wsp))
        _)

  Takes-ofws : Takes ofws
  unfolding ofws
  Takes-ofws = Takes-Sound _ (Sound-map _ (Sound-opt _ Takes-fws) _)

  -- What a parser leaves is no longer than its input.
  no_longer :
      {A : Type 0} {G : Grammar A} {p : Parser A}
      → Sound p G
      → (i r : Bytes) (a : A) → p i ≡ ok r a
      → length r ≤ length i
  no_longer t i r a e =
      let x = t i r a e in omega (arith, ap length x.splits, length-append x.text r)

  map_agree :
      {A B : Type 0} (p q : Parser A) (f : A → B) (s : Bytes) → p s ≡ q s → map p f s ≡ map q f s
  map_agree p q f s e =
      nom.map_law p f s ∙ ap (λ x. and_then x (λ r a. ok r (f a))) e ∙ sym (nom.map_law q f s)

  module _ (P : Utf8Policy) (p q : Parser Contents) where
    ccontent_agree : (s : Bytes) → p s ≡ q s → ccontent P p s ≡ ccontent P q s
    unfolding ccontent
    ccontent_agree s e =
        nom.alt_law _ _ s ∙ ap (or_else _) (map_agree p q nested s e) ∙ sym (nom.alt_law _ _ s)

    -- The contents of a comment, at inputs where the parsers of nested comments agree.
    content_agree :
        (n : ℕ)
        → ((s : Bytes) → length s ≤ n → p s ≡ q s)
        → (s : Bytes) → length s ≤ n
        → pair ofws (ccontent P p) s ≡ pair ofws (ccontent P q) s
    content_agree n same s h =
        nom.pair_law ofws (ccontent P p) s
        ∙ and_then_cong (ofws s) _ _ (λ r a e.
          ap (λ x. and_then x (λ t b. ok t (a, b)))
            (ccontent_agree r (same r (omega (arith, no_longer Takes-ofws s r a e)))))
        ∙ sym (nom.pair_law ofws (ccontent P q) s)

    inside_agree :
        (n : ℕ)
        → ((s : Bytes) → length s ≤ n → p s ≡ q s)
        → (f : Contents → Bytes × CommentContent → Contents) → (s : Bytes) → length s ≤ n
        → pair (fold_many0 (pair ofws (ccontent P p)) nil f) ofws s
          ≡ pair (fold_many0 (pair ofws (ccontent P q)) nil f) ofws s
    inside_agree n same f s h =
        let loops : many0 (pair ofws (ccontent P p)) s ≡ many0 (pair ofws (ccontent P q)) s =
          many0_agree (pair ofws (ccontent P p)) (pair ofws (ccontent P q)) n (content_agree n same)
            s h in
        rw (nom.pair_law, nom.fold_many0_law, loops)
          (sym (rw (nom.pair_law, nom.fold_many0_law) refl))

    comment_body_agree :
        (i : Bytes)
        → ((s : Bytes) → length s < length i → p s ≡ q s)
        → comment_body P p i ≡ comment_body P q i
    unfolding comment_body
    comment_body_agree i same = map_agree _ _ _ i (
        nom.delimited_law _ _ _ i
        ∙ and_then_cong (tag (codes "(") i) _ _ (λ r a e.
          ap (λ x. and_then x (λ s b. and_then (tag (codes ")") s) (λ u _. ok u b)))
            (inside_agree (length r) (λ s h. same s (omega (arith, h, shorter i r a e))) _ r
              (omega arith)))
        ∙ sym (nom.delimited_law _ _ _ i))
      where
        shorter : (i r a : Bytes) → tag (codes "(") i ≡ ok r a → length r < length i
        shorter i r a e =
            let x = Sound-tag (codes "(") i r a e in
            omega (arith, ap length x.splits, ap length x.spells.0, length-append x.text r)

  module _ (P : Utf8Policy) where
    -- More fuel than input is as good as any.
    within_agree :
        (f g : ℕ) (i : Bytes)
        → length i < f
        → length i < g
        → comment_within P f i ≡ comment_within P g i
    unfolding comment_within
    within_agree zero g i h k = absurd (omega arith)
    within_agree (suc f) zero i h k = absurd (omega arith)
    within_agree (suc f) (suc g) i h k =
        comment_body_agree P (comment_within P f) (comment_within P g) i
          (λ s lt. within_agree f g s (omega arith) (omega arith))

    comment-comment_body : (i : Bytes) → comment P i ≡ comment_body P (comment P) i
    unfolding comment comment_within
    comment-comment_body i =
        comment_body_agree P (comment_within P (length i)) (comment P) i
          (λ s lt. within_agree (length i) (suc (length s)) s lt (omega arith))

    solutions_agree :
        (p q : Parser Contents)
        → ((i : Bytes) → p i ≡ comment_body P p i)
        → ((i : Bytes) → q i ≡ comment_body P q i)
        → (n : ℕ) (i : Bytes) → length i < n
        → p i ≡ q i
    solutions_agree p q hp hq zero i h = absurd (omega arith)
    solutions_agree p q hp hq (suc n) i h =
        hp i
        ∙ comment_body_agree P p q i (λ s lt. solutions_agree p q hp hq n s (omega arith))
        ∙ sym (hq i)

    -- `comment` is the one parser that satisfies the equation by which the source defines it, at
    -- every input and whatever the result: its fuel is never used up.
    pub comment-unique_solution :
        (p : Parser Contents)
        → ((i : Bytes) → p i ≡ comment_body P p i) ↔ ((i : Bytes) → p i ≡ comment P i)
    comment-unique_solution p = (
      λ hp i.
          solutions_agree p (comment P) hp comment-comment_body (suc (length i)) i (omega arith),
      λ same i.
          same i
          ∙ comment-comment_body i
          ∙ sym (comment_body_agree P p (comment P) i (λ s lt. same s)),
    )
