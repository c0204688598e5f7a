-- ===== src/Tests/Imf.antt =====
-- src/tests/test_rfc5322.rs, and the theorems about comments at inputs.
use rustyknife.Nom.Reference.{reference}
use rustyknife.Nom.{ok}
use rustyknife.Prelude.{[], ◌≡◌, ◌↔◌, refl, codes, Bytes}
use rustyknife.Rfc5322.Comments.Merged.{items, IsMerged, concat_comment-IsMerged}
use rustyknife.Rfc5322.Comments.{
  Contents, qp, concat_comment, comment, comment_body, text, nested, nil, cons,
}
use rustyknife.Rfc5322.Comments.Fuel.{comment-unique_solution}
use rustyknife.Prelude.Utf8.{encode_utf8}
use rustyknife.Rfc5322.Policy.{legacy}

comment_run :
    comment legacy (codes "(a (b\\)) c) d")
    ≡ ok (codes " d") (
        cons
          (text (codes "a "))
          (cons (nested (cons (text (codes "b)")) nil)) (cons (text (codes " c")) nil)))
unfolding reference comment legacy encode_utf8
comment_run = refl

comment-unique_solution_example :
    ((i : Bytes) → comment legacy i ≡ comment_body legacy (comment legacy) i)
    ↔ ((i : Bytes) → comment legacy i ≡ comment legacy i)
comment-unique_solution_example = comment-unique_solution legacy (comment legacy)

-- `a`, an escaped parenthesis and a comment.
abbrev pieces : Contents
pieces = cons (text (codes "a")) (cons (qp b')') (cons (text []) (cons (nested nil) nil)))

concat_comment_run : concat_comment pieces ≡ cons (text (codes "a)")) (cons (nested nil) nil)
unfolding concat_comment encode_utf8
concat_comment_run = refl

concat_comment-IsMerged_example :
    (items (concat_comment pieces) ≡ items pieces) × IsMerged (concat_comment pieces)
concat_comment-IsMerged_example = concat_comment-IsMerged pieces
