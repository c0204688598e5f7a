-- ===== src/Rfc5322/Comments.antt =====
-- src/rfc5322.rs: folding white space and comments, which nest. The recursion of the two parsers
-- takes fuel: one for each comment entered, and each takes at the least one byte.
pub mod Fuel
pub mod Gaps
pub mod Merged
use rustyknife.Nom.{
  Nom, Parser, err, failure, map, alt, opt, pair, preceded, terminated, delimited, recognize, tag,
  many1, fold_many0,
}
use rustyknife.Prelude.{ℕ, zero, suc, [], ◌∷◌, ◌++◌, Option, none, some, Bytes, codes, length}
use rustyknife.Prelude.Utf8.{encode_utf8}
use rustyknife.Rfc5234.{wsp, crlf}
use rustyknife.Rfc5322.Policy.{Utf8Policy}
use rustyknife.Util.{recognize_many0, recognize_many1}

-- `CommentContent`, with the vector inside `Comment` as a type of its own
mutual
  pub data CommentContent : Type 0 where
    text : Bytes → CommentContent
    nested : Contents → CommentContent
    qp : ℕ → CommentContent

  pub data Contents : Type 0 where
    nil : Contents
    cons : CommentContent → Contents → Contents

-- `Vec::push`
unfoldable pub push : Contents → CommentContent → Contents
push nil x = cons x nil
push (cons y ys) x = cons y (push ys x)

-- The closure `push_text` of `_concat_comment`.
unfoldable pub push_text : Bytes → Contents → Contents
unfolding push
push_text [] out = out
push_text (c ∷ cs) out = push out (text (c ∷ cs))

-- The loop of `_concat_comment`, with `acc_text` and `out`.
unfoldable pub concat_onto : Bytes → Contents → Contents → Contents
unfolding push_text
concat_onto acc_text out nil = push_text acc_text out
concat_onto acc_text out (cons (text t) rest) = concat_onto (acc_text ++ t) out rest
concat_onto acc_text out (cons (qp c) rest) = concat_onto (acc_text ++ encode_utf8 c) out rest
concat_onto acc_text out (cons (nested cs) rest) =
    concat_onto [] (push (push_text acc_text out) (nested cs)) rest

-- `_concat_comment`
unfoldable pub concat_comment : Contents → Contents
unfolding concat_onto
concat_comment = concat_onto [] nil

abbrev pub fws_text : Option Bytes × Bytes → Bytes
fws_text (some a, b) = a ++ b
fws_text (none, b) = b

abbrev pub text_or_empty : Option Bytes → Bytes
text_or_empty none = []
text_or_empty (some s) = s

module _ ⦃nom : Nom⦄ where
  unfoldable pub fws : Parser Bytes
  unfolding recognize_many0 recognize_many1 wsp crlf
  fws = map (pair (opt (terminated (recognize_many0 wsp) crlf)) (recognize_many1 wsp)) fws_text

  unfoldable pub ofws : Parser Bytes
  unfolding fws
  ofws = map (opt fws) text_or_empty

  module _ (P : Utf8Policy) where
    unfoldable pub quoted_pair : Parser ℕ
    unfolding wsp
    quoted_pair = preceded (tag (codes "\\")) (alt P.vchar wsp)

    -- `ccontent`, with the parser of nested comments
    unfoldable pub ccontent : Parser Contents → Parser CommentContent
    unfolding quoted_pair recognize_many1
    ccontent comment =
        alt (alt (map (recognize_many1 P.ctext) text) (map quoted_pair qp)) (map comment nested)

    -- the body of `comment`, with the parser of nested comments
    unfoldable pub comment_body : Parser Contents → Parser Contents
    unfolding ccontent ofws concat_comment
    comment_body comment =
        map
          (delimited (tag (codes "("))
            (pair
              (fold_many0 (pair ofws (ccontent comment)) nil
                (λ acc (space, cc). push (push acc (text space)) cc))
              ofws)
            (tag (codes ")")))
          (λ (a, b). concat_comment (push a (text b)))

    unfoldable pub comment_within : ℕ → Parser Contents
    unfolding comment_body
    comment_within zero i = err failure
    comment_within (suc f) i = comment_body (comment_within f) i

    unfoldable pub comment : Parser Contents
    unfolding comment_within
    comment i = comment_within (suc (length i)) i

    unfoldable pub cfws : Parser Bytes
    unfolding comment ofws fws
    cfws = alt (recognize (pair (many1 (pair ofws comment)) ofws)) (recognize fws)
