-- ===== src/Rfc5321/Mailboxes/DottedRead.antt =====
-- src/rfc5321.rs: what the parsers of dot strings and domains read.
use rustyknife.Nom.Rules.{
  AllOf, Sound, Sound-weaken, Sound-recognize, Sound-pair, Sound-many0, Sound-tag, Star, none_left,
  one_more, Both, Literal,
}
use rustyknife.Nom.{Nom, Parser, pair, many0, tag, recognize}
use rustyknife.Prelude.{◌≡◌, refl, List, [], ◌∷◌, Bytes, codes}
use rustyknife.Rfc5321.Mailboxes.Dotted.{dotted, dotted_rest}

module _ (IsPart : Bytes → Type 0) where
  abbrev pub Part : Bytes → Bytes → Type 0
  Part t x = (t ≡ x) × IsPart x

  -- Parts with dots between them.
  abbrev pub Parts : Bytes → Type 0
  Parts a = (x : Bytes) × (xs : List Bytes) × (a ≡ dotted x xs) × IsPart x × AllOf IsPart xs

  abbrev Behind : Bytes → Bytes × Bytes → Type 0
  Behind t dx = Both (Literal (codes ".")) Part t dx.0 dx.1

  rest_read :
      {t : Bytes} {ds : List (Bytes × Bytes)}
      → Star Behind t ds
      → (xs : List Bytes) × (t ≡ dotted_rest xs) × AllOf IsPart xs
  rest_read none_left = ([], refl, tt)
  rest_read (one_more {a} b s) =
      let (xs, e, h) = rest_read s in
      (a.1 ∷ xs, rw (b.joined, b.left_spells.0, b.right_spells.0, e) refl, (b.right_spells.1, h))

  pub Sound-dotted :
      ⦃nom : Nom⦄
      → (p : Parser Bytes) → Sound p Part
      → Sound (recognize (pair p (many0 (pair (tag (codes ".")) p)))) (λ t a. (a ≡ t) × Parts a)
  Sound-dotted p sp =
      Sound-weaken _
        (Sound-recognize _
          (Sound-pair _ _ sp (Sound-many0 _ (Sound-pair _ _ (Sound-tag (codes ".")) sp))))
        (λ t a (same, (v, b)).
          let (xs, e, h) = rest_read b.right_spells in
          (same, (v.0, xs, rw (same, b.joined, b.left_spells.0, e) refl, b.left_spells.1, h)))
