-- ===== src/Rfc5322/Comments/Gaps.antt =====
-- src/rfc5322.rs: blanks on one line are optional folding white space.
use rustyknife.Nom.Rules.{many0_ok, consumed-append, tag-append}
use rustyknife.Nom.{Nom, consumed, opt, ok, err, error}
use rustyknife.Prelude.{
  Option, none, some, ℕ, ◌≡◌, ◌≢◌, refl, ap, false, [], ◌∷◌, ◌++◌, Bytes, codes, Every, arith,
}
use rustyknife.Rfc5234.Blanks.{is_blank, NoBlank, wsp-cons, wsp-NoBlank, Many-blanks}
use rustyknife.Rfc5234.{wsp, crlf}
use rustyknife.Rfc5322.Policy.{Utf8Policy}
use rustyknife.Rfc5322.Comments.{comment, comment_within, comment_body, cfws, fws, ofws}
use rustyknife.Util.{recognize_many0, recognize_many1}

-- No blank and no line end comes.
abbrev pub Solid : Bytes → Type 0
Solid [] = Unit {0}
Solid (c ∷ s) = (is_blank c ≡ false) × (c ≢ b'\r')

module _ ⦃nom : Nom⦄ where
  Solid-NoBlank : (s : Bytes) → Solid s → NoBlank s
  Solid-NoBlank [] h = tt
  Solid-NoBlank (c ∷ s) h = h.0

  crlf-Solid : (s : Bytes) → Solid s → crlf s ≡ err error
  unfolding crlf
  crlf-Solid [] h = rw nom.tag_law refl
  crlf-Solid (c ∷ s) h = rw nom.tag_law (ground (arith, h.1))

  blanks0 : (w s : Bytes) → Every is_blank w → NoBlank s → recognize_many0 wsp (w ++ s) ≡ ok s w
  unfolding recognize_many0
  blanks0 w s h n =
      rw (nom.recognize_law, nom.fold_many0_law, many0_ok _ _ (Many-blanks w s h n))
        (ap (ok s) (consumed-append w s))

  blanks1 :
      (b : ℕ) (w s : Bytes)
      → Every is_blank (b ∷ w)
      → NoBlank s
      → recognize_many1 wsp (b ∷ (w ++ s)) ≡ ok s (b ∷ w)
  unfolding recognize_many1
  blanks1 b w s h n =
      rw
        (
          nom.recognize_law,
          nom.fold_many1_law,
          nom.many1_law,
          wsp-cons,
          h.0,
          many0_ok _ _ (Many-blanks w s h.1 n),
        )
        (ap (ok s) (consumed-append (b ∷ w) s))

  no_blanks1 : (s : Bytes) → NoBlank s → recognize_many1 wsp s ≡ err error
  unfolding recognize_many1
  no_blanks1 s n = rw (nom.recognize_law, nom.fold_many1_law, nom.many1_law, wsp-NoBlank s n) refl

  -- Blanks on one line are read.
  pub ofws-blanks : (w s : Bytes) → Every is_blank w → Solid s → ofws (w ++ s) ≡ ok s w
  unfolding ofws fws
  ofws-blanks [] s h n =
      rw
        (
          nom.map_law,
          nom.opt_law,
          nom.map_law,
          nom.pair_law,
          nom.opt_law,
          nom.terminated_law,
          blanks0 [] s h (Solid-NoBlank s n),
          crlf-Solid s n,
          no_blanks1 s (Solid-NoBlank s n),
        )
        refl
  ofws-blanks (b ∷ w) s h n =
      rw
        (
          nom.map_law,
          nom.opt_law,
          nom.map_law,
          nom.pair_law,
          nom.opt_law,
          nom.terminated_law,
          blanks0 (b ∷ w) s h (Solid-NoBlank s n),
          crlf-Solid s n,
          blanks1 b w s h (Solid-NoBlank s n),
        )
        refl

  -- A line end that is not folded is left.
  pub ofws-line_end : (r : Bytes) → NoBlank r → ofws (codes "\r\n" ++ r) ≡ ok (codes "\r\n" ++ r) []
  unfolding ofws fws crlf
  ofws-line_end r n =
      rw
        (
          nom.map_law,
          nom.opt_law,
          nom.map_law,
          nom.pair_law,
          nom.opt_law,
          nom.terminated_law,
          blanks0 [] (codes "\r\n" ++ r) tt refl,
          tag-append (codes "\r\n") r,
          no_blanks1 r n,
        )
        refl

-- A comment does not come either.
abbrev pub Hard : Bytes → Type 0
Hard [] = Unit {0}
Hard (c ∷ s) = (is_blank c ≡ false) × (c ≢ b'\r') × (c ≢ b'(')

module _ ⦃nom : Nom⦄ where
  Hard-Solid : (s : Bytes) → Hard s → Solid s
  Hard-Solid [] h = tt
  Hard-Solid (c ∷ s) h = (h.0, h.1)

  fws-Solid : (s : Bytes) → Solid s → fws s ≡ err error
  unfolding fws
  fws-Solid s n =
      rw
        (
          nom.map_law,
          nom.pair_law,
          nom.opt_law,
          nom.terminated_law,
          blanks0 [] s tt (Solid-NoBlank s n),
          crlf-Solid s n,
          no_blanks1 s (Solid-NoBlank s n),
        )
        refl

  fws-blanks :
      (b : ℕ) (w s : Bytes) → Every is_blank (b ∷ w) → Solid s → fws (b ∷ (w ++ s)) ≡ ok s (b ∷ w)
  unfolding fws
  fws-blanks b w s h n =
      rw
        (
          nom.map_law,
          nom.pair_law,
          nom.opt_law,
          nom.terminated_law,
          blanks0 (b ∷ w) s h (Solid-NoBlank s n),
          crlf-Solid s n,
          blanks1 b w s h (Solid-NoBlank s n),
        )
        refl

  fws-line_end : (r : Bytes) → NoBlank r → fws (codes "\r\n" ++ r) ≡ err error
  unfolding fws crlf
  fws-line_end r n =
      rw
        (
          nom.map_law,
          nom.pair_law,
          nom.opt_law,
          nom.terminated_law,
          blanks0 [] (codes "\r\n" ++ r) tt refl,
          tag-append (codes "\r\n") r,
          no_blanks1 r n,
        )
        refl

  module _ (P : Utf8Policy) where
    no_comment-nil : comment P [] ≡ err error
    unfolding comment comment_within comment_body
    no_comment-nil = rw (nom.map_law, nom.delimited_law, nom.tag_law) refl

    no_comment-cons : (c : ℕ) (s : Bytes) → c ≢ b'(' → comment P (c ∷ s) ≡ err error
    unfolding comment comment_within comment_body
    no_comment-cons c s n = rw (nom.map_law, nom.delimited_law, nom.tag_law) (ground (arith, n))

    no_comment : (s : Bytes) → Hard s → comment P s ≡ err error
    no_comment [] h = no_comment-nil
    no_comment (c ∷ s) h = no_comment-cons c s h.2

    -- Blanks are all the white space and comments there are.
    pub opt_cfws-blanks :
        (w s : Bytes)
        → Every is_blank w
        → Hard s
        → (o : Option Bytes) × (opt (cfws P) (w ++ s) ≡ ok s o)
    unfolding cfws
    opt_cfws-blanks [] s h n = (
      none,
      rw
          (
            nom.opt_law,
            nom.alt_law,
            nom.recognize_law,
            nom.pair_law,
            nom.many1_law,
            nom.pair_law,
            ofws-blanks [] s tt (Hard-Solid s n),
            no_comment s n,
            nom.recognize_law,
            fws-Solid s (Hard-Solid s n),
          )
          refl,
    )
    opt_cfws-blanks (b ∷ w) s h n = (
      some (consumed (b ∷ (w ++ s)) s),
      rw
          (
            nom.opt_law,
            nom.alt_law,
            nom.recognize_law,
            nom.pair_law,
            nom.many1_law,
            nom.pair_law,
            ofws-blanks (b ∷ w) s h (Hard-Solid s n),
            no_comment s n,
            nom.recognize_law,
            fws-blanks b w s h (Hard-Solid s n),
          )
          refl,
    )

    pub opt_cfws-line_end :
        (r : Bytes)
        → NoBlank r
        → (o : Option Bytes) × (opt (cfws P) (codes "\r\n" ++ r) ≡ ok (codes "\r\n" ++ r) o)
    unfolding cfws
    opt_cfws-line_end r n = (
      none,
      rw
          (
            nom.opt_law,
            nom.alt_law,
            nom.recognize_law,
            nom.pair_law,
            nom.many1_law,
            nom.pair_law,
            ofws-line_end r n,
            no_comment-cons b'\r' (b'\n' ∷ r) (λ no. omega (arith, no)),
            nom.recognize_law,
            fws-line_end r n,
          )
          refl,
    )
