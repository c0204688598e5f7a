-- ===== src/Rfc3461/Orcpt/Encoded.antt =====
-- src/rfc3461.rs: the value of ORCPT is read back from its encoding.
use rustyknife.External.{External}
use rustyknife.Nom.Rules.{many0_ok, recognize_many1-run}
use rustyknife.Nom.{Nom, ok, err, error, stop}
use rustyknife.Prelude.{
  ℕ, ◌||◌, ◌≡◌, refl, Bool, true, false, [], ◌∷◌, ◌++◌, Bytes, Every, all, arith, ltb,
  if◌then◌else◌, within,
}
use rustyknife.Rfc3461.Orcpt.{orcpt_address}
use rustyknife.Rfc3461.Xtext.Encoded.{encode, EndsText, xtext-encode}
use rustyknife.Rfc3461.Xtext.{is_printable, printable_xtext}
use rustyknife.Rfc5234.{wsp, crlf}
use rustyknife.Rfc5322.Comments.{fws, ofws, comment, comment_within, comment_body, cfws}
use rustyknife.Rfc5322.Policy.{legacy, is_atext}
use rustyknife.Rfc5322.Words.{atom}
use rustyknife.Util.Ascii.{ascii_to_string-class}
use rustyknife.Util.{recognize_many0, recognize_many1}

-- No white space, line end or comment starts with the byte.
abbrev pub is_solid : ℕ → Bool
is_solid c = within 33 39 c || within 41 126 c

module _ ⦃nom : Nom⦄ where
  wsp-solid : (c : ℕ) (s : Bytes) → is_solid c ≡ true → wsp (c ∷ s) ≡ err error
  unfolding wsp
  wsp-solid c s h = simp (nom.map_law, nom.alt_law, nom.tag_law) (ground (arith, h))

  crlf-solid : (c : ℕ) (s : Bytes) → is_solid c ≡ true → crlf (c ∷ s) ≡ err error
  unfolding crlf
  crlf-solid c s h = rw nom.tag_law (ground (arith, h))

  fws-solid : (c : ℕ) (s : Bytes) → is_solid c ≡ true → fws (c ∷ s) ≡ err error
  unfolding fws recognize_many0 recognize_many1
  fws-solid c s h =
      rw
        (
          nom.map_law,
          nom.pair_law,
          nom.opt_law,
          nom.terminated_law,
          nom.recognize_law,
          nom.fold_many0_law,
          many0_ok wsp (c ∷ s) (stop (wsp-solid c s h)),
          crlf-solid c s h,
          nom.recognize_law,
          nom.fold_many1_law,
          nom.many1_law,
          wsp-solid c s h,
        )
        refl

  ofws-solid : (c : ℕ) (s : Bytes) → is_solid c ≡ true → ofws (c ∷ s) ≡ ok (c ∷ s) []
  unfolding ofws
  ofws-solid c s h = rw (nom.map_law, nom.opt_law, fws-solid c s h) refl

  comment-solid : (c : ℕ) (s : Bytes) → is_solid c ≡ true → comment legacy (c ∷ s) ≡ err error
  unfolding comment comment_within comment_body
  comment-solid c s h = rw (nom.map_law, nom.delimited_law, nom.tag_law) (ground (arith, h))

  cfws-solid : (c : ℕ) (s : Bytes) → is_solid c ≡ true → cfws legacy (c ∷ s) ≡ err error
  unfolding cfws
  cfws-solid c s h =
      rw
        (
          nom.alt_law,
          nom.recognize_law,
          nom.pair_law,
          nom.many1_law,
          nom.pair_law,
          ofws-solid c s h,
          comment-solid c s h,
          nom.recognize_law,
          fws-solid c s h,
        )
        refl

  atom-solid :
      (c : ℕ) (cs : Bytes) (d : ℕ) (r : Bytes)
      → Every is_atext (c ∷ cs)
      → is_atext d ≡ false
      → is_solid d ≡ true
      → atom legacy (c ∷ (cs ++ d ∷ r)) ≡ ok (d ∷ r) (c ∷ cs)
  unfolding atom legacy
  atom-solid c cs d r h st solid =
      rw
        (
          nom.delimited_law,
          nom.opt_law,
          cfws-solid c (cs ++ d ∷ r) (ground (arith, h.0)),
          recognize_many1-run is_atext c cs (d ∷ r) h st,
          nom.opt_law,
          cfws-solid d r solid,
        )
        refl

  module _ ⦃ext : External⦄ where
    printable_xtext-encode :
        (s r : Bytes) → Every is_printable s → EndsText r → printable_xtext (encode s ++ r) ≡ ok r s
    unfolding printable_xtext
    printable_xtext-encode s r h e =
        rw (nom.verify_law, xtext-encode s r (bytes_below s h) e, all_printable s h, if◌then◌else◌)
          refl
      where
        bytes_below : (s : Bytes) → Every is_printable s → Every (λ c. ltb c 256) s
        bytes_below [] h = tt
        bytes_below (c ∷ s) h = (ground (arith, h.0), bytes_below s h.1)

        all_printable : (s : Bytes) → Every is_printable s → all is_printable s ≡ true
        all_printable [] h = refl
        all_printable (c ∷ s) h = rw (h.0, all_printable s h.1) refl

    -- The value of ORCPT is read back: an address type, which is an atom, a semicolon, and a printable
    -- address in the encoding of RFC 3461, if what follows does not go on with the encoded address.
    pub orcpt_address-encode :
        (c : ℕ) (cs address r : Bytes)
        → Every is_atext (c ∷ cs)
        → Every is_printable address
        → EndsText r
        → orcpt_address ((c ∷ cs) ++ b';' ∷ (encode address ++ r)) ≡ ok r (c ∷ cs, address)
    unfolding orcpt_address
    orcpt_address-encode c cs address r hc ha e =
        rw
          (
            nom.map_law,
            nom.separated_pair_law,
            atom-solid c cs b';' (encode address ++ r) hc refl refl,
            nom.tag_law,
            printable_xtext-encode address r ha e,
            ascii_to_string-class is_atext (λ c y. ground (arith, y)) (c ∷ cs) hc,
            ascii_to_string-class is_printable (λ c y. ground (arith, y)) address ha,
          )
          refl
