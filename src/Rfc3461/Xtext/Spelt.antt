-- ===== src/Rfc3461/Xtext/Spelt.antt =====
-- src/rfc3461.rs: the texts that xtext reads.
use rustyknife.Nom.Rules.{
  Sound, Reads-ok, Both, OneOf, Star, none_left, one_more, Literal, Sound-weaken, Sound-alt,
  Sound-preceded, Sound-tag, Sound-many0, Sound-take1_filter, many0_ok, take1_filter-cons,
  take1_filter-nil,
}
use rustyknife.Nom.{Nom, ok, err, error, Many, stop, more, alt}
use rustyknife.Prelude.{
  ℕ, suc, ◌||◌, ◌+◌, ◌*◌, ◌≡◌, ◌⊎◌, ◌<◌, refl, Bool, true, [], ◌∷◌, ◌++◌, Bytes, codes, within,
  arith, inl, inr, not_ltb, length, if◌then◌else◌, Bool-cases,
}
use rustyknife.Prelude.Utf8.{from_hex, hex_value}
use rustyknife.Rfc3461.Xtext.Encoded.{EndsText}
use rustyknife.Rfc3461.Xtext.{is_xchar, hexpair, hexchar, xchar, xtext}

abbrev pub is_hex : ℕ → Bool
is_hex c = within b'0' b'9' c || within b'A' b'F' c || within b'a' b'f' c

-- A byte stands for itself, or is a plus sign and the two digits of its number.
pub data XtextByte : Bytes → ℕ → Type 0 where
  plain : {c : ℕ} → is_xchar c ≡ true → XtextByte (c ∷ []) c
  escaped :
      {a b : ℕ}
      → is_hex a ≡ true
      → is_hex b ≡ true
      → XtextByte (b'+' ∷ a ∷ b ∷ []) (hex_value a * 16 + hex_value b)

module _ ⦃nom : Nom⦄ where
  pub hexpair-cons :
      (a b : ℕ) (s : Bytes)
      → hexpair (a ∷ b ∷ s) ≡ (
          if is_hex a
          then (if is_hex b then ok s (hex_value a * 16 + hex_value b) else err error)
          else err error)
  unfolding hexpair from_hex
  hexpair-cons a b s =
      rw
        (
          nom.map_res_law,
          nom.verify_law,
          nom.take_bytes_law,
          not_ltb (suc (suc (length s))) 2 (omega arith),
          nom.is_hex_digit_law a,
          nom.is_hex_digit_law b,
        )
        (elim (Bool-cases (is_hex a)) [
          | inl y ↦ elim (Bool-cases (is_hex b)) [ inl z ↦ rw (y, z) refl | inr z ↦ rw (y, z) refl ]
          | inr n ↦ rw n refl
        ])

  too_short : (i : Bytes) → length i < 2 → hexpair i ≡ err error
  unfolding hexpair
  too_short i h = rw (nom.map_res_law, nom.verify_law, nom.take_bytes_law) (ground (arith, h))

  Sound-hexpair : Sound hexpair (λ c n. XtextByte (b'+' ∷ c) n)
  Sound-hexpair [] r n e = absurd (cc (e, too_short [] (omega arith)))
  Sound-hexpair (a ∷ []) r n e = absurd (cc (e, too_short (a ∷ []) (omega arith)))
  Sound-hexpair (a ∷ b ∷ s) r n e = elim (Bool-cases (is_hex a)) [
    | inl y ↦ elim (Bool-cases (is_hex b)) [
      | inl z ↦
          Reads-ok (record { text = a ∷ b ∷ []; splits = refl; spells = escaped y z })
            (rw (hexpair-cons, y, z, if◌then◌else◌) at e)
      | inr z ↦ absurd (cc (rw (hexpair-cons, y, z, if◌then◌else◌) at e))
    ]
    | inr y ↦ absurd (cc (rw (hexpair-cons, y, if◌then◌else◌) at e))
  ]

  pub Sound-xtext : Sound xtext (Star XtextByte)
  unfolding xtext hexchar xchar
  Sound-xtext = Sound-many0 _ (
      Sound-weaken _
        (Sound-alt _ _ (Sound-take1_filter is_xchar)
          (Sound-preceded _ _ (Sound-tag (codes "+")) Sound-hexpair))
        spelt)
    where
      spelt :
          (c : Bytes) (n : ℕ)
          → OneOf is_xchar c n
            ⊎ ((p : Bytes) × Both (Literal (codes "+")) (λ c n. XtextByte (b'+' ∷ c) n) c p n)
          → XtextByte c n
      spelt c n (inl (e, y)) = rw e (plain y)
      spelt c n (inr (p, b)) = rw (b.joined, b.left_spells.0) b.right_spells

  Many-xtext :
      (t bs r : Bytes) → Star XtextByte t bs → EndsText r → Many (alt xchar hexchar) (t ++ r) bs r
  unfolding xchar hexchar
  Many-xtext _ _ [] none_left e =
      stop (rw (nom.alt_law, take1_filter-nil, nom.preceded_law, nom.tag_law) refl)
  Many-xtext _ _ (c ∷ r) none_left e = stop (
      rw (nom.alt_law, take1_filter-cons, e.0, nom.preceded_law, nom.tag_law) (ground (arith, e.1)))
  Many-xtext _ _ r (one_more {cs} {as'} (plain y) s) e =
      more (rw (nom.alt_law, take1_filter-cons, y) refl) (omega arith) (Many-xtext cs as' r s e)
  Many-xtext _ _ r (one_more {cs} {as'} (escaped {a} {b} y z) s) e =
      more
        (rw (nom.alt_law, take1_filter-cons, nom.preceded_law, nom.tag_law)
          (rw (hexpair-cons, y, z) refl))
        (omega arith) (Many-xtext cs as' r s e)

  pub xtext-Star : (t bs r : Bytes) → Star XtextByte t bs → EndsText r → xtext (t ++ r) ≡ ok r bs
  unfolding xtext
  xtext-Star t bs r s e = many0_ok _ _ (Many-xtext t bs r s e)
