-- ===== src/Rfc2231/Syntax/Sections.antt =====
-- src/rfc2231.rs: names with sections are read, in front of an equals sign.
use rustyknife.Nom.Rules.{Stops, tag-append, take_while-append}
use rustyknife.Nom.{Nom, ok, err, error, tag, opt, is_digit}
use rustyknife.Prelude.{
  ℕ, ◌≡◌, ◌≢◌, refl, ◌∙◌, Bool, false, [], ◌∷◌, ◌++◌, Option, none, some, Bytes, codes, Every,
  within, arith, ◌==◌, Bool-cases, inl, inr,
}
use rustyknife.Rfc2231.Syntax.Texts.{
  IsAttribute, IsNumber, SectionText, whole, first_section, later_section, InitialText,
  whole_parameter, in_sections,
}
use rustyknife.Rfc2231.Syntax.Names.{attribute-run, number-run, initial_section-number}
use rustyknife.Rfc2231.Syntax.{
  is_attribute_char, digits_value, initial_section, other_sections, section, equals,
  regular_parameter_name, extended_initial_name, extended_other_names,
}
use rustyknife.Rfc5234.Blanks.{is_blank}
use rustyknife.Rfc5322.Comments.Gaps.{ofws-blanks}

-- An equals sign comes, with blanks in front.
abbrev pub to_equals : Bytes → Bytes → Bytes
to_equals w s = w ++ (b'=' ∷ s)

Stops-equals :
    (f : ℕ → Bool) (w s : Bytes)
    → f b' ' ≡ false
    → f b'\t' ≡ false
    → f b'=' ≡ false
    → Every is_blank w
    → Stops f (to_equals w s)
Stops-equals f [] s a b c h = c
Stops-equals f (x ∷ w) s a b c h = elim (Bool-cases (x == b' ')) [
  | inl y ↦ let e : x ≡ b' ' = ground (arith, y) in rw e a
  | inr n ↦ let e : x ≡ b'\t' = ground (arith, n, h.0) in rw e b
]

module _ ⦃nom : Nom⦄ where
  tag-Stops : (c : ℕ) (t s : Bytes) → Stops (λ x. c == x) s → tag (c ∷ t) s ≡ err error
  tag-Stops c t [] st = rw nom.tag_law refl
  tag-Stops c t (x ∷ s) st = rw (nom.tag_law, st) refl

  -- No digit comes.
  number-Stops : (s : Bytes) → Stops (within b'0' b'9') s → other_sections (b'*' ∷ s) ≡ err error
  unfolding other_sections
  number-Stops s st =
      rw
        (
          nom.map_law,
          nom.preceded_law,
          nom.tag_law,
          nom.verify_law,
          nom.take_while_m_n_law,
          take_while-append is_digit [] s tt (no_digit s st),
        )
        refl
    where
      no_digit : (s : Bytes) → Stops (within b'0' b'9') s → Stops is_digit s
      no_digit [] st = tt
      no_digit (c ∷ s) st = nom.is_digit_law c ∙ st

  section-run :
      (c : Bytes) (n : Option ℕ) (w s : Bytes)
      → SectionText c n
      → Every is_blank w
      → opt section (c ++ to_equals w s) ≡ ok (to_equals w s) n
  unfolding section initial_section other_sections
  section-run _ _ w s whole h =
      rw
        (
          nom.opt_law,
          nom.alt_law,
          nom.map_law,
          tag-Stops b'*' (codes "0") (to_equals w s) (Stops-equals _ w s refl refl refl h),
          nom.map_law,
          nom.preceded_law,
          tag-Stops b'*' [] (to_equals w s) (Stops-equals _ w s refl refl refl h),
        )
        refl
  section-run _ _ w s first_section h =
      rw (nom.opt_law, nom.alt_law, nom.map_law, tag-append (codes "*0") (to_equals w s)) refl
  section-run _ _ w s (later_section {ds} k) h =
      rw
        (
          nom.opt_law,
          nom.alt_law,
          initial_section-number ds (to_equals w s) k,
          number-run ds (to_equals w s) k (Stops-equals _ w s refl refl refl h),
        )
        refl

  Stops-section :
      (c : Bytes) (n : Option ℕ) (w s : Bytes)
      → SectionText c n
      → Every is_blank w
      → Stops is_attribute_char (c ++ to_equals w s)
  Stops-section _ _ w s whole h = Stops-equals is_attribute_char w s refl refl refl h
  Stops-section _ _ w s first_section h = refl
  Stops-section _ _ w s (later_section _) h = refl

  pub regular_name-run :
      (name c : Bytes) (n : Option ℕ) (w s : Bytes)
      → IsAttribute name
      → SectionText c n
      → Every is_blank w
      → regular_parameter_name (name ++ (c ++ to_equals w s))
        ≡ ok (to_equals w s) (record { section = n; name = name })
  unfolding regular_parameter_name
  regular_name-run name c n w s a t h =
      rw
        (
          nom.map_law,
          nom.pair_law,
          attribute-run name (c ++ to_equals w s) a (Stops-section c n w s t h),
          section-run c n w s t h,
        )
        refl

  -- An equals sign does not come at an asterisk or a digit.
  equals-other :
      (c : ℕ) (s : Bytes)
      → is_blank c ≡ false
      → c ≢ b'\r'
      → (b'=' == c) ≡ false
      → equals (c ∷ s) ≡ err error
  unfolding equals
  equals-other c s b r e =
      rw (nom.map_law, nom.pair_law, ofws-blanks [] (c ∷ s) tt (b, r), nom.pair_law, nom.tag_law, e)
        refl

  -- The asterisk of an extended name, where no section comes with it.
  initial-Stops : (s : Bytes) → Stops (λ x. b'0' == x) s → initial_section (b'*' ∷ s) ≡ err error
  unfolding initial_section
  initial-Stops [] st = rw (nom.map_law, nom.tag_law) refl
  initial-Stops (x ∷ s) st = rw (nom.map_law, nom.tag_law, st) refl

  initial_first : (s : Bytes) → initial_section (codes "*0" ++ s) ≡ ok s 0
  unfolding initial_section
  initial_first s = rw (nom.map_law, tag-append (codes "*0") s) refl

  no_initial : (w s : Bytes) → Every is_blank w → initial_section (b'*' ∷ to_equals w s) ≡ err error
  no_initial w s h = initial-Stops (to_equals w s) (Stops-equals _ w s refl refl refl h)

  no_number : (w s : Bytes) → Every is_blank w → other_sections (b'*' ∷ to_equals w s) ≡ err error
  no_number w s h = number-Stops (to_equals w s) (Stops-equals _ w s refl refl refl h)

  abbrev pub starred : Bytes → Bytes → Bytes
  starred w s = b'*' ∷ to_equals w s

  module _ (name w s : Bytes) (a : IsAttribute name) (h : Every is_blank w) where
    -- The name of an extended parameter is not one of a regular parameter: an asterisk is left.
    pub regular_name-initial :
        (c : Bytes) (n : Option ℕ)
        → InitialText c n
        → regular_parameter_name (name ++ (c ++ starred w s))
          ≡ ok (starred w s) (record { section = n; name = name })
    unfolding regular_parameter_name section
    regular_name-initial _ _ whole_parameter =
        rw
          (
            nom.map_law,
            nom.pair_law,
            attribute-run name (starred w s) a refl,
            nom.opt_law,
            nom.alt_law,
            no_initial w s h,
            no_number w s h,
          )
          refl
    regular_name-initial _ _ in_sections =
        rw
          (
            nom.map_law,
            nom.pair_law,
            attribute-run name (codes "*0" ++ starred w s) a refl,
            nom.opt_law,
            nom.alt_law,
            initial_first (starred w s),
          )
          refl

    pub regular_name-number :
        (ds : Bytes)
        → IsNumber ds
        → regular_parameter_name (name ++ (b'*' ∷ (ds ++ starred w s)))
          ≡ ok (starred w s) (record { section = some (digits_value 0 ds); name = name })
    unfolding regular_parameter_name section
    regular_name-number ds k =
        rw
          (
            nom.map_law,
            nom.pair_law,
            attribute-run name (b'*' ∷ (ds ++ starred w s)) a refl,
            nom.opt_law,
            nom.alt_law,
            initial_section-number ds (starred w s) k,
            number-run ds (starred w s) k refl,
          )
          refl

    pub initial_name-run :
        (c : Bytes) (n : Option ℕ)
        → InitialText c n
        → extended_initial_name (name ++ (c ++ starred w s))
          ≡ ok (to_equals w s) (record { section = n; name = name })
    unfolding extended_initial_name
    initial_name-run _ _ whole_parameter =
        rw
          (
            nom.map_law,
            nom.terminated_law,
            nom.pair_law,
            attribute-run name (starred w s) a refl,
            nom.opt_law,
            no_initial w s h,
            tag-append (codes "*") (to_equals w s),
          )
          refl
    initial_name-run _ _ in_sections =
        rw
          (
            nom.map_law,
            nom.terminated_law,
            nom.pair_law,
            attribute-run name (codes "*0" ++ starred w s) a refl,
            nom.opt_law,
            initial_first (starred w s),
            tag-append (codes "*") (to_equals w s),
          )
          refl

    -- A later section is read as the asterisk of a parameter without sections, with the number left.
    pub initial_name-number :
        (ds : Bytes)
        → IsNumber ds
        → extended_initial_name (name ++ (b'*' ∷ (ds ++ starred w s)))
          ≡ ok (ds ++ starred w s) (record { section = none; name = name })
    unfolding extended_initial_name
    initial_name-number ds k =
        rw
          (
            nom.map_law,
            nom.terminated_law,
            nom.pair_law,
            attribute-run name (b'*' ∷ (ds ++ starred w s)) a refl,
            nom.opt_law,
            initial_section-number ds (starred w s) k,
            tag-append (codes "*") (ds ++ starred w s),
          )
          refl

    pub other_name-run :
        (ds : Bytes)
        → IsNumber ds
        → extended_other_names (name ++ (b'*' ∷ (ds ++ starred w s)))
          ≡ ok (to_equals w s) (record { section = some (digits_value 0 ds); name = name })
    unfolding extended_other_names
    other_name-run ds k =
        rw
          (
            nom.map_law,
            nom.terminated_law,
            nom.pair_law,
            attribute-run name (b'*' ∷ (ds ++ starred w s)) a refl,
            number-run ds (starred w s) k refl,
            tag-append (codes "*") (to_equals w s),
          )
          refl

  pub no_equals-asterisk : (s : Bytes) → equals (b'*' ∷ s) ≡ err error
  no_equals-asterisk s = equals-other b'*' s refl (λ no. cc no) refl

  pub no_equals-number : (ds s : Bytes) → IsNumber ds → equals (ds ++ s) ≡ err error
  no_equals-number [] s k = absurd k
  no_equals-number (d ∷ ds) s k =
      equals-other d (ds ++ s) (ground (arith, k.0.0)) (ground (arith, k.0.0))
        (ground (arith, k.0.0))
