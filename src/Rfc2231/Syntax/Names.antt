-- ===== src/Rfc2231/Syntax/Names.antt =====
-- src/rfc2231.rs: names and values of parameters are read from their texts.
use rustyknife.Nom.Rules.{
  Star, none_left, one_more, many0_ok, tag-append, take_while1-run, take_while_m_n-run,
  Every-is_digit, Stops, take1_filter-cons, take1_filter-nil,
}
use rustyknife.Nom.{Nom, ok, err, error, Many, stop, more, alt, is_digit}
use rustyknife.Prelude.{
  ℕ, ◌≡◌, refl, ◌∙◌, true, false, [], ◌∷◌, ◌++◌, Bytes, codes, Every, within, arith, ◌==◌,
}
use rustyknife.Rfc2231.Syntax.Texts.{IsAttribute, IsNumber, OctetText, plain_octet, hex_octet}
use rustyknife.Rfc2231.Syntax.{
  is_attribute_char, digits_value, attribute, attribute_char, initial_section, other_sections,
  equals, ext_octet, extended_other_values,
}
use rustyknife.Rfc3461.Xtext.Spelt.{hexpair-cons}
use rustyknife.Rfc5234.Blanks.{is_blank, NoBlank}
use rustyknife.Rfc5322.Comments.Gaps.{ofws-blanks}
use rustyknife.Rfc5322.Comments.{ofws}

-- What may stand behind a value: nothing, a semicolon or a line end that is not folded.
pub data Behind : Bytes → Type 0 where
  nothing : Behind []
  semicolon : {s : Bytes} → Behind (b';' ∷ s)
  line_end : {r : Bytes} → NoBlank r → Behind (codes "\r\n" ++ r)

not_percent : (c : ℕ) → is_attribute_char c ≡ true → (b'%' == c) ≡ false
not_percent c y = ground (arith, y)

module _ ⦃nom : Nom⦄ where
  pub equals-run :
      (w w' s : Bytes)
      → Every is_blank w
      → ofws (w' ++ s) ≡ ok s w'
      → equals (w ++ (b'=' ∷ (w' ++ s))) ≡ ok s tt
  unfolding equals
  equals-run w w' s h e =
      rw
        (
          nom.map_law,
          nom.pair_law,
          ofws-blanks w (b'=' ∷ (w' ++ s)) h (refl, λ no. cc no),
          nom.pair_law,
          tag-append (codes "=") (w' ++ s),
          e,
        )
        refl

  pub attribute-run :
      (s r : Bytes) → IsAttribute s → Stops is_attribute_char r → attribute (s ++ r) ≡ ok r s
  unfolding attribute
  attribute-run s r (h, ne) st = take_while1-run is_attribute_char s r ne h st

  pub number-run :
      (ds r : Bytes)
      → IsNumber ds
      → Stops (within b'0' b'9') r
      → other_sections (b'*' ∷ (ds ++ r)) ≡ ok r (digits_value 0 ds)
  unfolding other_sections
  number-run [] r h st = absurd h
  number-run (d ∷ ds) r h st =
      rw
        (
          nom.map_law,
          nom.preceded_law,
          nom.tag_law,
          nom.verify_law,
          take_while_m_n-run is_digit 1 8 (d ∷ ds) r (Every-is_digit (d ∷ ds) h.0)
              (digits_stop r st) (omega arith) (omega (arith, h.2)),
        )
        (ground (arith, h.1))
    where
      digits_stop : (r : Bytes) → Stops (within b'0' b'9') r → Stops is_digit r
      digits_stop [] st = tt
      digits_stop (c ∷ r) st = nom.is_digit_law c ∙ st

  pub initial_section-number :
      (ds r : Bytes) → IsNumber ds → initial_section (b'*' ∷ (ds ++ r)) ≡ err error
  unfolding initial_section
  initial_section-number [] r h = absurd h
  initial_section-number (d ∷ ds) r h = rw (nom.map_law, nom.tag_law) (ground (arith, h.1))

  attribute_octet :
      (c : ℕ) (s : Bytes)
      → is_attribute_char c ≡ true
      → alt ext_octet attribute_char (c ∷ s) ≡ ok s c
  unfolding ext_octet attribute_char
  attribute_octet c s y =
      rw (nom.alt_law, nom.preceded_law, nom.tag_law, not_percent c y, take1_filter-cons, y) refl

  Many-octets :
      (t bs r : Bytes)
      → Star OctetText t bs
      → Behind r
      → Many (alt ext_octet attribute_char) (t ++ r) bs r
  unfolding ext_octet attribute_char
  Many-octets _ _ _ none_left nothing =
      stop (rw (nom.alt_law, nom.preceded_law, nom.tag_law, take1_filter-nil) refl)
  Many-octets _ _ _ none_left semicolon =
      stop (rw (nom.alt_law, nom.preceded_law, nom.tag_law, take1_filter-cons) refl)
  Many-octets _ _ _ none_left (line_end n) =
      stop (rw (nom.alt_law, nom.preceded_law, nom.tag_law, take1_filter-cons) refl)
  Many-octets _ _ r (one_more {cs} {as'} (plain_octet {c} y) s) e =
      more (attribute_octet c (cs ++ r) y) (omega arith) (Many-octets cs as' r s e)
  Many-octets _ _ r (one_more {cs} {as'} (hex_octet {a} {b} y z) s) e =
      more (rw (nom.alt_law, nom.preceded_law, nom.tag_law, hexpair-cons, y, z) refl) (omega arith)
        (Many-octets cs as' r s e)

  pub octets-run :
      (t bs r : Bytes) → Star OctetText t bs → Behind r → extended_other_values (t ++ r) ≡ ok r bs
  unfolding extended_other_values
  octets-run t bs r s e = many0_ok _ _ (Many-octets t bs r s e)
