-- ===== src/Rfc2231/Syntax/Parameters.antt =====
-- src/rfc2231.rs: parameters are read from their texts.
use rustyknife.External.{External}
use rustyknife.Nom.Rules.{Star, none_left, one_more, tag-append, take_while1-run, Stops}
use rustyknife.Nom.{Nom, ok, err, error, tag, opt, terminated}
use rustyknife.Prelude.{
  ◌≡◌, refl, [], ◌∷◌, ◌++◌, Option, none, some, Bytes, codes, arith, append_assoc,
}
use rustyknife.Rfc2231.Syntax.Names.{
  Behind, nothing, semicolon, line_end, equals-run, octets-run, attribute-run,
}
use rustyknife.Rfc2231.Syntax.Sections.{
  to_equals, starred, regular_name-run, regular_name-initial, regular_name-number, initial_name-run,
  initial_name-number, other_name-run, no_equals-asterisk, no_equals-number,
}
use rustyknife.Rfc2231.Syntax.Texts.{
  IsAttribute, IsToken, OctetText, plain_octet, hex_octet, LabelText, ParameterText, regular_text,
  initial_text, later_text,
}
use rustyknife.Rfc2231.Syntax.{
  initial, Parameter, is_token, is_attribute_char, token, attribute, value, extended_initial_value,
  regular_parameter, extended_parameter, parameter,
}
use rustyknife.Rfc5322.Comments.Gaps.{Solid, ofws-blanks, ofws-line_end}
use rustyknife.Rfc5322.Comments.{ofws}

pub Behind-token : {s : Bytes} → Behind s → Stops is_token s
Behind-token nothing = tt
Behind-token semicolon = refl
Behind-token (line_end n) = refl

pub Solid-token : (v s : Bytes) → IsToken v → Solid (v ++ s)
Solid-token [] s k = absurd (k.1 refl)
Solid-token (c ∷ v) s k = (ground (arith, k.0.0), ground (arith, k.0.0))

Solid-attribute : (v s : Bytes) → IsAttribute v → Solid (v ++ s)
Solid-attribute [] s k = absurd (k.1 refl)
Solid-attribute (c ∷ v) s k = (ground (arith, k.0.0), ground (arith, k.0.0))

-- A parameter starts with its name.
pub Solid-parameter : {c : Bytes} {p : Parameter} (s : Bytes) → ParameterText c p → Solid (c ++ s)
Solid-parameter s (regular_text name section w w' v n a t h h' k) =
    rw append_assoc (Solid-attribute name _ a)
Solid-parameter s
      (initial_text name section w charset language octets v n encoding lang a t h c l o) =
    rw append_assoc (Solid-attribute name _ a)
Solid-parameter s (later_text name digits w octets v a k h o) =
    rw append_assoc (Solid-attribute name _ a)

module _ ⦃nom : Nom⦄ where
  -- Nothing is skipped behind an equals sign and in front of a value, even where it is empty.
  pub ofws-Behind : {s : Bytes} → Behind s → ofws s ≡ ok s []
  ofws-Behind nothing = ofws-blanks [] [] tt tt
  ofws-Behind (semicolon {s}) = ofws-blanks [] (b';' ∷ s) tt (refl, λ no. cc no)
  ofws-Behind (line_end {r} n) = ofws-line_end r n

  ofws-octets : (t bs s : Bytes) → Star OctetText t bs → Behind s → ofws (t ++ s) ≡ ok (t ++ s) []
  ofws-octets _ _ s none_left e = ofws-Behind e
  ofws-octets _ _ s (one_more {cs} (plain_octet {c} y) _) e =
      ofws-blanks [] (c ∷ (cs ++ s)) tt (ground (arith, y), ground (arith, y))
  ofws-octets _ _ s (one_more {cs} (hex_octet {a} {b} y z) _) e =
      ofws-blanks [] (b'%' ∷ a ∷ b ∷ (cs ++ s)) tt (refl, λ no. cc no)

  pub attribute-Stops : (s : Bytes) → Stops is_attribute_char s → attribute s ≡ err error
  unfolding attribute
  attribute-Stops [] st = rw nom.take_while1_law refl
  attribute-Stops (c ∷ s) st = rw (nom.take_while1_law, st) refl

  label-run :
      (c s : Bytes) (o : Option Bytes)
      → LabelText c o
      → terminated (opt attribute) (tag (codes "'")) (c ++ (b'\'' ∷ s)) ≡ ok s o
  label-run c s none e =
      rw
        (
          e,
          nom.terminated_law,
          nom.opt_law,
          attribute-Stops (b'\'' ∷ s) refl,
          tag-append (codes "'") s,
        )
        refl
  label-run c s (some label) (e, a) =
      rw
        (
          e,
          nom.terminated_law,
          nom.opt_law,
          attribute-run label (b'\'' ∷ s) a refl,
          tag-append (codes "'") s,
        )
        refl

  ofws-label :
      (c s : Bytes) (o : Option Bytes)
      → LabelText c o
      → ofws (c ++ (b'\'' ∷ s)) ≡ ok (c ++ (b'\'' ∷ s)) []
  ofws-label c s none e = rw e (ofws-blanks [] (b'\'' ∷ s) tt (refl, λ no. cc no))
  ofws-label c s (some label) (e, a) =
      rw e (ofws-blanks [] (label ++ (b'\'' ∷ s)) tt (Solid-attribute label (b'\'' ∷ s) a))

  initial_value-run :
      (c l t bs s : Bytes) (e o : Option Bytes)
      → LabelText c e
      → LabelText l o
      → Star OctetText t bs
      → Behind s
      → extended_initial_value (c ++ (b'\'' ∷ (l ++ (b'\'' ∷ (t ++ s))))) ≡ ok s (initial e o bs)
  unfolding extended_initial_value
  initial_value-run c l t bs s e o he ho ht b =
      rw
        (
          nom.map_law,
          nom.pair_law,
          label-run c (l ++ (b'\'' ∷ (t ++ s))) e he,
          nom.pair_law,
          label-run l (t ++ s) o ho,
          octets-run t bs s ht b,
        )
        refl

  module _ ⦃ext : External⦄ where
    value-token : (v s : Bytes) → IsToken v → Stops is_token s → value (v ++ s) ≡ ok s v
    unfolding value token
    value-token v s (h, ne) st =
        rw (nom.alt_law, nom.map_law, take_while1-run is_token v s ne h st) refl

    pub parameter-run :
        {c : Bytes} {p : Parameter} (s : Bytes)
        → ParameterText c p
        → Behind s
        → parameter (c ++ s) ≡ ok s p
    unfolding parameter regular_parameter extended_parameter
    parameter-run s (regular_text name section w w' v n a t h h' k) b =
        rw
          (
            append_assoc,
            append_assoc,
            append_assoc,
            append_assoc,
            nom.alt_law,
            nom.map_law,
            nom.separated_pair_law,
            regular_name-run name section n w (w' ++ (v ++ s)) a t h,
            equals-run w w' (v ++ s) h (ofws-blanks w' (v ++ s) h' (Solid-token v s k)),
            value-token v s k (Behind-token b),
          )
          refl
    parameter-run s
          (initial_text name section w charset language octets v n encoding lang a t h c l o) b =
        let x = charset ++ (b'\'' ∷ (language ++ (b'\'' ∷ (octets ++ s)))) in
        rw
          (
            append_assoc,
            append_assoc,
            append_assoc,
            append_assoc,
            append_assoc,
            nom.alt_law,
            nom.map_law,
            nom.separated_pair_law,
            regular_name-initial name w x a h section n t,
            no_equals-asterisk (to_equals w x),
            nom.alt_law,
            nom.map_law,
            nom.separated_pair_law,
            initial_name-run name w x a h section n t,
            equals-run w [] x h (ofws-label charset _ encoding c),
            initial_value-run charset language octets v s encoding lang c l o b,
          )
          refl
    parameter-run s (later_text name digits w octets v a k h o) b =
        let x = octets ++ s in
        rw
          (
            append_assoc,
            append_assoc,
            append_assoc,
            nom.alt_law,
            nom.map_law,
            nom.separated_pair_law,
            regular_name-number name w x a h digits k,
            no_equals-asterisk (to_equals w x),
            nom.alt_law,
            nom.map_law,
            nom.separated_pair_law,
            initial_name-number name w x a h digits k,
            no_equals-number digits (starred w x) k,
            nom.map_law,
            nom.separated_pair_law,
            other_name-run name w x a h digits k,
            equals-run w [] x h (ofws-octets octets v s o b),
            octets-run octets v s o b,
          )
          refl
