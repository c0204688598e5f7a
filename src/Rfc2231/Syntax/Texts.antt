-- ===== src/Rfc2231/Syntax/Texts.antt =====
-- src/rfc2231.rs: texts of parameters, without quoted strings, folding and comments.
use rustyknife.Nom.Rules.{Star}
use rustyknife.Prelude.{
  ℕ, ◌+◌, ◌*◌, ◌≡◌, ◌≢◌, ◌≤◌, true, [], ◌∷◌, ◌++◌, Option, none, some, Bytes, codes, Every, within,
  length,
}
use rustyknife.Prelude.Utf8.{hex_value}
use rustyknife.Rfc2231.Syntax.{
  initial, other, regular, extended, Parameter, is_token, is_attribute_char, digits_value,
}
use rustyknife.Rfc3461.Xtext.Spelt.{is_hex}
use rustyknife.Rfc5234.Blanks.{is_blank, NoBlank}

abbrev pub IsAttribute : Bytes → Type 0
IsAttribute s = Every is_attribute_char s × (s ≢ [])

abbrev pub IsToken : Bytes → Type 0
IsToken s = Every is_token s × (s ≢ [])

-- One to eight digits, without a zero in front.
abbrev pub IsNumber : Bytes → Type 0
IsNumber [] = ⊥
IsNumber (d ∷ ds) = Every (within b'0' b'9') (d ∷ ds) × (d ≢ b'0') × (length ds ≤ 7)

-- The section of a parameter: the first one is `*0`.
pub data SectionText : Bytes → Option ℕ → Type 0 where
  whole : SectionText [] none
  first_section : SectionText (codes "*0") (some 0)
  later_section : {ds : Bytes} → IsNumber ds → SectionText (b'*' ∷ ds) (some (digits_value 0 ds))

-- No section, or the first one.
pub data InitialText : Bytes → Option ℕ → Type 0 where
  whole_parameter : InitialText [] none
  in_sections : InitialText (codes "*0") (some 0)

-- A byte of an extended value.
pub data OctetText : Bytes → ℕ → Type 0 where
  plain_octet : {c : ℕ} → is_attribute_char c ≡ true → OctetText (c ∷ []) c
  hex_octet :
      {a b : ℕ}
      → is_hex a ≡ true
      → is_hex b ≡ true
      → OctetText (b'%' ∷ a ∷ b ∷ []) (hex_value a * 16 + hex_value b)

-- A charset or a language may be left out.
abbrev pub LabelText : Bytes → Option Bytes → Type 0
LabelText c none = c ≡ []
LabelText c (some label) = (c ≡ label) × IsAttribute label

-- The equals sign, between blanks, of an extended parameter stands behind an asterisk.
abbrev pub extended_name : Bytes → Bytes → Bytes → Bytes → Bytes
extended_name name section w value = name ++ (section ++ (b'*' ∷ (w ++ (b'=' ∷ value))))

pub data ParameterText : Bytes → Parameter → Type 0 where
  regular_text :
      (name section w w' value : Bytes) (n : Option ℕ)
      → IsAttribute name
      → SectionText section n
      → Every is_blank w
      → Every is_blank w'
      → IsToken value
      → ParameterText
          (name ++ (section ++ (w ++ (b'=' ∷ (w' ++ value)))))
          (record { name = record { section = n; name = name }; value = regular value })
  initial_text :
      (name section w charset language octets value : Bytes) (n : Option ℕ)
      (encoding lang : Option Bytes)
      → IsAttribute name
      → InitialText section n
      → Every is_blank w
      → LabelText charset encoding
      → LabelText language lang
      → Star OctetText octets value
      → ParameterText
          (extended_name name section w (charset ++ (b'\'' ∷ (language ++ (b'\'' ∷ octets)))))
          (record {
            name = record { section = n; name = name };
            value = extended (initial encoding lang value);
          })
  later_text :
      (name digits w octets value : Bytes)
      → IsAttribute name
      → IsNumber digits
      → Every is_blank w
      → Star OctetText octets value
      → ParameterText (extended_name name (b'*' ∷ digits) w octets) (record {
        name = record { section = some (digits_value 0 digits); name = name };
        value = extended (other value);
      })

-- A semicolon, blanks and a parameter.
pub record ItemText (c : Bytes) (p : Parameter) : Type 0 where
  pub blanks : Bytes
  pub parameter_text : Bytes
  pub splits : c ≡ b';' ∷ (blanks ++ parameter_text)
  pub blank : Every is_blank blanks
  pub spells : ParameterText parameter_text p

-- What ends a list of parameters, and what is behind that: nothing, or a line end that is not folded;
-- a semicolon may stand in front.
pub data EndText : Bytes → Bytes → Type 0 where
  at_end : EndText [] []
  at_line_end : {r : Bytes} → NoBlank r → EndText (codes "\r\n" ++ r) r
  semicolon_at_end : EndText (codes ";") []
  semicolon_at_line_end : {r : Bytes} → NoBlank r → EndText (codes ";\r\n" ++ r) r
