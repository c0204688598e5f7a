-- ===== src/Rfc2231/Syntax.antt =====
-- src/rfc2231.rs: the syntax of parameters.
pub mod Texts
pub mod Names
pub mod Sections
pub mod Parameters
pub mod Complete
use rustyknife.External.{External}
use rustyknife.Nom.{
  Nom, Parser, map, alt, opt, pair, preceded, terminated, separated_pair, tag, take_while1,
  take_while_m_n, many0, verify, recognize, is_digit,
}
use rustyknife.Prelude.{
  ℕ, ◌+◌, ◌-◌, ◌*◌, Bool, ◌&&◌, not, List, [], ◌∷◌, Option, some, Bytes, codes, contains, within,
  ◌==◌,
}
use rustyknife.Rfc3461.Xtext.{hexpair}
use rustyknife.Rfc5234.{crlf}
use rustyknife.Rfc5322.Comments.{ofws}
use rustyknife.Rfc5322.Policy as Imf
use rustyknife.Rfc5322.Words.{quoted_string}
use rustyknife.Util.{take1_filter, first}

-- `enum ExtendedValue`: encoding, language and value
pub data ExtendedValue : Type 0 where
  initial : Option Bytes → Option Bytes → Bytes → ExtendedValue
  other : Bytes → ExtendedValue

pub data Value : Type 0 where
  regular : Bytes → Value
  extended : ExtendedValue → Value

pub record Name : Type 0 where
  pub section : Option ℕ
  pub name : Bytes

pub record Parameter : Type 0 where
  pub name : Name
  pub value : Value

abbrev pub is_token : ℕ → Bool
is_token c = within 33 126 c && not (contains c (codes "()<>@,;:\\\"/[]?="))

abbrev pub is_attribute_char : ℕ → Bool
is_attribute_char c = within 33 126 c && not (contains c (codes "*'%()<>@,;:\\\"/[]?="))

-- `str::parse` of at most eight digits, which fit a `u32`
unfoldable pub digits_value : ℕ → Bytes → ℕ
digits_value acc [] = acc
digits_value acc (c ∷ cs) = digits_value (acc * 10 + (c - b'0')) cs

module _ ⦃nom : Nom⦄ where
  -- `_equals`
  unfoldable pub equals : Parser (Unit {0})
  unfolding ofws
  equals = map (pair ofws (pair (tag (codes "=")) ofws)) (λ _. tt)

  unfoldable pub token : Parser Bytes
  token = take_while1 is_token

  unfoldable pub attribute_char : Parser ℕ
  unfolding take1_filter
  attribute_char = take1_filter is_attribute_char

  unfoldable pub attribute : Parser Bytes
  attribute = take_while1 is_attribute_char

  unfoldable pub initial_section : Parser ℕ
  initial_section = map (tag (codes "*0")) (λ _. 0)

  unfoldable pub other_sections : Parser ℕ
  unfolding digits_value
  other_sections =
      map
        (preceded (tag (codes "*"))
          (verify (take_while_m_n 1 8 is_digit) (λ x. not (first x == b'0'))))
        (digits_value 0)

  unfoldable pub section : Parser ℕ
  unfolding initial_section other_sections
  section = alt initial_section other_sections

  unfoldable pub regular_parameter_name : Parser Name
  unfolding attribute section
  regular_parameter_name =
      map (pair attribute (opt section))
        (λ (name, section). record { section = section; name = name })

  unfoldable pub extended_initial_name : Parser Name
  unfolding attribute initial_section
  extended_initial_name =
      map (terminated (pair attribute (opt initial_section)) (tag (codes "*")))
        (λ (name, section). record { section = section; name = name })

  unfoldable pub extended_other_names : Parser Name
  unfolding attribute other_sections
  extended_other_names =
      map (terminated (pair attribute other_sections) (tag (codes "*")))
        (λ (name, section). record { section = some section; name = name })

  unfoldable pub ext_octet : Parser ℕ
  unfolding hexpair
  ext_octet = preceded (tag (codes "%")) hexpair

  unfoldable pub extended_other_values : Parser Bytes
  unfolding ext_octet attribute_char
  extended_other_values = many0 (alt ext_octet attribute_char)

  unfoldable pub extended_initial_value : Parser ExtendedValue
  unfolding attribute extended_other_values
  extended_initial_value =
      map
        (pair (terminated (opt attribute) (tag (codes "'")))
          (pair (terminated (opt attribute) (tag (codes "'"))) extended_other_values))
        (λ (encoding, more). initial encoding more.0 more.1)

  unfoldable pub extended_parameter : Parser Parameter
  unfolding extended_initial_name equals extended_initial_value extended_other_names
      extended_other_values
  extended_parameter =
      alt
        (map (separated_pair extended_initial_name equals extended_initial_value)
          (λ (name, value). record { name = name; value = extended value }))
        (map (separated_pair extended_other_names equals extended_other_values)
          (λ (name, value). record { name = name; value = extended (other value) }))

  module _ ⦃ext : External⦄ where
    unfoldable pub value : Parser Bytes
    unfolding token quoted_string
    value = alt (map token (λ t. t)) (map (quoted_string Imf.intl) (λ qs. qs))

    unfoldable pub regular_parameter : Parser Parameter
    unfolding regular_parameter_name equals value
    regular_parameter =
        map (separated_pair regular_parameter_name equals value)
          (λ (name, value). record { name = name; value = regular value })

    unfoldable pub parameter : Parser Parameter
    unfolding regular_parameter extended_parameter
    parameter = alt regular_parameter extended_parameter

    -- `_parameter_list`
    unfoldable pub parameter_list : Parser (List Parameter)
    unfolding ofws parameter crlf
    parameter_list =
        terminated (many0 (preceded (pair (tag (codes ";")) ofws) parameter))
          (pair (opt (tag (codes ";"))) (opt crlf))

  -- `_mime_type`
  unfoldable pub mime_type : Parser Bytes
  unfolding token
  mime_type = recognize (pair token (pair (tag (codes "/")) token))
