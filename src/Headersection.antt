-- ===== src/Headersection.antt =====
-- src/headersection.rs: splits the header section off a message. The `tag`, `take_while1` and
-- `take_until` of this module are nom's streaming ones.
pub mod Lossless
pub mod OneLine
pub mod Words
pub mod Streaming
pub mod Decided
pub mod Complete
use rustyknife.Nom.{
  Nom, Parser, map, map_opt, alt, opt, pair, terminated, separated_pair, recognize, many0, many1,
}
use rustyknife.Prelude.{
  ℕ, Bool, ◌||◌, List, [], ◌∷◌, ◌++◌, Option, none, some, Bytes, codes, within,
}
use rustyknife.Util.{first, take1_filter, recognize_many0, recognize_many1}

-- `HeaderField`: a name and a value, or an invalid line
pub data HeaderField : Type 0 where
  valid : Bytes → Bytes → HeaderField
  invalid : Bytes → HeaderField

abbrev pub is_field_name : ℕ → Bool
is_field_name c = within 33 57 c || within 59 126 c

-- The text of `fws`: what stands before the line end, if there is one, and behind it.
abbrev pub fws_text : Option Bytes × Bytes → Bytes
fws_text (some a, b) = a ++ b
fws_text (none, b) = b

abbrev pub text_or_empty : Option Bytes → Bytes
text_or_empty none = []
text_or_empty (some s) = s

abbrev pub not_empty : Bytes → Option Bytes
not_empty [] = none
not_empty (c ∷ cs) = some (c ∷ cs)

module _ ⦃nom : Nom⦄ where
  sp : Parser Bytes
  sp = nom.streaming_tag (codes " ")

  htab : Parser Bytes
  htab = nom.streaming_tag (codes "\t")

  unfoldable pub wsp : Parser ℕ
  unfolding sp htab
  wsp = map (alt sp htab) first

  unfoldable pub vchar : Parser ℕ
  unfolding take1_filter
  vchar = take1_filter (within 0x21 0x7e)

  unfoldable pub crlf : Parser Bytes
  crlf = nom.streaming_tag (codes "\r\n")

  unfoldable pub fws : Parser Bytes
  unfolding recognize_many0 recognize_many1 wsp crlf
  fws = map (pair (opt (terminated (recognize_many0 wsp) crlf)) (recognize_many1 wsp)) fws_text

  unfoldable pub ofws : Parser Bytes
  unfolding fws
  ofws = map (opt fws) text_or_empty

  unfoldable pub field_name : Parser Bytes
  field_name = nom.streaming_take_while1 is_field_name

  unfoldable pub until_crlf : Parser Bytes
  until_crlf = map_opt (nom.streaming_take_until (codes "\r\n")) not_empty

  unfoldable pub unstructured : Parser Bytes
  unfolding ofws vchar until_crlf wsp
  unstructured =
      recognize (pair (many0 (pair ofws (alt (recognize (many1 vchar)) until_crlf))) (many0 wsp))

  unfoldable pub field : Parser HeaderField
  unfolding field_name unstructured crlf
  field =
      map (terminated (separated_pair field_name (nom.streaming_tag (codes ":")) unstructured) crlf)
        (λ (name, value). valid name value)

  unfoldable pub invalid_field : Parser HeaderField
  unfolding until_crlf crlf
  invalid_field = map (terminated until_crlf crlf) invalid

  unfoldable pub header_section : Parser (List HeaderField)
  unfolding field invalid_field crlf
  header_section = terminated (many0 (alt field invalid_field)) (opt crlf)

  unfoldable pub header : Parser (Option HeaderField)
  unfolding field invalid_field crlf
  header = alt (map (alt field invalid_field) some) (map crlf (λ _. none))
