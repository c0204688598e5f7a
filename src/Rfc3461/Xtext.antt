-- ===== src/Rfc3461/Xtext.antt =====
-- src/rfc3461.rs: xtext.
pub mod Encoded
pub mod Spelt
use rustyknife.Nom.{
  Nom, Parser, map_res, alt, preceded, verify, tag, take_bytes, many0, is_hex_digit,
}
use rustyknife.Prelude.{ℕ, Bool, ◌||◌, Bytes, codes, within, all}
use rustyknife.Prelude.Utf8.{from_hex}
use rustyknife.Util.{take1_filter}

abbrev pub is_xchar : ℕ → Bool
is_xchar c = within 33 42 c || within 44 60 c || within 62 126 c

abbrev pub is_printable : ℕ → Bool
is_printable c = within 9 13 c || within 32 126 c

module _ ⦃nom : Nom⦄ where
  unfoldable pub hexpair : Parser ℕ
  unfolding from_hex
  hexpair = map_res (verify (take_bytes 2) (all is_hex_digit)) from_hex

  unfoldable pub hexchar : Parser ℕ
  unfolding hexpair
  hexchar = preceded (tag (codes "+")) hexpair

  unfoldable pub xchar : Parser ℕ
  unfolding take1_filter
  xchar = take1_filter is_xchar

  unfoldable pub xtext : Parser Bytes
  unfolding xchar hexchar
  xtext = many0 (alt xchar hexchar)

  unfoldable pub printable_xtext : Parser Bytes
  unfolding xtext
  printable_xtext = verify xtext (all is_printable)
