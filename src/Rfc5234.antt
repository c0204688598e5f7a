-- ===== src/Rfc5234.antt =====
-- src/rfc5234.rs: core rules.
pub mod Blanks
use rustyknife.Nom.{Nom, Parser, map, alt, tag}
use rustyknife.Prelude.{ℕ, Bytes, codes, within}
use rustyknife.Util.{first, take1_filter}

module _ ⦃nom : Nom⦄ where
  sp : Parser Bytes
  sp = tag (codes " ")

  htab : Parser Bytes
  htab = tag (codes "\t")

  unfoldable pub wsp : Parser ℕ
  unfolding sp htab
  wsp = map (alt sp htab) first

  unfoldable pub vchar : Parser ℕ
  unfolding take1_filter
  vchar = take1_filter (within 0x21 0x7e)

  unfoldable pub crlf : Parser Bytes
  crlf = tag (codes "\r\n")
