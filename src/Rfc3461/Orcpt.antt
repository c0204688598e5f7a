-- ===== src/Rfc3461/Orcpt.antt =====
-- src/rfc3461.rs: the ORCPT parameter.
pub mod Encoded
use rustyknife.External.{External}
use rustyknife.Nom.{Nom, Parser, map, separated_pair, tag}
use rustyknife.Prelude.{Bytes, codes}
use rustyknife.Rfc3461.Xtext.{printable_xtext}
use rustyknife.Rfc5322.Policy.{legacy}
use rustyknife.Rfc5322.Words.{atom}
use rustyknife.Util.{ascii_to_string}

module _ ⦃nom : Nom⦄ ⦃ext : External⦄ where
  unfoldable pub orcpt_address : Parser (Bytes × Bytes)
  unfolding atom legacy printable_xtext ascii_to_string
  orcpt_address =
      map (separated_pair (atom legacy) (tag (codes ";")) printable_xtext)
        (λ (a, b). (ascii_to_string a, ascii_to_string b))
