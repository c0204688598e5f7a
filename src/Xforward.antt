-- ===== src/Xforward.antt =====
-- src/xforward.rs: the XFORWARD extension of Postfix.
pub mod Texts
pub mod Complete
pub mod Accepts
use rustyknife.External.{External}
use rustyknife.Nom.{
  Nom, Parser, map, alt, opt, preceded, delimited, separated_pair, tag, tag_no_case, many1,
}
use rustyknife.Prelude.{List, Option, none, some, Bytes, codes}
use rustyknife.Rfc3461.Xtext.{xtext}
use rustyknife.Rfc5234.{wsp, crlf}
use rustyknife.Util.{ascii_to_string, fold_prefix0}

-- `struct Param(pub &'static str, pub Option<String>)`
pub record Param : Type 0 where
  pub name : Bytes
  pub value : Option Bytes

module _ ⦃nom : Nom⦄ where
  unfoldable pub command_name : Parser Bytes
  command_name = alt (map (tag_no_case (codes "addr")) (λ _. codes "addr")) (
      alt (map (tag_no_case (codes "helo")) (λ _. codes "helo")) (
        alt (map (tag_no_case (codes "ident")) (λ _. codes "ident")) (
          alt (map (tag_no_case (codes "name")) (λ _. codes "name")) (
            alt (map (tag_no_case (codes "port")) (λ _. codes "port")) (
              alt (map (tag_no_case (codes "proto")) (λ _. codes "proto"))
                (map (tag_no_case (codes "source")) (λ _. codes "source")))))))

  unfoldable pub unavailable : Parser (Option Bytes)
  unavailable = map (tag_no_case (codes "[unavailable]")) (λ _. none)

  module _ ⦃ext : External⦄ where
    unfoldable pub value : Parser (Option Bytes)
    unfolding unavailable xtext ascii_to_string
    value = alt unavailable (map xtext (λ x. some (ascii_to_string x)))

    unfoldable pub param : Parser Param
    unfolding command_name value
    param =
        map (separated_pair command_name (tag (codes "=")) value)
          (λ (c, v). record { name = c; value = v })

    unfoldable pub xforward_params : Parser (List Param)
    unfolding fold_prefix0 param wsp
    xforward_params = fold_prefix0 (preceded (opt (many1 wsp)) param) (preceded (many1 wsp) param)

    unfoldable pub command : Parser (List Param)
    unfolding xforward_params crlf
    command = delimited (tag_no_case (codes "XFORWARD ")) xforward_params crlf
