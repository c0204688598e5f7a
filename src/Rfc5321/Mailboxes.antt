-- ===== src/Rfc5321/Mailboxes.antt =====
-- src/rfc5321.rs: domains, local parts, address literals and mailboxes.
pub mod Quoted
pub mod Texts
pub mod RoundTrip
pub mod LegacyTexts
pub mod IntlTexts
pub mod Dotted
pub mod DottedRead
pub mod IntlRead
pub mod LiteralsRead
pub mod Unquote
pub mod Octets
use rustyknife.External.{External}
use rustyknife.Nom.{
  Nom, Parser, map, map_res, alt, pair, preceded, delimited, separated_pair, recognize, tag,
  tag_no_case, many0, many_m_n, take_while1, take_while_m_n, is_digit, is_hex_digit, exact, ok, err,
}
use rustyknife.Prelude.{
  ℕ, Bool, true, false, ◌||◌, List, [], ◌∷◌, Option, none, some, Bytes, codes, within, ◌==◌,
}
use rustyknife.Prelude.Utf8.{collect, parse_uint}
use rustyknife.Rfc5321.Policy.{Utf8Policy, ldh_str}
use rustyknife.Types.{
  Domain, DotAtom, QuotedString, LocalPart, v4, v6, AddressLiteral, ip, tagged, free_form,
  DomainPart, address, Mailbox,
}
use rustyknife.Util.{take1_filter, recognize_many1, fold_prefix0}

-- `b[i]`; the parsers index a vector of three
abbrev pub nth : List ℕ → ℕ → ℕ
nth [] i = 0
nth (b ∷ bs) i = elim i [ ℕ.zero ↦ b | ℕ.suc j ↦ nth bs j ]

abbrev pub is_dcontent : ℕ → Bool
is_dcontent c = within 33 90 c || within 94 126 c

module _ ⦃nom : Nom⦄ where
  module _ (P : Utf8Policy) where
    unfoldable pub domain : Parser Domain
    domain =
        map (recognize (pair P.sub_domain (many0 (pair (tag (codes ".")) P.sub_domain)))) (λ d. d)

    unfoldable pub at_domain : Parser Domain
    unfolding domain
    at_domain = preceded (tag (codes "@")) domain

    unfoldable pub a_d_l : Parser (List Domain)
    unfolding fold_prefix0 at_domain
    a_d_l = fold_prefix0 at_domain (preceded (tag (codes ",")) at_domain)

    unfoldable pub atom : Parser Bytes
    unfolding recognize_many1
    atom = recognize_many1 P.atext

    unfoldable pub dot_string : Parser DotAtom
    unfolding atom
    dot_string = map (recognize (pair atom (many0 (pair (tag (codes ".")) atom)))) (λ a. a)

  unfoldable pub quoted_pair_smtp : Parser ℕ
  unfolding take1_filter
  quoted_pair_smtp = preceded (tag (codes "\\")) (take1_filter (within 32 126))

  module _ (P : Utf8Policy) where
    unfoldable pub qcontent_smtp : Parser ℕ
    unfolding quoted_pair_smtp
    qcontent_smtp = alt P.qtext_smtp quoted_pair_smtp

    unfoldable pub quoted_string : Parser QuotedString
    unfolding qcontent_smtp
    quoted_string =
        map (delimited (tag (codes "\"")) (many0 qcontent_smtp) (tag (codes "\""))) collect

    unfoldable pub local_part : Parser LocalPart
    unfolding dot_string quoted_string
    local_part = alt (map (dot_string P) LocalPart.dot_atom) (map quoted_string LocalPart.quoted)

  unfoldable pub ip_int : Parser ℕ
  unfolding parse_uint
  ip_int = map_res (take_while_m_n 1 3 is_digit) (parse_uint 0x100)

  unfoldable pub ipv4_literal : Parser AddressLiteral
  unfolding ip_int
  ipv4_literal =
      map (pair ip_int (many_m_n 3 3 (preceded (tag (codes ".")) ip_int)))
        (λ (a, b). ip (v4 a (nth b 0) (nth b 1) (nth b 2)))

  unfoldable pub general_address_literal : Parser AddressLiteral
  unfolding ldh_str take1_filter recognize_many1
  general_address_literal =
      map (separated_pair ldh_str (tag (codes ":")) (recognize_many1 (take1_filter is_dcontent)))
        (λ (tag_part, value). tagged tag_part value)

  module _ ⦃ext : External⦄ where
    unfoldable pub ipv6_literal : Parser AddressLiteral
    ipv6_literal =
        map_res
          (preceded (tag_no_case (codes "IPv6:"))
            (take_while1 (λ c. is_hex_digit c || c == b':' || c == b'.')))
          (λ addr. elim (ext.ipv6_from_str addr) [ none ↦ none | some s ↦ some (ip (v6 s)) ])

    unfoldable pub inner_address_literal : Parser AddressLiteral
    unfolding ipv4_literal ipv6_literal general_address_literal
    inner_address_literal = alt ipv4_literal (alt ipv6_literal general_address_literal)

    unfoldable pub address_literal : Parser AddressLiteral
    unfolding inner_address_literal
    address_literal = delimited (tag (codes "[")) inner_address_literal (tag (codes "]"))

    -- `AddressLiteral::upgrade`
    unfoldable pub upgrade : AddressLiteral → Option AddressLiteral
    unfolding inner_address_literal
    upgrade (free_form s) = elim (inner_address_literal s) [
      | err e ↦ none
      | ok rem parsed ↦ elim rem [ [] ↦ some parsed | _ ∷ _ ↦ none ]
    ]
    upgrade _ = none

    module _ (P : Utf8Policy) where
      -- `_domain_part`
      unfoldable pub domain_part : Parser DomainPart
      unfolding domain address_literal
      domain_part = alt (map (domain P) DomainPart.domain) (map address_literal address)

      unfoldable pub mailbox : Parser Mailbox
      unfolding local_part domain_part
      mailbox =
          map (separated_pair (local_part P) (tag (codes "@")) domain_part)
            (λ (lp, dp). record { local_part = lp; domain_part = dp })

      unfoldable pub validate_address : Bytes → Bool
      unfolding mailbox
      validate_address i = elim (exact mailbox i) [ ok _ _ ↦ true | err _ ↦ false ]

  -- `LocalPart::smtp_try_unquote`; the source takes the policy `Intl`
  unfoldable pub smtp_try_unquote : Utf8Policy → LocalPart → LocalPart
  unfolding dot_string
  smtp_try_unquote P (LocalPart.quoted qs) = elim (dot_string P qs) [
    | ok rem da ↦ elim rem [ [] ↦ LocalPart.dot_atom da | _ ∷ _ ↦ LocalPart.quoted qs ]
    | err _ ↦ LocalPart.quoted qs
  ]
  smtp_try_unquote P (LocalPart.dot_atom a) = LocalPart.dot_atom a

  -- `Mailbox::smtp_try_unquote`
  unfoldable pub mailbox_try_unquote : Utf8Policy → Mailbox → Mailbox
  unfolding smtp_try_unquote
  mailbox_try_unquote P m = record m { local_part = smtp_try_unquote P m.local_part }
