-- ===== src/Rfc5322/Addresses.antt =====
-- src/rfc5322.rs: mailboxes, groups, addresses and unstructured text.
pub mod Texts
pub mod Words
pub mod Specs
pub mod Complete
pub mod Members
pub mod Groups
pub mod Lists
use rustyknife.External.{External}
use rustyknife.Nom.{
  Nom, Parser, map, alt, opt, pair, preceded, terminated, delimited, separated_pair, tag, many0,
  many1,
}
use rustyknife.Prelude.{List, [], ◌∷◌, ◌++◌, Option, none, some, Bytes, codes}
use rustyknife.Prelude.Utf8.{collect}
use rustyknife.Rfc2047.{encoded_word}
use rustyknife.Rfc5234.{wsp, crlf}
use rustyknife.Rfc5321.Mailboxes.{upgrade}
use rustyknife.Rfc5322.Comments.{fws, ofws, cfws}
use rustyknife.Rfc5322.Policy.{Utf8Policy, eight_bit_char}
use rustyknife.Rfc5322.Words.{dot_atom, local_part, display_name}
use rustyknife.Types
use rustyknife.Types.{Domain, AddressLiteral, free_form, DomainPart}
use rustyknife.Util.{recognize_many1, fold_prefix0}

-- `struct Mailbox`
pub record Mailbox : Type 0 where
  pub dname : Option Bytes
  pub address : Types.Mailbox

pub record Group : Type 0 where
  pub dname : Bytes
  pub members : List Mailbox

pub data Address : Type 0 where
  mailbox_address : Mailbox → Address
  group_address : Group → Address

-- the text of `domain_literal`, white space kept
abbrev pub literal_text : List (Bytes × Bytes) → Bytes → Bytes
literal_text [] b = b
literal_text ((x, y) ∷ rest) b = x ++ (y ++ literal_text rest b)

abbrev pub members_or_default : Option (List Mailbox) → List Mailbox
members_or_default none = []
members_or_default (some ms) = ms

abbrev pub concat_all : List Bytes → Bytes
concat_all [] = []
concat_all (s ∷ ss) = s ++ concat_all ss

abbrev pub concat_words : List (Bytes × Bytes) → Bytes → Bytes
concat_words [] ws = ws
concat_words ((word_ws, word) ∷ words) ws = word_ws ++ (word ++ concat_words words ws)

abbrev unwrap_or : AddressLiteral → Option AddressLiteral → AddressLiteral
unwrap_or d none = d
unwrap_or d (some a) = a

module _ ⦃nom : Nom⦄ ⦃ext : External⦄ (P : Utf8Policy) where
  unfoldable pub domain_literal : Parser AddressLiteral
  unfolding cfws ofws recognize_many1 upgrade
  domain_literal =
      map
        (delimited (pair (opt (cfws P)) (tag (codes "[")))
          (pair (many0 (pair ofws (recognize_many1 P.dtext))) ofws)
          (pair (tag (codes "]")) (opt (cfws P))))
        (λ (a, b).
          unwrap_or (free_form (literal_text a b)) (upgrade (free_form (literal_text a b))))

  -- `_domain`
  unfoldable pub dot_atom_domain : Parser Domain
  unfolding dot_atom
  dot_atom_domain = map (dot_atom P) (λ a. a)

  unfoldable pub domain : Parser DomainPart
  unfolding dot_atom_domain domain_literal
  domain = alt (map dot_atom_domain DomainPart.domain) (map domain_literal DomainPart.address)

  unfoldable pub addr_spec : Parser Types.Mailbox
  unfolding local_part domain
  addr_spec =
      map (separated_pair (local_part P) (tag (codes "@")) domain)
        (λ (lp, d). record { local_part = lp; domain_part = d })

  unfoldable pub angle_addr : Parser Types.Mailbox
  unfolding cfws addr_spec
  angle_addr =
      delimited (pair (opt (cfws P)) (tag (codes "<"))) addr_spec
        (pair (tag (codes ">")) (opt (cfws P)))

  unfoldable pub name_addr : Parser Mailbox
  unfolding display_name angle_addr
  name_addr =
      map (pair (opt (display_name P)) angle_addr)
        (λ (dname, address). record { dname = dname; address = address })

  unfoldable pub mailbox : Parser Mailbox
  unfolding name_addr addr_spec
  mailbox = alt name_addr (map addr_spec (λ a. record { dname = none; address = a }))

  unfoldable pub mailbox_list : Parser (List Mailbox)
  unfolding fold_prefix0 mailbox
  mailbox_list = fold_prefix0 mailbox (preceded (tag (codes ",")) mailbox)

  unfoldable pub group_list : Parser (List Mailbox)
  unfolding mailbox_list cfws
  group_list = alt mailbox_list (map (cfws P) (λ _. []))

  unfoldable pub group : Parser Group
  unfolding display_name group_list cfws
  group =
      map
        (pair (terminated (display_name P) (tag (codes ":")))
          (terminated (opt group_list) (pair (tag (codes ";")) (opt (cfws P)))))
        (λ (dname, members). record { dname = dname; members = members_or_default members })

  unfoldable pub address : Parser Address
  unfolding mailbox group
  address = alt (map mailbox mailbox_address) (map group group_address)

  unfoldable pub address_list : Parser (List Address)
  unfolding fold_prefix0 address
  address_list = fold_prefix0 address (preceded (tag (codes ",")) address)

  unfoldable pub address_list_crlf : Parser (List Address)
  unfolding address_list crlf
  address_list_crlf = terminated address_list (opt crlf)

  unfoldable pub address_crlf : Parser Address
  unfolding address crlf
  address_crlf = terminated address (opt crlf)

  unfoldable pub from : Parser (List Address)
  unfolding address_list_crlf
  from i = address_list_crlf i

  unfoldable pub sender : Parser Address
  unfolding address_crlf
  sender i = address_crlf i

  unfoldable pub reply_to : Parser (List Address)
  unfolding address_list_crlf
  reply_to i = address_list_crlf i

  unfoldable pub unstructured : Parser Bytes
  unfolding ofws fws encoded_word fold_prefix0 eight_bit_char wsp
  unstructured =
      map
        (pair
          (many0 (
            alt (pair ofws (map (fold_prefix0 encoded_word (preceded fws encoded_word)) concat_all))
              (pair ofws (map (many1 (alt P.vchar eight_bit_char)) collect))))
          (many0 wsp))
        (λ (words, ws). concat_words words ws)
