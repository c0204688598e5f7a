-- ===== src/Conversions.antt =====
-- src/types.rs, src/rfc5321.rs and the macros of src/util.rs: the conversions from text, which
-- parse a whole input, and those between the types. All take the policy `Intl`.
pub mod Mailboxes
use rustyknife.External.{External}
use rustyknife.Nom.{Nom, Parser, IResult, ok, err, Err, exact}
use rustyknife.Prelude.{Option, none, some, Bytes}
use rustyknife.Rfc5321.Commands.{
  SmtpPath, path, ForwardPath, forward_path, ReversePath, reverse_path,
}
use rustyknife.Rfc5321.Mailboxes as Smtp
use rustyknife.Rfc5321.Params.{
  Param, Keyword, Value, esmtp_param, esmtp_keyword, esmtp_value, display_param,
}
use rustyknife.Rfc5321.Policy as SmtpPolicy
use rustyknife.Rfc5322.Addresses as Imf
use rustyknife.Rfc5322.Policy as ImfPolicy
use rustyknife.Rfc5322.Words as Words
use rustyknife.Types.{
  Domain, DotAtom, QuotedString, LocalPart, dot_atom, quoted, AddressLiteral, DomainPart, address,
  Mailbox, display_mailbox,
}

-- `Result<T, nom::Err<()>>`
pub data Converted (A : Type 0) : Type 0 where
  converted : A → Converted A
  refused : Err → Converted A

-- What `map` and `map_err` make of the result of a parser.
abbrev pub value_or_err : {A : Type 0} → IResult A → Converted A
value_or_err (ok _ v) = converted v
value_or_err (err e) = refused e

abbrev pub value_only : {A : Type 0} → IResult A → Option A
value_only (ok _ v) = some v
value_only (err _) = none

-- The newtypes around `String`: `Display`, `AsRef`, `Deref` and `From` are the text itself.
unfoldable pub newtype_text : Bytes → Bytes
newtype_text s = s

unfoldable pub local_part_from_quoted : QuotedString → LocalPart
local_part_from_quoted value = quoted value

unfoldable pub local_part_from_dot_atom : DotAtom → LocalPart
local_part_from_dot_atom value = dot_atom value

unfoldable pub domain_part_from_domain : Domain → DomainPart
domain_part_from_domain value = DomainPart.domain value

unfoldable pub domain_part_from_literal : AddressLiteral → DomainPart
domain_part_from_literal value = address value

unfoldable pub string_from_param : Param → Bytes
unfolding display_param
string_from_param param = display_param param

unfoldable pub string_from_mailbox : ⦃ext : External⦄ → Mailbox → Bytes
unfolding display_mailbox
string_from_mailbox mailbox = display_mailbox mailbox

module _ ⦃nom : Nom⦄ where
  -- the macros `nom_from_smtp` and `nom_from_imf`
  unfoldable pub from_smtp : {A : Type 0} → Parser A → Bytes → Converted A
  from_smtp func value = value_or_err (exact func value)

  unfoldable pub from_imf : {A : Type 0} → Parser A → Bytes → Converted A
  from_imf func value = value_or_err (exact func value)

  -- the macro `nom_fromstr`; its two `try_from` agree on the bytes of a `&str`
  unfoldable pub from_str : {A : Type 0} → Parser A → Bytes → Option A
  from_str func s = value_only (exact func s)

  unfoldable pub try_from : {A : Type 0} → Parser A → Bytes → Converted A
  try_from func value = value_or_err (exact func value)

  unfoldable pub keyword_from_str : Bytes → Option Keyword
  unfolding from_str esmtp_keyword
  keyword_from_str = from_str esmtp_keyword

  module _ ⦃ext : External⦄ where
    unfoldable pub domain_from_smtp : Bytes → Converted Domain
    unfolding from_smtp Smtp.domain SmtpPolicy.intl
    domain_from_smtp = from_smtp (Smtp.domain SmtpPolicy.intl)

    unfoldable pub domain_from_imf : Bytes → Converted Domain
    unfolding from_imf Imf.dot_atom_domain ImfPolicy.intl
    domain_from_imf = from_imf (Imf.dot_atom_domain ImfPolicy.intl)

    unfoldable pub local_part_from_smtp : Bytes → Converted LocalPart
    unfolding from_smtp Smtp.local_part SmtpPolicy.intl
    local_part_from_smtp = from_smtp (Smtp.local_part SmtpPolicy.intl)

    unfoldable pub local_part_from_imf : Bytes → Converted LocalPart
    unfolding from_imf Words.local_part ImfPolicy.intl
    local_part_from_imf = from_imf (Words.local_part ImfPolicy.intl)

    unfoldable pub quoted_string_from_smtp : Bytes → Converted QuotedString
    unfolding from_smtp Smtp.quoted_string SmtpPolicy.intl
    quoted_string_from_smtp = from_smtp (Smtp.quoted_string SmtpPolicy.intl)

    unfoldable pub quoted_string_from_imf : Bytes → Converted QuotedString
    unfolding from_imf Words.quoted_string ImfPolicy.intl
    quoted_string_from_imf = from_imf (Words.quoted_string ImfPolicy.intl)

    unfoldable pub dot_atom_from_smtp : Bytes → Converted DotAtom
    unfolding from_smtp Smtp.dot_string SmtpPolicy.intl
    dot_atom_from_smtp = from_smtp (Smtp.dot_string SmtpPolicy.intl)

    unfoldable pub dot_atom_from_imf : Bytes → Converted DotAtom
    unfolding from_imf Words.dot_atom ImfPolicy.intl
    dot_atom_from_imf = from_imf (Words.dot_atom ImfPolicy.intl)

    unfoldable pub domain_part_from_smtp : Bytes → Converted DomainPart
    unfolding from_smtp Smtp.domain_part SmtpPolicy.intl
    domain_part_from_smtp = from_smtp (Smtp.domain_part SmtpPolicy.intl)

    unfoldable pub domain_part_from_imf : Bytes → Converted DomainPart
    unfolding from_imf Imf.domain ImfPolicy.intl
    domain_part_from_imf = from_imf (Imf.domain ImfPolicy.intl)

    unfoldable pub literal_from_smtp : Bytes → Converted AddressLiteral
    unfolding from_smtp Smtp.address_literal
    literal_from_smtp = from_smtp Smtp.address_literal

    unfoldable pub literal_from_imf : Bytes → Converted AddressLiteral
    unfolding from_imf Imf.domain_literal ImfPolicy.intl
    literal_from_imf = from_imf (Imf.domain_literal ImfPolicy.intl)

    unfoldable pub mailbox_from_smtp : Bytes → Converted Mailbox
    unfolding from_smtp Smtp.mailbox SmtpPolicy.intl
    mailbox_from_smtp = from_smtp (Smtp.mailbox SmtpPolicy.intl)

    unfoldable pub mailbox_from_imf : Bytes → Converted Mailbox
    unfolding from_imf Imf.addr_spec ImfPolicy.intl
    mailbox_from_imf = from_imf (Imf.addr_spec ImfPolicy.intl)

    unfoldable pub mailbox_from_str : Bytes → Option Mailbox
    unfolding from_str Smtp.mailbox SmtpPolicy.intl
    mailbox_from_str = from_str (Smtp.mailbox SmtpPolicy.intl)

    unfoldable pub param_from_str : Bytes → Option Param
    unfolding from_str esmtp_param SmtpPolicy.intl
    param_from_str = from_str (esmtp_param SmtpPolicy.intl)

    unfoldable pub value_from_str : Bytes → Option Value
    unfolding from_str esmtp_value SmtpPolicy.intl
    value_from_str = from_str (esmtp_value SmtpPolicy.intl)

    unfoldable pub path_from_str : Bytes → Option SmtpPath
    unfolding from_str path SmtpPolicy.intl
    path_from_str = from_str (path SmtpPolicy.intl)

    unfoldable pub forward_path_from_str : Bytes → Option ForwardPath
    unfolding from_str forward_path SmtpPolicy.intl
    forward_path_from_str = from_str (forward_path SmtpPolicy.intl)

    unfoldable pub reverse_path_from_str : Bytes → Option ReversePath
    unfolding from_str reverse_path SmtpPolicy.intl
    reverse_path_from_str = from_str (reverse_path SmtpPolicy.intl)
