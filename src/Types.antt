-- ===== src/Types.antt =====
-- src/types.rs: the types shared by the SMTP and message parsers, their display forms and accessors.
-- The newtypes around `String` are the bytes of the string.
use rustyknife.External.{External}
use rustyknife.Prelude.{ℕ, ◌||◌, List, [], ◌∷◌, ◌++◌, Bytes, codes, ◌==◌, if◌then◌else◌}
use rustyknife.Prelude.Utf8.{decimal}

abbrev pub Domain : Type 0
Domain = Bytes

abbrev pub DotAtom : Type 0
DotAtom = Bytes

abbrev pub QuotedString : Type 0
QuotedString = Bytes

pub data LocalPart : Type 0 where
  dot_atom : DotAtom → LocalPart
  quoted : QuotedString → LocalPart

-- `IpAddr`: the octets of `Ipv4Addr`, the segments of `Ipv6Addr`
pub data IpAddr : Type 0 where
  v4 : ℕ → ℕ → ℕ → ℕ → IpAddr
  v6 : List ℕ → IpAddr

pub data AddressLiteral : Type 0 where
  ip : IpAddr → AddressLiteral
  tagged : Bytes → Bytes → AddressLiteral
  free_form : Bytes → AddressLiteral

pub data DomainPart : Type 0 where
  domain : Domain → DomainPart
  address : AddressLiteral → DomainPart

pub record Mailbox : Type 0 where
  pub local_part : LocalPart
  pub domain_part : DomainPart

-- The loop of `quoted`. It goes by characters; the two escaped ones are single bytes, which occur
-- in no other character's bytes, so it may go by bytes.
unfoldable pub escape : Bytes → Bytes
escape [] = []
escape (c ∷ cs) = if c == b'"' || c == b'\\' then b'\\' ∷ c ∷ escape cs else c ∷ escape cs

unfoldable pub quoted_form : QuotedString → Bytes
unfolding escape
quoted_form qs = b'"' ∷ (escape qs ++ b'"' ∷ [])

unfoldable pub display_local_part : LocalPart → Bytes
display_local_part (LocalPart.dot_atom a) = a
display_local_part (LocalPart.quoted q) = quoted_form q

-- `Display` of `Ipv4Addr`
unfoldable pub display_ipv4 : ℕ → ℕ → ℕ → ℕ → Bytes
display_ipv4 a b c d =
    decimal a ++ (b'.' ∷ (decimal b ++ (b'.' ∷ (decimal c ++ (b'.' ∷ decimal d)))))

module _ ⦃ext : External⦄ where
  unfoldable pub display_address_literal : AddressLiteral → Bytes
  display_address_literal (ip (v4 a b c d)) = b'[' ∷ (display_ipv4 a b c d ++ b']' ∷ [])
  display_address_literal (ip (v6 s)) = codes "[IPv6:" ++ (ext.ipv6_to_string s ++ b']' ∷ [])
  display_address_literal (tagged tag value) = b'[' ∷ (tag ++ (b':' ∷ (value ++ b']' ∷ [])))
  display_address_literal (free_form value) = b'[' ∷ (value ++ b']' ∷ [])

  unfoldable pub display_domain_part : DomainPart → Bytes
  display_domain_part (DomainPart.domain d) = d
  display_domain_part (address a) = display_address_literal a

  unfoldable pub display_mailbox : Mailbox → Bytes
  display_mailbox m = display_local_part m.local_part ++ (b'@' ∷ display_domain_part m.domain_part)

unfoldable pub into_parts : Mailbox → LocalPart × DomainPart
into_parts m = (m.local_part, m.domain_part)

unfoldable pub from_parts : LocalPart → DomainPart → Mailbox
from_parts local domain_part = record { local_part = local; domain_part = domain_part }
