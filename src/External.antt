-- ===== src/External.antt =====
-- What the parsers take from crates other than nom, and the text form of IPv6 addresses: an
-- interface. `Codec` is `encoding::EncodingRef`.
use rustyknife.Prelude.{ℕ, Bool, List, Option, Bytes}

pub record External : Type 1 where
  -- `idna::Config::default().use_std3_ascii_rules(true).verify_dns_length(true)
  -- .check_hyphens(true).to_ascii(label).is_ok()`
  pub idna_is_ok : Bytes → Bool
  -- `Ipv6Addr::from_str(text).ok()`, an address as its segments, and its `Display`
  pub ipv6_from_str : Bytes → Option (List ℕ)
  pub ipv6_to_string : List ℕ → Bytes
  -- the crate `encoding`; decoding is with `DecoderTrap::Replace`, which cannot fail
  pub Codec : Type 0
  pub ascii : Codec
  pub encoding_from_whatwg_label : Bytes → Option Codec
  pub decode : Codec → Bytes → Bytes
  -- `String::from_utf8_lossy`
  pub from_utf8_lossy : Bytes → Bytes
  -- `base64::decode(text).ok()`
  pub base64_decode : Bytes → Option Bytes

module _ ⦃ext : External⦄ where
  abbrev pub Codec : Type 0
  Codec = ext.Codec
