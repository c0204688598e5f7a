-- ===== src/Rfc5321/Policy.antt =====
-- src/rfc5321.rs: the character classes and domain labels of SMTP for both behaviours.
pub mod Labels
use rustyknife.External.{External}
use rustyknife.Nom.{
  Nom, Parser, ok, err, error, alt, opt, pair, recognize, verify, and_then, take_while1,
  is_alphanumeric,
}
use rustyknife.Prelude.{ℕ, Bool, ◌||◌, [], ◌∷◌, Bytes, within, ◌==◌, length, drop, if◌then◌else◌}
use rustyknife.Rfc5322.Policy as Imf
use rustyknife.Rfc5322.Policy.{utf8_non_ascii}
use rustyknife.Util.{take1_filter, recognize_many1}

-- `trait UTF8Policy`
pub record Utf8Policy : Type 0 where
  pub atext : Parser ℕ
  pub qtext_smtp : Parser ℕ
  pub esmtp_value_char : Parser ℕ
  pub sub_domain : Parser Bytes

abbrev pub is_qtext_smtp : ℕ → Bool
is_qtext_smtp c = within 32 33 c || within 35 91 c || within 93 126 c

abbrev pub is_esmtp_value_char : ℕ → Bool
is_esmtp_value_char c = within 33 60 c || within 62 126 c

-- The loop of `ldh_str`: drops the dashes at the end.
unfoldable pub trim_dashes : Bytes → Bytes
trim_dashes [] = []
trim_dashes (c ∷ cs) = elim (trim_dashes cs) [
  | [] ↦ if c == b'-' then [] else c ∷ []
  | d ∷ ds ↦ c ∷ d ∷ ds
]

module _ ⦃nom : Nom⦄ where
  unfoldable pub is_ldh : ℕ → Bool
  is_ldh c = is_alphanumeric c || c == b'-'

  unfoldable pub ldh_str : Parser Bytes
  unfolding is_ldh trim_dashes
  ldh_str input = and_then (take_while1 is_ldh input) (λ _ run. elim (trim_dashes run) [
    | [] ↦ err error
    | c ∷ cs ↦ ok (drop (length (c ∷ cs)) input) (c ∷ cs)
  ])

  unfoldable pub let_dig : Parser ℕ
  unfolding take1_filter
  let_dig = take1_filter is_alphanumeric

  unfoldable pub legacy : Utf8Policy
  unfolding take1_filter let_dig ldh_str Imf.legacy
  legacy = record {
    atext = Imf.legacy.atext;
    qtext_smtp = take1_filter is_qtext_smtp;
    esmtp_value_char = take1_filter is_esmtp_value_char;
    sub_domain = recognize (pair let_dig (opt ldh_str));
  }

  module _ ⦃ext : External⦄ where
    unfoldable pub intl : Utf8Policy
    unfolding take1_filter recognize_many1 is_ldh utf8_non_ascii legacy Imf.intl
    intl = record {
      atext = Imf.intl.atext;
      qtext_smtp = alt legacy.qtext_smtp utf8_non_ascii;
      esmtp_value_char = alt legacy.esmtp_value_char utf8_non_ascii;
      sub_domain =
          verify (recognize_many1 (alt (take1_filter is_ldh) utf8_non_ascii))
            (λ label. ext.idna_is_ok label);
    }
