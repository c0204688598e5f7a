-- ===== src/Rfc5322/Policy.antt =====
-- src/rfc5322.rs: the character classes of messages for both behaviours. `char::from` of a byte is
-- the byte, as a code point.
pub mod Utf8
pub mod Chars
pub mod Decoded
pub mod CharsRead
use rustyknife.Nom.{Nom, Parser, map, map_opt, alt, take_bytes}
use rustyknife.Prelude.{ℕ, Bool, ◌||◌, codes, contains, within, ◌==◌, length, none, if◌then◌else◌}
use rustyknife.Prelude.Utf8.{only_char}
use rustyknife.Rfc5234
use rustyknife.Util.{take1_filter}

-- `trait UTF8Policy`
pub record Utf8Policy : Type 0 where
  pub vchar : Parser ℕ
  pub ctext : Parser ℕ
  pub atext : Parser ℕ
  pub qtext : Parser ℕ
  pub dtext : Parser ℕ

abbrev pub is_ctext : ℕ → Bool
is_ctext c = within 33 39 c || within 42 91 c || within 93 126 c

abbrev pub is_atext : ℕ → Bool
is_atext c =
    contains c (codes "!#$%&'*+-/=?^_`{|}~")
    || within b'0' b'9' c
    || within b'A' b'Z' c
    || within b'a' b'z' c

abbrev pub is_qtext : ℕ → Bool
is_qtext c = c == 33 || within 35 91 c || within 93 126 c

abbrev pub is_dtext : ℕ → Bool
is_dtext c = within 33 90 c || within 94 126 c

abbrev pub replacement_character : ℕ
replacement_character = 0xfffd

module _ ⦃nom : Nom⦄ where
  unfoldable pub single_char : ℕ → Parser ℕ
  unfolding only_char
  single_char len = map_opt (take_bytes len) (λ c. if length c == len then only_char c else none)

  unfoldable pub utf8_non_ascii : Parser ℕ
  unfolding single_char
  utf8_non_ascii = alt (single_char 4) (alt (single_char 3) (single_char 2))

  unfoldable pub eight_bit_char : Parser ℕ
  unfolding take1_filter
  eight_bit_char = map (take1_filter (within 0x80 0xff)) (λ _. replacement_character)

  unfoldable pub legacy : Utf8Policy
  unfolding take1_filter eight_bit_char Rfc5234.vchar
  legacy = record {
    vchar = Rfc5234.vchar;
    ctext = take1_filter is_ctext;
    atext = take1_filter is_atext;
    qtext = alt (take1_filter is_qtext) eight_bit_char;
    dtext = take1_filter is_dtext;
  }

  unfoldable pub intl : Utf8Policy
  unfolding take1_filter eight_bit_char utf8_non_ascii legacy
  intl = record {
    vchar = alt legacy.vchar utf8_non_ascii;
    ctext = alt legacy.ctext utf8_non_ascii;
    atext = alt legacy.atext utf8_non_ascii;
    qtext = alt (take1_filter is_qtext) (alt utf8_non_ascii eight_bit_char);
    dtext = alt legacy.dtext utf8_non_ascii;
  }
