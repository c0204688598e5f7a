-- ===== src/Rfc2047.antt =====
-- src/rfc2047.rs: encoded words.
pub mod QEncoding
use rustyknife.External.{External}
use rustyknife.Nom.{
  Nom, Parser, ok, err, map, alt, opt, pair, preceded, terminated, delimited, tag, take_while1,
  many0, exact,
}
use rustyknife.Prelude.{
  ℕ, Bool, true, ◌||◌, ◌&&◌, not, Option, none, some, Bytes, codes, contains, within, equal,
  lowercase, if◌then◌else◌,
}
use rustyknife.Rfc3461.Xtext.{hexpair}
use rustyknife.Util.{ascii_to_string, take1_filter}

abbrev pub is_token : ℕ → Bool
is_token c = within 33 126 c && not (contains c (codes "()<>@,;:\\\"/[]?.="))

abbrev pub is_encoded_text : ℕ → Bool
is_encoded_text c = within 33 62 c || within 64 126 c

abbrev unwrap_or : {A : Type 0} → Option A → A → A
unwrap_or none d = d
unwrap_or (some a) d = a

module _ ⦃nom : Nom⦄ where
  unfoldable pub token : Parser Bytes
  token = take_while1 is_token

  unfoldable pub encoded_text : Parser Bytes
  encoded_text = take_while1 is_encoded_text

  -- `_qp_encoded_text`
  unfoldable pub qp_encoded_text : Parser Bytes
  unfolding hexpair take1_filter
  qp_encoded_text = many0 (
      alt (preceded (tag (codes "=")) hexpair)
        (alt (map (tag (codes "_")) (λ _. b' ')) (take1_filter (λ _. true))))

  unfoldable pub decode_qp : Bytes → Option Bytes
  unfolding qp_encoded_text
  decode_qp input = elim (exact qp_encoded_text input) [ ok _ o ↦ some o | err _ ↦ none ]

  module _ ⦃ext : External⦄ where
    unfoldable pub decode_text : Bytes → Bytes → Option Bytes
    unfolding decode_qp
    decode_text encoding text =
        if equal (lowercase encoding) (codes "q")
        then decode_qp text
        else if equal (lowercase encoding) (codes "b")
        then ext.base64_decode text
        else none

    -- `_encoded_word`; `tuple` of four parsers is a pair of pairs
    unfoldable pub charset_and_bytes : Parser (Bytes × Bytes)
    unfolding token encoded_text decode_text ascii_to_string
    charset_and_bytes =
        map
          (pair (preceded (tag (codes "=?")) token) (
            pair (opt (preceded (tag (codes "*")) token)) (
              pair (delimited (tag (codes "?")) token (tag (codes "?")))
                (terminated encoded_text (tag (codes "?="))))))
          (λ (charset, more).
            let (encoding, text) = more.1 in
            (ascii_to_string charset, unwrap_or (decode_text encoding text) text))

    unfoldable pub decode_charset : Bytes × Bytes → Bytes
    decode_charset (charset, bytes) =
        ext.decode (unwrap_or (ext.encoding_from_whatwg_label charset) ext.ascii) bytes

    unfoldable pub encoded_word : Parser Bytes
    unfolding charset_and_bytes decode_charset
    encoded_word = map charset_and_bytes decode_charset
