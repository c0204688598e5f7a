-- ===== src/Tests/Words.antt =====
-- The theorems about encoded words and display names at inputs.
use rustyknife.Nom.Reference.{reference}
use rustyknife.Nom.{ok}
use rustyknife.Prelude.{
  Bool, true, false, none, some, equal, ltb, if◌then◌else◌, ◌≡◌, refl, [], ◌∷◌, ◌++◌, Bytes, codes,
  Every-all,
}
use rustyknife.External.{External}
use rustyknife.Rfc2047.QEncoding.{is_byte, encode_q, known, encoded_word-encode_q}
use rustyknife.Rfc2047.{is_token, encoded_word}
use rustyknife.Rfc5322.Words.Phrases.{phrase, shadowed, concat_atom_and_qs-shadowed}
use rustyknife.Rfc5322.Words.{Text, atom_text, concat_atom_and_qs}
use rustyknife.Tests.Samples.{plain}

-- The last byte is above ASCII.
abbrev encoded_bytes : Bytes
encoded_bytes = codes "a b_=?" ++ 228 ∷ []

encode_q_run : encode_q encoded_bytes ≡ codes "a_b=5F=3D=3F=E4"
encode_q_run = refl

abbrev decode_ascii : Bytes → Bytes
decode_ascii [] = []
decode_ascii (c ∷ cs) = (if ltb c 128 then c else b'?') ∷ decode_ascii cs

-- Of the labels it knows utf-8 alone, and decodes it by the identity; in ASCII a question mark stands
-- for a byte that is none.
abbrev two_codecs : External
two_codecs = record {
  idna_is_ok = λ label. true;
  ipv6_from_str = λ s. none;
  ipv6_to_string = λ s. [];
  Codec = Bool;
  ascii = false;
  encoding_from_whatwg_label = λ s. if equal s (codes "utf-8") then some true else none;
  decode = λ codec s. if codec then s else decode_ascii s;
  from_utf8_lossy = λ s. s;
  base64_decode = λ s. none;
}

encoded_word-encode_q_example :
    encoded_word ⦃ext = two_codecs⦄ (
      codes "=?"
      ++ (codes "utf-8" ++ (codes "?Q?" ++ (encode_q encoded_bytes ++ (codes "?=" ++ codes " x")))))
    ≡ ok (codes " x") encoded_bytes
encoded_word-encode_q_example =
    encoded_word-encode_q ⦃ext = two_codecs⦄ (codes "utf-8") encoded_bytes (codes " x") true
      (λ e. cc e) (Every-all is_token (codes "utf-8") refl) (known true refl) (λ e. cc e)
      (Every-all is_byte encoded_bytes refl)

unknown_label_run : encoded_word ⦃ext = two_codecs⦄ (codes "=?x-none?Q?a=E4?=") ≡ ok [] (codes "a?")
unfolding reference encoded_word
unknown_label_run = refl

-- The text of the quoted string is not in the display name.
concat_atom_and_qs-shadowed_example :
    concat_atom_and_qs (Text.literal (codes "quoted") ∷ atom_text (codes "atom") ∷ [])
    ≡ phrase (shadowed (Text.literal (codes "quoted") ∷ atom_text (codes "atom") ∷ []))
concat_atom_and_qs-shadowed_example =
    concat_atom_and_qs-shadowed (Text.literal (codes "quoted") ∷ atom_text (codes "atom") ∷ [])

quoted_then_atom_run :
    phrase (shadowed (Text.literal (codes "quoted") ∷ atom_text (codes "atom") ∷ []))
    ≡ codes "atom atom"
quoted_then_atom_run = refl
