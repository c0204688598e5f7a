-- ===== src/Rfc2047/QEncoding.antt =====
-- src/rfc2047.rs: encoded words in the encoding Q are decoded to the bytes that were encoded.
use rustyknife.External.{External}
use rustyknife.Nom.Rules.{take_while1-run, many0_ok, take1_filter-cons, take1_filter-nil}
use rustyknife.Nom.{Nom, Parser, ok, Many, stop, more, alt, preceded, map, tag, exact}
use rustyknife.Prelude.{
  ℕ, ◌/◌, ◌%◌, ◌≡◌, ◌≢◌, refl, true, Bool, ◌||◌, ◌==◌, [], ◌∷◌, ◌++◌, none, some, Bytes, codes,
  within, ltb, Every, arith, if◌then◌else◌, Bool-cases, inl, inr, to_ascii_lowercase,
}
use rustyknife.Rfc2047.{
  is_token, is_encoded_text, token, encoded_text, qp_encoded_text, decode_qp, decode_text,
  charset_and_bytes, decode_charset, encoded_word,
}
use rustyknife.Rfc3461.Xtext.Encoded.{hex_digit, hexpair-hex_digit}
use rustyknife.Rfc3461.Xtext.{hexpair}
use rustyknife.Util.{take1_filter, ascii_to_string, is_ascii}

-- The bytes that the encoding Q may leave as they are.
abbrev pub is_plain : ℕ → Bool
is_plain c = within 33 60 c || c == 62 || within 64 94 c || within 96 126 c

-- A blank is an underscore, other bytes than the plain ones an equals sign and two digits.
abbrev pub encode_q : Bytes → Bytes
encode_q [] = []
encode_q (c ∷ cs) =
    if is_plain c
    then c ∷ encode_q cs
    else if c == b' '
    then b'_' ∷ encode_q cs
    else b'=' ∷ hex_digit (c / 16) ∷ hex_digit (c % 16) ∷ encode_q cs

abbrev pub is_byte : ℕ → Bool
is_byte c = ltb c 256

encode_q-is_encoded_text : (bs : Bytes) → Every is_byte bs → Every is_encoded_text (encode_q bs)
encode_q-is_encoded_text [] h = tt
encode_q-is_encoded_text (c ∷ cs) h = ground (arith, h, encode_q-is_encoded_text cs h.1)

module _ ⦃nom : Nom⦄ where
  abbrev one_byte : Parser ℕ
  one_byte =
      alt (preceded (tag (codes "=")) hexpair)
        (alt (map (tag (codes "_")) (λ _. b' ')) (take1_filter (λ _. true)))

  plain_byte : (c : ℕ) (s : Bytes) → is_plain c ≡ true → one_byte (c ∷ s) ≡ ok s c
  plain_byte c s h =
      simp (nom.alt_law, nom.preceded_law, nom.map_law, nom.tag_law, take1_filter-cons)
        (ground (arith, h))

  Many-encode_q : (bs : Bytes) → Every is_byte bs → Many one_byte (encode_q bs) bs []
  Many-encode_q [] h = stop (
      rw
        (
          nom.alt_law, nom.preceded_law, nom.tag_law, nom.alt_law, nom.map_law, nom.tag_law,
          take1_filter-nil,
        )
        refl)
  Many-encode_q (b ∷ bs) h = elim (Bool-cases (is_plain b)) [
    | inl y ↦ rw (y, if◌then◌else◌) (more (plain_byte b _ y) (omega arith) (Many-encode_q bs h.1))
    | inr n ↦ elim (Bool-cases (b == b' ')) [
      | inl y ↦
          let blank : b ≡ b' ' = ground (arith, y) in
          rw (n, y, if◌then◌else◌)
            (more
              (rw
                (nom.alt_law, nom.preceded_law, nom.tag_law, nom.alt_law, nom.map_law, nom.tag_law)
                (rw blank refl))
              (omega arith) (Many-encode_q bs h.1))
      | inr m ↦
          rw (n, m, if◌then◌else◌)
            (more
              (rw
                (
                  nom.alt_law,
                  nom.preceded_law,
                  nom.tag_law,
                  hexpair-hex_digit b _ (ground (arith, h.0)),
                )
                refl)
              (omega arith) (Many-encode_q bs h.1))
    ]
  ]

  whole_text : (bs : Bytes) → Every is_byte bs → exact qp_encoded_text (encode_q bs) ≡ ok [] bs
  unfolding qp_encoded_text
  whole_text bs h = rw (nom.exact_law, many0_ok _ _ (Many-encode_q bs h)) refl

  decode_qp-encode_q : (bs : Bytes) → Every is_byte bs → decode_qp (encode_q bs) ≡ some bs
  unfolding decode_qp
  decode_qp-encode_q bs h = rw (decode_qp, whole_text bs h) refl

  module _ ⦃ext : External⦄ where
    token_ascii : (s : Bytes) → Every is_token s → is_ascii s ≡ true
    token_ascii [] h = refl
    token_ascii (c ∷ s) h = ground (arith, h, token_ascii s h.1)

    ascii_to_string-token : (s : Bytes) → Every is_token s → ascii_to_string s ≡ s
    unfolding ascii_to_string
    ascii_to_string-token s h = rw (token_ascii s h) refl

    token_before_question :
        (s r : Bytes) → s ≢ [] → Every is_token s → token (s ++ b'?' ∷ r) ≡ ok (b'?' ∷ r) s
    unfolding token
    token_before_question s r ne h = take_while1-run is_token s (b'?' ∷ r) ne h refl

    encode_q_not_empty : (bs : Bytes) → bs ≢ [] → encode_q bs ≢ []
    encode_q_not_empty [] ne = λ e. ne refl
    encode_q_not_empty (c ∷ cs) ne = elim (Bool-cases (is_plain c)) [
      | inl y ↦ rw (y, if◌then◌else◌) (λ e. cc e)
      | inr n ↦ elim (Bool-cases (c == b' ')) [
        | inl y ↦ rw (n, y, if◌then◌else◌) (λ e. cc e)
        | inr m ↦ rw (n, m, if◌then◌else◌) (λ e. cc e)
      ]
    ]

    text_before_question :
        (bs r : Bytes)
        → bs ≢ []
        → Every is_byte bs
        → encoded_text (encode_q bs ++ b'?' ∷ r) ≡ ok (b'?' ∷ r) (encode_q bs)
    unfolding encoded_text
    text_before_question bs r ne h =
        take_while1-run is_encoded_text (encode_q bs) (b'?' ∷ r) (encode_q_not_empty bs ne)
          (encode_q-is_encoded_text bs h) refl

    decode_text-encode_q :
        (bs : Bytes) → Every is_byte bs → decode_text (codes "Q") (encode_q bs) ≡ some bs
    unfolding decode_text to_ascii_lowercase
    decode_text-encode_q bs h = decode_qp-encode_q bs h

    -- The codec of a label: the one that is known under it, or else that of ASCII.
    pub data LabelCodec (charset : Bytes) : ext.Codec → Type 0 where
      known :
          (codec : ext.Codec)
          → ext.encoding_from_whatwg_label charset ≡ some codec
          → LabelCodec charset codec
      unknown : ext.encoding_from_whatwg_label charset ≡ none → LabelCodec charset ext.ascii

    decode_charset-LabelCodec :
        (charset bs : Bytes) (codec : ext.Codec)
        → LabelCodec charset codec
        → decode_charset (charset, bs) ≡ ext.decode codec bs
    unfolding decode_charset
    decode_charset-LabelCodec charset bs codec (known c h) = rw (decode_charset, h) refl
    decode_charset-LabelCodec charset bs codec (unknown h) = rw (decode_charset, h) refl

    -- An encoded word of the encoding Q gives the bytes that were encoded, one at the least, as the
    -- codec decodes them that is known under the label, which is a token, or as that of ASCII does if
    -- none is known under it. What is behind the word is left.
    pub encoded_word-encode_q :
        (charset bs r : Bytes) (codec : ext.Codec)
        → charset ≢ []
        → Every is_token charset
        → LabelCodec charset codec
        → bs ≢ []
        → Every is_byte bs
        → encoded_word
            (codes "=?" ++ (charset ++ (codes "?Q?" ++ (encode_q bs ++ (codes "?=" ++ r)))))
          ≡ ok r (ext.decode codec bs)
    unfolding encoded_word charset_and_bytes
    encoded_word-encode_q charset bs r codec nc hc hl nb hb =
        rw
          (
            nom.map_law,
            nom.map_law,
            nom.pair_law,
            nom.preceded_law,
            nom.tag_law,
            token_before_question charset _ nc hc,
            nom.pair_law,
            nom.opt_law,
            nom.preceded_law,
            nom.tag_law,
            nom.pair_law,
            nom.delimited_law,
            nom.tag_law,
            token_before_question (codes "Q") _ (λ e. cc e) (refl, tt),
            nom.tag_law,
            nom.terminated_law,
            text_before_question bs _ nb hb,
            nom.tag_law,
            ascii_to_string-token charset hc,
            decode_text-encode_q bs hb,
            decode_charset-LabelCodec charset bs codec hl,
          )
          refl
