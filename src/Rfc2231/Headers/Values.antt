-- ===== src/Rfc2231/Headers/Values.antt =====
-- src/rfc2231.rs: media types, dispositions and encodings are read from their texts.
use rustyknife.Nom.Rules.{
  Stops, tag-append, take_while1-run, strip-ends, tag_no_case-letters, word_here, word_not_here,
  other_word, consumed-append,
}
use rustyknife.Nom.{Nom, consumed, ok, err, error, no_case}
use rustyknife.Prelude.{
  ℕ, ◌≡◌, ◌≢◌, refl, ap, sym, ◌∙◌, true, false, [], ◌∷◌, ◌++◌, Bytes, codes, Every, Every-all,
  lowercase, to_ascii_lowercase, arith, inl, inr, append_assoc,
}
use rustyknife.Rfc2231.Headers.Texts.{
  Without, DispositionText, inline_text, attachment_text, extended_disposition, token_disposition,
  KnownEncoding, is_seven_bit, is_eight_bit, is_binary, is_base64, is_quoted_printable,
  EncodingText, known_encoding, extended_encoding, token_encoding,
}
use rustyknife.Rfc2231.Headers.{
  ContentDisposition, inline, attachment, ContentTransferEncoding, seven_bit, eight_bit, binary,
  base64, quoted_printable, x_token, disposition, encoding_name,
}
use rustyknife.Rfc2231.Syntax.Parameters.{Behind-token, ofws-Behind, Solid-token}
use rustyknife.Rfc2231.Syntax.Texts.{IsToken}
use rustyknife.Rfc2231.Syntax.{is_token, token, mime_type}
use rustyknife.Rfc5234.Blanks.{is_blank}
use rustyknife.Rfc5322.Comments.Gaps.{Solid, ofws-blanks}
use rustyknife.Rfc5322.Comments.{ofws}

token_apart : (a d : ℕ) → is_token a ≡ true → is_token d ≡ false → no_case a d ≡ false
unfolding to_ascii_lowercase
token_apart a d h n = ground (arith, h, n)

Without-ends :
    (word t s : Bytes)
    → Every is_token word
    → Stops is_token s
    → Without word t
    → Without word (t ++ s)
Without-ends word t s x st h = strip-ends is_token token_apart word t s x st h

Solid-letters :
    (t s : Bytes) (d : ℕ) (ds : Bytes)
    → lowercase t ≡ d ∷ ds
    → is_blank d ≡ false
    → d ≢ b'\r'
    → Solid (t ++ s)
unfolding to_ascii_lowercase
Solid-letters [] s d ds e b r = absurd (cc e)
Solid-letters (c ∷ t) s d ds e b r =
    let same : to_ascii_lowercase c ≡ d = cc e in
    (ground (arith, same, b, r), ground (arith, same, b, r))

module _ ⦃nom : Nom⦄ where
  token-run : (t s : Bytes) → IsToken t → Stops is_token s → token (t ++ s) ≡ ok s t
  unfolding token
  token-run t s (h, ne) st = take_while1-run is_token t s ne h st

  x_token-run :
      (x t s : Bytes)
      → lowercase x ≡ codes "x-"
      → IsToken t
      → Stops is_token s
      → x_token (x ++ (t ++ s)) ≡ ok s t
  unfolding x_token to_ascii_lowercase
  x_token-run x t s e k st =
      rw (nom.preceded_law, tag_no_case-letters (codes "x-") x (t ++ s) e) (token-run t s k st)

  no_x_token : (i : Bytes) → Without (codes "x-") i → x_token i ≡ err error
  unfolding x_token
  no_x_token i w = rw (nom.preceded_law, nom.tag_no_case_law, w) refl

  pub disposition-run :
      {t : Bytes} {d : ContentDisposition} (s : Bytes)
      → DispositionText t d
      → Stops is_token s
      → disposition (t ++ s) ≡ ok s d
  unfolding disposition to_ascii_lowercase
  disposition-run s (inline_text {t} e) st = word_here t s (codes "inline") inline _ e
  disposition-run s (attachment_text {t} e) st =
      other_word t s (codes "inline") (codes "attachment") inline _ e refl
      ∙ word_here t s (codes "attachment") attachment _ e
  disposition-run s (extended_disposition x t e k) st = rw (append_assoc x t s) (
      other_word x (t ++ s) (codes "inline") (codes "x-") inline _ e refl
      ∙ other_word x (t ++ s) (codes "attachment") (codes "x-") attachment _ e refl
      ∙ rw (nom.alt_law, nom.map_law, x_token-run x t s e k st) refl)
  disposition-run s (token_disposition {t} k a b c) st =
      word_not_here t s (codes "inline") inline _
        (Without-ends (codes "inline") t s (Every-all is_token (codes "inline") refl) st a)
      ∙ word_not_here t s (codes "attachment") attachment _ (
          Without-ends (codes "attachment") t s (Every-all is_token (codes "attachment") refl) st b)
      ∙ rw
          (
            nom.alt_law,
            nom.map_law,
            no_x_token (t ++ s)
                (Without-ends (codes "x-") t s (Every-all is_token (codes "x-") refl) st c),
            nom.map_law,
            token-run t s k st,
          )
          refl

  known-run :
      (t s : Bytes) {word : Bytes} {e : ContentTransferEncoding}
      → KnownEncoding word e
      → lowercase t ≡ word
      → encoding_name (t ++ s) ≡ ok s e
  unfolding encoding_name to_ascii_lowercase
  known-run t s is_seven_bit e = word_here t s (codes "7bit") seven_bit _ e
  known-run t s is_eight_bit e =
      other_word t s (codes "7bit") (codes "8bit") seven_bit _ e refl
      ∙ word_here t s (codes "8bit") eight_bit _ e
  known-run t s is_binary e =
      other_word t s (codes "7bit") (codes "binary") seven_bit _ e refl
      ∙ other_word t s (codes "8bit") (codes "binary") eight_bit _ e refl
      ∙ word_here t s (codes "binary") binary _ e
  known-run t s is_base64 e =
      other_word t s (codes "7bit") (codes "base64") seven_bit _ e refl
      ∙ other_word t s (codes "8bit") (codes "base64") eight_bit _ e refl
      ∙ other_word t s (codes "binary") (codes "base64") binary _ e refl
      ∙ word_here t s (codes "base64") base64 _ e
  known-run t s is_quoted_printable e =
      other_word t s (codes "7bit") (codes "quoted-printable") seven_bit _ e refl
      ∙ other_word t s (codes "8bit") (codes "quoted-printable") eight_bit _ e refl
      ∙ other_word t s (codes "binary") (codes "quoted-printable") binary _ e refl
      ∙ other_word t s (codes "base64") (codes "quoted-printable") base64 _ e refl
      ∙ word_here t s (codes "quoted-printable") quoted_printable _ e

  pub encoding-run :
      {t : Bytes} {e : ContentTransferEncoding} (s : Bytes)
      → EncodingText t e s
      → encoding_name (t ++ s) ≡ ok s e
  unfolding encoding_name to_ascii_lowercase
  encoding-run s (known_encoding {t} k e _) = known-run t s k e
  encoding-run s (extended_encoding x t e k b) = rw (append_assoc x t s) (
      other_word x (t ++ s) (codes "7bit") (codes "x-") seven_bit _ e refl
      ∙ other_word x (t ++ s) (codes "8bit") (codes "x-") eight_bit _ e refl
      ∙ other_word x (t ++ s) (codes "binary") (codes "x-") binary _ e refl
      ∙ other_word x (t ++ s) (codes "base64") (codes "x-") base64 _ e refl
      ∙ other_word x (t ++ s) (codes "quoted-printable") (codes "x-") quoted_printable _ e refl
      ∙ rw (nom.alt_law, nom.map_law, x_token-run x t s e k (Behind-token b)) refl)
  encoding-run s (token_encoding {t} k a c b) =
      word_not_here t s (codes "7bit") seven_bit _ (
        Without-ends (codes "7bit") t s (Every-all is_token (codes "7bit") refl) (Behind-token b)
          (a _ _ is_seven_bit))
      ∙ word_not_here t s (codes "8bit") eight_bit _ (
          Without-ends (codes "8bit") t s (Every-all is_token (codes "8bit") refl) (Behind-token b)
            (a _ _ is_eight_bit))
      ∙ word_not_here t s (codes "binary") binary _ (
          Without-ends (codes "binary") t s (Every-all is_token (codes "binary") refl)
            (Behind-token b) (a _ _ is_binary))
      ∙ word_not_here t s (codes "base64") base64 _ (
          Without-ends (codes "base64") t s (Every-all is_token (codes "base64") refl)
            (Behind-token b) (a _ _ is_base64))
      ∙ word_not_here t s (codes "quoted-printable") quoted_printable _ (
          Without-ends (codes "quoted-printable") t s
            (Every-all is_token (codes "quoted-printable") refl) (Behind-token b)
            (a _ _ is_quoted_printable))
      ∙ rw
          (
            nom.alt_law,
            nom.map_law,
            no_x_token (t ++ s) (
                Without-ends (codes "x-") t s (Every-all is_token (codes "x-") refl)
                  (Behind-token b) c),
            nom.map_law,
            token-run t s k (Behind-token b),
          )
          refl

  pub mime_type-run :
      (t u s : Bytes)
      → IsToken t
      → IsToken u
      → Stops is_token s
      → mime_type (t ++ (b'/' ∷ (u ++ s))) ≡ ok s (t ++ (b'/' ∷ u))
  unfolding mime_type
  mime_type-run t u s k l st =
      let tail = b'/' ∷ (u ++ s) in
      rw
        (
          nom.recognize_law,
          nom.pair_law,
          token-run t tail k refl,
          nom.pair_law,
          tag-append (codes "/") (u ++ s),
          token-run u s l st,
        )
        (ap (ok s) (
          ap (λ i. consumed i s) (sym (append_assoc t (b'/' ∷ u) s))
          ∙ consumed-append (t ++ (b'/' ∷ u)) s))

  pub Solid-disposition :
      {t : Bytes} {d : ContentDisposition} (s : Bytes) → DispositionText t d → Solid (t ++ s)
  Solid-disposition s (inline_text {t} e) =
      Solid-letters t s b'i' (codes "nline") e refl (λ no. cc no)
  Solid-disposition s (attachment_text {t} e) =
      Solid-letters t s b'a' (codes "ttachment") e refl (λ no. cc no)
  Solid-disposition s (extended_disposition x t e k) =
      rw append_assoc (Solid-letters x (t ++ s) b'x' (codes "-") e refl (λ no. cc no))
  Solid-disposition s (token_disposition {t} k a b c) = Solid-token t s k

  pub Solid-encoding :
      {t : Bytes} {e : ContentTransferEncoding} (s : Bytes) → EncodingText t e s → Solid (t ++ s)
  Solid-encoding s (known_encoding {t} is_seven_bit e _) =
      Solid-letters t s b'7' (codes "bit") e refl (λ no. cc no)
  Solid-encoding s (known_encoding {t} is_eight_bit e _) =
      Solid-letters t s b'8' (codes "bit") e refl (λ no. cc no)
  Solid-encoding s (known_encoding {t} is_binary e _) =
      Solid-letters t s b'b' (codes "inary") e refl (λ no. cc no)
  Solid-encoding s (known_encoding {t} is_base64 e _) =
      Solid-letters t s b'b' (codes "ase64") e refl (λ no. cc no)
  Solid-encoding s (known_encoding {t} is_quoted_printable e _) =
      Solid-letters t s b'q' (codes "uoted-printable") e refl (λ no. cc no)
  Solid-encoding s (extended_encoding x t e k b) =
      rw append_assoc (Solid-letters x (t ++ s) b'x' (codes "-") e refl (λ no. cc no))
  Solid-encoding s (token_encoding {t} k a c b) = Solid-token t s k

  pub ofws-encoding :
      {t : Bytes} {e : ContentTransferEncoding} (s : Bytes) → EncodingText t e s → ofws s ≡ ok s []
  ofws-encoding s (known_encoding _ _ (inl h)) = ofws-blanks [] s tt h
  ofws-encoding s (known_encoding _ _ (inr b)) = ofws-Behind b
  ofws-encoding s (extended_encoding x t e k b) = ofws-Behind b
  ofws-encoding s (token_encoding k a c b) = ofws-Behind b
