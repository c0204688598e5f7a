-- ===== src/Rfc2231/Headers/Complete.antt =====
-- src/rfc2231.rs: the headers are read from their texts.
use rustyknife.External.{External}
use rustyknife.Nom.Rules.{Star}
use rustyknife.Nom.{Nom, ok}
use rustyknife.Prelude.{◌≡◌, refl, List, [], ◌∷◌, ◌++◌, Bytes, Every, lowercase, arith, ltb}
use rustyknife.Rfc2231.Decode.{decode_parameter_list}
use rustyknife.Rfc2231.Headers.Texts.{DispositionText, EncodingText}
use rustyknife.Rfc2231.Headers.{
  ContentDisposition, ContentTransferEncoding, content_transfer_encoding, content_type,
  content_disposition,
}
use rustyknife.Rfc2231.Syntax.Complete.{items-Behind, EndText-Behind, parameter_list-run}
use rustyknife.Rfc2231.Syntax.Parameters.{Behind-token, ofws-Behind, Solid-token}
use rustyknife.Rfc2231.Syntax.Texts.{IsToken, ItemText, EndText}
use rustyknife.Rfc2231.Syntax.{Parameter, is_token}
use rustyknife.Rfc5234.Blanks.{is_blank}
use rustyknife.Rfc5322.Comments.Gaps.{ofws-blanks}
use rustyknife.Util.Ascii.{ascii_to_string-class}
use rustyknife.Util.{ascii_to_string}
use rustyknife.Rfc2231.Headers.Values.{
  disposition-run, encoding-run, mime_type-run, Solid-disposition, Solid-encoding, ofws-encoding,
}

module _ ⦃nom : Nom⦄ where
  -- A transfer encoding is read from its text, blanks in front, and what is behind it is left: the
  -- word of a known encoding in any case, where no blank or carriage return follows, other than a line
  -- end that is not folded, but perhaps further bytes of a token; and, in front of the end of the
  -- input, a semicolon or a line end that is not folded, a token behind x- in any case, or a token that
  -- starts neither with that nor with the word of a known encoding.
  pub content_transfer_encoding-EncodingText :
      (w t s : Bytes) (e : ContentTransferEncoding)
      → Every is_blank w
      → EncodingText t e s
      → content_transfer_encoding (w ++ (t ++ s)) ≡ ok s e
  unfolding content_transfer_encoding
  content_transfer_encoding-EncodingText w t s e h x =
      rw
        (
          nom.delimited_law,
          ofws-blanks w (t ++ s) h (Solid-encoding s x),
          encoding-run s x,
          ofws-encoding s x,
        )
        refl

  module _ ⦃ext : External⦄ where
    ascii_mime_type :
        (t u : Bytes) → IsToken t → IsToken u → ascii_to_string (t ++ (b'/' ∷ u)) ≡ t ++ (b'/' ∷ u)
    ascii_mime_type t u k l =
        ascii_to_string-class (λ c. ltb c 0x80) (λ c y. y) (t ++ (b'/' ∷ u)) (low t u k.0 l.0)
      where
        lows : (u : Bytes) → Every is_token u → Every (λ c. ltb c 0x80) u
        lows [] i = tt
        lows (c ∷ u) i = (ground (arith, i.0), lows u i.1)

        low :
            (t u : Bytes)
            → Every is_token t
            → Every is_token u
            → Every (λ c. ltb c 0x80) (t ++ (b'/' ∷ u))
        low [] u h i = (refl, lows u i)
        low (c ∷ t) u h i = (ground (arith, h.0), low t u h.1 i)

    -- A content type is read from its text, as its type and subtype in lower case and what
    -- `decode_parameter_list` gives for its parameters, and what is behind the text is left: blanks,
    -- two tokens with a slash between them, the parameters, each behind a semicolon and blanks, and the
    -- end of the input or a line end that is not folded, perhaps behind a semicolon. A parameter is a
    -- name, the section *0, a later one of one to eight digits without a zero in front, or none, and,
    -- behind an equals sign with blanks around it, a token; or it is extended, with an asterisk in
    -- front of the equals sign and no blanks behind it: bytes that stand for themselves or are a
    -- percent sign and two digits, behind a charset and a language, each or both perhaps empty, where
    -- there is no section or it is *0, and without these in a later section.
    pub content_type-ItemText :
        (w t u c i r : Bytes) (ps : List Parameter)
        → Every is_blank w
        → IsToken t
        → IsToken u
        → Star ItemText c ps
        → EndText i r
        → content_type (w ++ (t ++ (b'/' ∷ (u ++ (c ++ i)))))
          ≡ ok r (lowercase (t ++ (b'/' ∷ u)), decode_parameter_list ps)
    unfolding content_type
    content_type-ItemText w t u c i r ps h k l items e =
        let b = items-Behind i items (EndText-Behind e) in
        rw
          (
            nom.map_law,
            nom.pair_law,
            nom.delimited_law,
            ofws-blanks w (t ++ (b'/' ∷ (u ++ (c ++ i)))) h (Solid-token t _ k),
            mime_type-run t u (c ++ i) k l (Behind-token b),
            ofws-Behind b,
            parameter_list-run i r items e,
            ascii_mime_type t u k l,
          )
          refl

    -- A disposition with parameters is read from its text, whose parameters and end are those of a
    -- content type: inline or attachment in any case, a token behind x- in any case, or a token that
    -- starts with none of these.
    pub content_disposition-DispositionText :
        (w t c i r : Bytes) (d : ContentDisposition) (ps : List Parameter)
        → Every is_blank w
        → DispositionText t d
        → Star ItemText c ps
        → EndText i r
        → content_disposition (w ++ (t ++ (c ++ i))) ≡ ok r (d, decode_parameter_list ps)
    unfolding content_disposition
    content_disposition-DispositionText w t c i r d ps h x items e =
        let b = items-Behind i items (EndText-Behind e) in
        rw
          (
            nom.map_law,
            nom.pair_law,
            nom.delimited_law,
            ofws-blanks w (t ++ (c ++ i)) h (Solid-disposition (c ++ i) x),
            disposition-run (c ++ i) x (Behind-token b),
            ofws-Behind b,
            parameter_list-run i r items e,
          )
          refl
