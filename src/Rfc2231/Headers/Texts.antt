-- ===== src/Rfc2231/Headers/Texts.antt =====
-- src/rfc2231.rs: texts of a disposition and of an encoding.
use rustyknife.Nom.{strip, no_case}
use rustyknife.Prelude.{◌≡◌, ◌⊎◌, ◌++◌, none, Bytes, codes, lowercase}
use rustyknife.Rfc2231.Headers.{
  ContentDisposition, inline, attachment, ContentTransferEncoding, seven_bit, eight_bit, binary,
  base64, quoted_printable,
}
use rustyknife.Rfc2231.Syntax.Texts.{IsToken}
use rustyknife.Rfc2231.Syntax.Names.{Behind}
use rustyknife.Rfc5322.Comments.Gaps.{Solid}

-- The token does not start with the word, in any case.
abbrev pub Without : Bytes → Bytes → Type 0
Without word t = strip no_case word t ≡ none

pub data DispositionText : Bytes → ContentDisposition → Type 0 where
  inline_text : {t : Bytes} → lowercase t ≡ codes "inline" → DispositionText t inline
  attachment_text : {t : Bytes} → lowercase t ≡ codes "attachment" → DispositionText t attachment
  extended_disposition :
      (x s : Bytes)
      → lowercase x ≡ codes "x-"
      → IsToken s
      → DispositionText (x ++ s) (ContentDisposition.extended s)
  token_disposition :
      {t : Bytes}
      → IsToken t
      → Without (codes "inline") t
      → Without (codes "attachment") t
      → Without (codes "x-") t
      → DispositionText t (ContentDisposition.token_of t)

-- The word of a known encoding.
pub data KnownEncoding : Bytes → ContentTransferEncoding → Type 0 where
  is_seven_bit : KnownEncoding (codes "7bit") seven_bit
  is_eight_bit : KnownEncoding (codes "8bit") eight_bit
  is_binary : KnownEncoding (codes "binary") binary
  is_base64 : KnownEncoding (codes "base64") base64
  is_quoted_printable : KnownEncoding (codes "quoted-printable") quoted_printable

-- An encoding, and what may stand behind it: no blank or line end comes behind the word of a known
-- encoding, and no further byte of the token behind another token.
pub data EncodingText : Bytes → ContentTransferEncoding → Bytes → Type 0 where
  known_encoding :
      {t word s : Bytes} {e : ContentTransferEncoding}
      → KnownEncoding word e
      → lowercase t ≡ word
      → Solid s ⊎ Behind s
      → EncodingText t e s
  extended_encoding :
      {r : Bytes} (x s : Bytes)
      → lowercase x ≡ codes "x-"
      → IsToken s
      → Behind r
      → EncodingText (x ++ s) (ContentTransferEncoding.extended s) r
  token_encoding :
      {t s : Bytes}
      → IsToken t
      → ((word : Bytes) (e : ContentTransferEncoding) → KnownEncoding word e → Without word t)
      → Without (codes "x-") t
      → Behind s
      → EncodingText t (ContentTransferEncoding.token_of t) s
