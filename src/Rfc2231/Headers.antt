-- ===== src/Rfc2231/Headers.antt =====
-- src/rfc2231.rs: the headers Content-Type, Content-Disposition and Content-Transfer-Encoding. The
-- parameters are none where the source would reach `unreachable!()`.
pub mod Texts
pub mod Values
pub mod Complete
use rustyknife.External.{External}
use rustyknife.Nom.{Nom, Parser, map, alt, pair, preceded, delimited, tag_no_case}
use rustyknife.Prelude.{List, ◌++◌, Option, Bytes, codes, lowercase}
use rustyknife.Rfc2231.Decode.{decode_parameter_list}
use rustyknife.Rfc2231.Syntax.{token, mime_type, parameter_list}
use rustyknife.Rfc5322.Comments.{ofws}
use rustyknife.Util.{ascii_to_string}

pub data ContentDisposition : Type 0 where
  inline : ContentDisposition
  attachment : ContentDisposition
  extended : Bytes → ContentDisposition
  token_of : Bytes → ContentDisposition

pub data ContentTransferEncoding : Type 0 where
  seven_bit eight_bit binary base64 quoted_printable : ContentTransferEncoding
  extended : Bytes → ContentTransferEncoding
  token_of : Bytes → ContentTransferEncoding

unfoldable pub display_disposition : ContentDisposition → Bytes
display_disposition inline = codes "inline"
display_disposition attachment = codes "attachment"
display_disposition (ContentDisposition.extended s) = codes "x-" ++ s
display_disposition (ContentDisposition.token_of t) = t

unfoldable pub display_encoding : ContentTransferEncoding → Bytes
display_encoding seven_bit = codes "7bit"
display_encoding eight_bit = codes "8bit"
display_encoding binary = codes "binary"
display_encoding base64 = codes "base64"
display_encoding quoted_printable = codes "quoted-printable"
display_encoding (ContentTransferEncoding.extended s) = codes "x-" ++ s
display_encoding (ContentTransferEncoding.token_of t) = t

module _ ⦃nom : Nom⦄ where
  unfoldable pub x_token : Parser Bytes
  unfolding token
  x_token = preceded (tag_no_case (codes "x-")) token

  unfoldable pub disposition : Parser ContentDisposition
  unfolding x_token token
  disposition = alt (map (tag_no_case (codes "inline")) (λ _. inline)) (
      alt (map (tag_no_case (codes "attachment")) (λ _. attachment))
        (alt (map x_token ContentDisposition.extended) (map token ContentDisposition.token_of)))

  unfoldable pub encoding_name : Parser ContentTransferEncoding
  unfolding x_token token
  encoding_name = alt (map (tag_no_case (codes "7bit")) (λ _. seven_bit)) (
      alt (map (tag_no_case (codes "8bit")) (λ _. eight_bit)) (
        alt (map (tag_no_case (codes "binary")) (λ _. binary)) (
          alt (map (tag_no_case (codes "base64")) (λ _. base64)) (
            alt (map (tag_no_case (codes "quoted-printable")) (λ _. quoted_printable)) (
              alt (map x_token ContentTransferEncoding.extended)
                (map token ContentTransferEncoding.token_of))))))

  unfoldable pub content_transfer_encoding : Parser ContentTransferEncoding
  unfolding encoding_name ofws
  content_transfer_encoding = delimited ofws encoding_name ofws

  module _ ⦃ext : External⦄ where
    unfoldable pub content_type : Parser (Bytes × Option (List (Bytes × Bytes)))
    unfolding mime_type ofws parameter_list decode_parameter_list ascii_to_string
    content_type =
        map (pair (delimited ofws mime_type ofws) parameter_list)
          (λ (mt, p). (lowercase (ascii_to_string mt), decode_parameter_list p))

    unfoldable pub content_disposition : Parser (ContentDisposition × Option (List (Bytes × Bytes)))
    unfolding disposition ofws parameter_list decode_parameter_list
    content_disposition =
        map (pair (delimited ofws disposition ofws) parameter_list)
          (λ (disp, p). (disp, decode_parameter_list p))
