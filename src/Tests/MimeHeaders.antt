-- ===== src/Tests/MimeHeaders.antt =====
-- The headers of src/rfc2231.rs at inputs.
use rustyknife.Nom.Reference.{reference}
use rustyknife.Prelude.Utf8.{hex_value}
use rustyknife.Nom.Rules.{Star, none_left, one_more}
use rustyknife.Nom.{ok}
use rustyknife.Prelude.{
  ◌≡◌, refl, inl, List, [], ◌∷◌, ◌++◌, none, some, Bytes, codes, Every-all, to_ascii_lowercase,
  lowercase, arith,
}
use rustyknife.Rfc2231.Decode.{decode_parameter_list}
use rustyknife.Rfc2231.Headers.Complete.{
  content_type-ItemText, content_disposition-DispositionText,
  content_transfer_encoding-EncodingText,
}
use rustyknife.Rfc2231.Headers.Texts.{
  EncodingText, known_encoding, is_base64, DispositionText, attachment_text,
}
use rustyknife.Rfc2231.Headers.{
  content_type, content_disposition, content_transfer_encoding, attachment, base64,
}
use rustyknife.Rfc2231.Syntax.Texts.{
  ItemText, regular_text, initial_text, later_text, in_sections, whole, plain_octet, hex_octet,
  OctetText, at_line_end,
}
use rustyknife.Rfc2231.Syntax.{
  digits_value, Parameter, regular, extended, initial, other, is_token, is_attribute_char,
}
use rustyknife.Tests.Samples.{plain}

abbrev items : Bytes
items = codes "; charset = utf-8;name*0*='en'a%2e;name*1*=b"

abbrev parameters : List Parameter
parameters =
    record {
      name = record { section = none; name = codes "charset" };
      value = regular (codes "utf-8");
    }
    ∷ record {
      name = record { section = some 0; name = codes "name" };
      value = extended (initial none (some (codes "en")) (codes "a."));
    }
    ∷ record {
      name = record { section = some 1; name = codes "name" };
      value = extended (other (codes "b"));
    }
    ∷ []

charset_item : ItemText (codes "; charset = utf-8") (record {
  name = record { section = none; name = codes "charset" };
  value = regular (codes "utf-8");
})
charset_item = record {
  blanks = codes " ";
  parameter_text = codes "charset = utf-8";
  splits = refl;
  blank = (refl, tt);
  spells =
      regular_text (codes "charset") [] (codes " ") (codes " ") (codes "utf-8") none
        (Every-all is_attribute_char (codes "charset") refl, λ no. cc no) whole (refl, tt)
        (refl, tt) (Every-all is_token (codes "utf-8") refl, λ no. cc no);
}

first_octets : Star OctetText (codes "a%2e") (codes "a.")
unfolding hex_value
first_octets =
    one_more {c = codes "a"} (plain_octet refl)
      (one_more {c = codes "%2e"} (hex_octet refl refl) none_left)

first_item : ItemText (codes ";name*0*='en'a%2e") (record {
  name = record { section = some 0; name = codes "name" };
  value = extended (initial none (some (codes "en")) (codes "a."));
})
first_item = record {
  blanks = [];
  parameter_text = codes "name*0*='en'a%2e";
  splits = refl;
  blank = tt;
  spells =
      initial_text (codes "name") (codes "*0") [] [] (codes "en") (codes "a%2e") (codes "a.")
        (some 0) none (some (codes "en"))
        (Every-all is_attribute_char (codes "name") refl, λ no. cc no) in_sections tt refl
        (refl, (Every-all is_attribute_char (codes "en") refl, λ no. cc no)) first_octets;
}

second_item : ItemText (codes ";name*1*=b") (record {
  name = record { section = some 1; name = codes "name" };
  value = extended (other (codes "b"));
})
unfolding digits_value
second_item = record {
  blanks = [];
  parameter_text = codes "name*1*=b";
  splits = refl;
  blank = tt;
  spells =
      later_text (codes "name") (codes "1") [] (codes "b") (codes "b")
        (Every-all is_attribute_char (codes "name") refl, λ no. cc no)
        ((refl, tt), λ no. omega (arith, no), omega arith) tt
        (one_more {c = codes "b"} (plain_octet refl) none_left);
}

items-ItemText : Star ItemText items parameters
items-ItemText = one_more {c = codes "; charset = utf-8"} charset_item (
    one_more {c = codes ";name*0*='en'a%2e"} first_item
      (one_more {c = codes ";name*1*=b"} second_item none_left))

content_type-ItemText_example :
    content_type (codes " Text/plain" ++ (items ++ codes "\r\nX"))
    ≡ ok (codes "X") (lowercase (codes "Text/plain"), decode_parameter_list parameters)
content_type-ItemText_example =
    content_type-ItemText (codes " ") (codes "Text") (codes "plain") items (codes "\r\nX")
      (codes "X") parameters (refl, tt) (Every-all is_token (codes "Text") refl, λ no. cc no)
      (Every-all is_token (codes "plain") refl, λ no. cc no) items-ItemText (at_line_end refl)

attachment_disposition : DispositionText (codes "Attachment") attachment
unfolding to_ascii_lowercase
attachment_disposition = attachment_text refl

content_disposition-DispositionText_example :
    content_disposition (codes " Attachment" ++ (items ++ codes "\r\nX"))
    ≡ ok (codes "X") (attachment, decode_parameter_list parameters)
content_disposition-DispositionText_example =
    content_disposition-DispositionText (codes " ") (codes "Attachment") items (codes "\r\nX")
      (codes "X") attachment parameters (refl, tt) attachment_disposition items-ItemText
      (at_line_end refl)

base64_url : EncodingText (codes "Base64") base64 (codes "url")
unfolding to_ascii_lowercase
base64_url = known_encoding is_base64 refl (inl (refl, λ no. cc no))

-- The token is longer than the word.
content_transfer_encoding-EncodingText_example :
    content_transfer_encoding (codes " Base64url") ≡ ok (codes "url") base64
content_transfer_encoding-EncodingText_example =
    content_transfer_encoding-EncodingText (codes " ") (codes "Base64") (codes "url") base64
      (refl, tt) base64_url
