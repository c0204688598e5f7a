-- ===== src/Tests/Headers.antt =====
-- src/tests/test_headersection.rs, and the header theorems at inputs.
use rustyknife.Headersection.Lossless.{header_section-lossless, lines_of, AreFields}
use rustyknife.Headersection.Complete.{header_section-lines_of}
use rustyknife.Headersection.Streaming.{header_section-more}
use rustyknife.Headersection.Decided.{header_section-decides}
use rustyknife.Headersection.OneLine.{is_inner}
use rustyknife.Headersection.{is_field_name, HeaderField, valid, invalid, header_section}
use rustyknife.Nom.Reference.{reference}
use rustyknife.Nom.{ok}
use rustyknife.Prelude.{◌≡◌, refl, ◌⊎◌, List, [], ◌∷◌, ◌++◌, Bytes, codes, Every-all}

abbrev message : Bytes
message = codes "Status: 1\r\nbad header\r\nA: b\r\n c\r\n\r\nbody"

abbrev fields : List HeaderField
fields =
    valid (codes "Status") (codes " 1")
    ∷ invalid (codes "bad header")
    ∷ valid (codes "A") (codes " b\r\n c")
    ∷ []

header_section_run : header_section message ≡ ok (codes "body") fields
unfolding reference header_section
header_section_run = refl

header_section-lossless_example :
    ((message ≡ lines_of fields ++ codes "body")
      ⊎ (message ≡ lines_of fields ++ (codes "\r\n" ++ codes "body")))
    × AreFields fields
header_section-lossless_example =
    header_section-lossless message (codes "body") fields header_section_run

header_section-more_example :
    header_section (message ++ codes "\r\n\r\nrest")
    ≡ ok (codes "body" ++ codes "\r\n\r\nrest") fields
header_section-more_example =
    header_section-more message (codes "\r\n\r\nrest") (codes "body") fields header_section_run

header_section-decides_example :
    (fs : List HeaderField) × (body : Bytes) × (header_section
        (codes "A b\r:\r\n c" ++ (codes "\r\n\r\n" ++ codes "rest"))
      ≡ ok (body ++ codes "rest") fs)
header_section-decides_example = header_section-decides (codes "A b\r:\r\n c") (codes "rest")

abbrev short_fields : List HeaderField
short_fields =
    valid (codes "Status") (codes " 1 ")
    ∷ valid (codes "A") (codes "\t")
    ∷ valid (codes "B") []
    ∷ []

header_section-lines_of_example :
    header_section (lines_of short_fields ++ (codes "\r\n" ++ codes "\r\nbody"))
    ≡ ok (codes "\r\nbody") short_fields
header_section-lines_of_example = header_section-lines_of short_fields (codes "\r\nbody") (
  (
    Every-all is_field_name (codes "Status") refl,
    λ no. cc no,
    Every-all is_inner (codes " 1 ") refl,
  ),
  (
    (Every-all is_field_name (codes "A") refl, λ no. cc no, Every-all is_inner (codes "\t") refl),
    ((Every-all is_field_name (codes "B") refl, λ no. cc no, tt), tt),
  ),
)
