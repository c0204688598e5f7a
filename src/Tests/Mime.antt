-- ===== src/Tests/Mime.antt =====
-- src/tests/test_rfc2231.rs, and the theorems about MIME parameters and UTF-8 at inputs.
use rustyknife.Nom.Reference.{reference}
use rustyknife.Nom.{ok}
use rustyknife.Prelude.{◌≡◌, refl, List, [], ◌∷◌, none, some, Bytes, codes, to_ascii_lowercase}
use rustyknife.Rfc2231.Decode.{decode_parameter_list, get}
use rustyknife.Rfc2231.Decode.Meaning.{meaning}
use rustyknife.Rfc2231.Decode.Merged.{get-decode_parameter_list}
use rustyknife.Rfc2231.Decode.Lookup.{Unique}
use rustyknife.Rfc2231.Decode.Names.{decode_parameter_list-Unique}
use rustyknife.Rfc2231.Decode.Reorder.{exchange, by_section, decode_parameter_list-Reordered}
use rustyknife.Rfc2231.Decode.Total.{decode_parameter_list-parameter_list}
use rustyknife.Rfc2231.Syntax.{Parameter, regular, extended, other, parameter_list}
use rustyknife.Prelude.{◌++◌, inl, arith}
use rustyknife.Prelude.Utf8.{encode_utf8}
use rustyknife.Rfc5322.Policy.{utf8_non_ascii}
use rustyknife.Rfc5322.Policy.Utf8.{utf8_non_ascii-encode_utf8}
use rustyknife.Tests.Samples.{plain}

-- Two sections out of order, under one name in two cases, and a plain value that they hide.
abbrev parameters : List Parameter
parameters =
    record {
      name = record { section = some 1; name = codes "Title" };
      value = extended (other (codes "b c"));
    }
    ∷ record { name = record { section = none; name = codes "title" }; value = regular (codes "x") }
    ∷ record {
      name = record { section = some 0; name = codes "title" };
      value = regular (codes "a");
    }
    ∷ []

abbrev text : Bytes
text = codes ";Title*1*=b%20c;title=x;title*0=a"

parameter_list_run : parameter_list text ≡ ok [] parameters
unfolding reference parameter_list
parameter_list_run = refl

decode_parameter_list_run :
    decode_parameter_list parameters ≡ some ((codes "title", codes "ab c") ∷ [])
unfolding decode_parameter_list to_ascii_lowercase
decode_parameter_list_run = refl

get-decode_parameter_list_example :
    get (codes "title") ((codes "title", codes "ab c") ∷ []) ≡ meaning (codes "title") parameters
get-decode_parameter_list_example =
    get-decode_parameter_list (codes "title") parameters ((codes "title", codes "ab c") ∷ [])
      decode_parameter_list_run

decode_parameter_list-parameter_list_example :
    (out : List (Bytes × Bytes)) × (decode_parameter_list parameters ≡ some out)
    × ((k : Bytes) → get k out ≡ meaning k parameters)
decode_parameter_list-parameter_list_example =
    decode_parameter_list-parameter_list text [] parameters parameter_list_run

-- The euro sign.
utf8_non_ascii-encode_utf8_example :
    utf8_non_ascii (encode_utf8 0x20ac ++ codes "!") ≡ ok (codes "!") 0x20ac
utf8_non_ascii-encode_utf8_example =
    utf8_non_ascii-encode_utf8 0x20ac (codes "!") (omega arith) (omega arith) (inl (omega arith))

decode_parameter_list-Unique_example : Unique ((codes "title", codes "ab c") ∷ [])
decode_parameter_list-Unique_example =
    decode_parameter_list-Unique parameters ((codes "title", codes "ab c") ∷ [])
      decode_parameter_list_run

abbrev second_part : Parameter
second_part = record {
  name = record { section = some 1; name = codes "Title" };
  value = extended (other (codes "b c"));
}

abbrev first_part : Parameter
first_part = record {
  name = record { section = some 0; name = codes "title" };
  value = regular (codes "a");
}

in_order_run :
    decode_parameter_list (first_part ∷ second_part ∷ [])
    ≡ some ((codes "title", codes "ab c") ∷ [])
unfolding decode_parameter_list to_ascii_lowercase
in_order_run = refl

out_of_order_run :
    decode_parameter_list (second_part ∷ first_part ∷ [])
    ≡ some ((codes "title", codes "ab c") ∷ [])
unfolding decode_parameter_list to_ascii_lowercase
out_of_order_run = refl

decode_parameter_list-Reordered_example :
    get (codes "title") ((codes "title", codes "ab c") ∷ [])
    ≡ get (codes "title") ((codes "title", codes "ab c") ∷ [])
decode_parameter_list-Reordered_example =
    decode_parameter_list-Reordered (codes "title") (second_part ∷ first_part ∷ [])
      (first_part ∷ second_part ∷ []) ((codes "title", codes "ab c") ∷ [])
      ((codes "title", codes "ab c") ∷ [])
      (exchange second_part first_part [] (by_section 1 0 refl refl (omega arith) (inl refl)))
      out_of_order_run in_order_run
