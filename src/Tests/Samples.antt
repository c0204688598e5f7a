-- ===== src/Tests/Samples.antt =====
-- A value of the interface to the other crates, for examples in ASCII: it knows no encoding label.
use rustyknife.External.{External}
use rustyknife.Prelude.{true, [], none}

instance abbrev pub plain : External
plain = record {
  idna_is_ok = λ label. true;
  ipv6_from_str = λ s. none;
  ipv6_to_string = λ s. [];
  Codec = Unit {0};
  ascii = tt;
  encoding_from_whatwg_label = λ s. none;
  decode = λ codec s. s;
  from_utf8_lossy = λ s. s;
  base64_decode = λ s. none;
}
