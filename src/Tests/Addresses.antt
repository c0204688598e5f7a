-- ===== src/Tests/Addresses.antt =====
-- The theorems about local parts, literals and chunk sizes at inputs.
use rustyknife.Nom.Reference.{reference}
use rustyknife.Nom.{ok, err, error}
use rustyknife.Prelude.{
  within, Every-all, ◌≡◌, ◌≢◌, ◌⊎◌, refl, [], ◌++◌, codes, arith, ltb, ◌^◌, if◌then◌else◌,
}
use rustyknife.Rfc5321.Commands.ChunkSize.{bdat_chunk_size-value_from, value_from}
use rustyknife.Rfc5321.Commands.{bdat_chunk_size}
use rustyknife.Rfc5321.Mailboxes.Octets.{address_literal-display_address_literal}
use rustyknife.Rfc5321.Mailboxes.Quoted.{quoted_string-quoted_form, is_printable}
use rustyknife.Rfc5321.Mailboxes.Unquote.{smtp_try_unquote-quoted}
use rustyknife.Rfc5321.Mailboxes.{quoted_string, address_literal, dot_string, smtp_try_unquote}
use rustyknife.Rfc5321.Policy.{legacy}
use rustyknife.Prelude.{◌↔◌}
use rustyknife.Rfc5321.Policy.{ldh_str}
use rustyknife.Rfc5321.Policy.Labels.{Label, ldh_str-Label_iff}
use rustyknife.Prelude.{some, none}
use rustyknife.Rfc5321.Commands.IntoMailbox.{into_mailbox}
use rustyknife.Rfc5321.Commands.{post_master}
use rustyknife.Rfc5321.Commands.Postmaster.{addressee, into_mailbox-addressee}
use rustyknife.Types.{DomainPart}
use rustyknife.Prelude.{◌∷◌, inr}
use rustyknife.Rfc5321.Mailboxes.{mailbox}
use rustyknife.Rfc5321.Mailboxes.Dotted.{dotted}
use rustyknife.Rfc5321.Mailboxes.RoundTrip.{atoms, labels}
use rustyknife.Rfc5321.Mailboxes.LegacyTexts.{mailbox-display_mailbox}
use rustyknife.Rfc5321.Policy.{is_ldh}
use rustyknife.Rfc5322.Policy.{is_atext}
use rustyknife.Types.{Mailbox, display_mailbox}
use rustyknife.Tests.Samples.{plain}
use rustyknife.Types.{quoted_form, display_address_literal, ip, v4, dot_atom, quoted}

quoted_form_run : quoted_form (codes "a \"b") ≡ codes "\"a \\\"b\""
unfolding quoted_form
quoted_form_run = refl

quoted_string-quoted_form_example :
    quoted_string legacy (quoted_form (codes "a \"b") ++ codes "@x")
    ≡ ok (codes "@x") (codes "a \"b")
quoted_string-quoted_form_example =
    quoted_string-quoted_form (codes "a \"b") (codes "@x")
      (Every-all is_printable (codes "a \"b") refl)

address_literal-display_address_literal_example :
    address_literal (display_address_literal (ip (v4 192 0 2 255)) ++ codes ">")
    ≡ ok (codes ">") (ip (v4 192 0 2 255))
address_literal-display_address_literal_example =
    address_literal-display_address_literal 192 0 2 255 (codes ">") (omega arith) (omega arith)
      (omega arith) (omega arith)

smtp_try_unquote-quoted_example :
    ((dot_string legacy (codes "a.b") ≡ ok [] (codes "a.b"))
      × (smtp_try_unquote legacy (quoted (codes "a.b")) ≡ dot_atom (codes "a.b")))
    ⊎ ((dot_string legacy (codes "a.b") ≢ ok [] (codes "a.b"))
        × (smtp_try_unquote legacy (quoted (codes "a.b")) ≡ quoted (codes "a.b")))
smtp_try_unquote-quoted_example = smtp_try_unquote-quoted legacy (codes "a.b")

bdat_chunk_size-value_from_example :
    bdat_chunk_size (codes "18446744073709551616" ++ codes " LAST") ≡ (
      if ltb (value_from 0 (codes "18446744073709551616")) (2 ^ 64)
      then ok (codes " LAST") (value_from 0 (codes "18446744073709551616"))
      else err error)
unfolding reference
bdat_chunk_size-value_from_example =
    bdat_chunk_size-value_from (codes "18446744073709551616") (codes " LAST")
      (Every-all (within 48 57) (codes "18446744073709551616") refl, omega arith, omega arith) refl

ldh_str_run : ldh_str (codes "ab-c--.d") ≡ ok (codes "--.d") (codes "ab-c")
unfolding reference ldh_str
ldh_str_run = refl

ldh_str-Label_iff_example :
    (ldh_str (codes "ab-c--.d") ≡ ok (codes "--.d") (codes "ab-c"))
    ↔ Label (codes "ab-c--.d") (codes "--.d") (codes "ab-c")
ldh_str-Label_iff_example = ldh_str-Label_iff (codes "ab-c--.d") (codes "--.d") (codes "ab-c")

into_mailbox-addressee_example :
    into_mailbox (post_master none) (DomainPart.domain (codes "example.org"))
    ≡ some (addressee (post_master none) (DomainPart.domain (codes "example.org")))
into_mailbox-addressee_example =
    into_mailbox-addressee (post_master none) (DomainPart.domain (codes "example.org"))

abbrev pub john : Mailbox
john = record {
  local_part = dot_atom (dotted (codes "john") (codes "doe" ∷ []));
  domain_part = DomainPart.domain (dotted (codes "a-1") (codes "example" ∷ []));
}

mailbox-display_mailbox_example :
    mailbox legacy (display_mailbox john ++ codes ">") ≡ ok (codes ">") john
unfolding reference is_ldh
mailbox-display_mailbox_example =
    mailbox-display_mailbox john (codes ">")
      (atoms (codes "john") (codes "doe" ∷ []) (Every-all is_atext (codes "john") refl)
        (Every-all is_atext (codes "doe") refl, tt))
      (labels (codes "a-1") (codes "example" ∷ [])
        (refl, inr (refl, Every-all is_ldh (codes "-1") refl))
        ((refl, inr (refl, Every-all is_ldh (codes "xample") refl)), tt))
      refl (omega arith)
