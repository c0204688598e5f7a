-- ===== src/Tests/Envelopes.antt =====
-- The theorems about mailboxes of `Intl` and about the commands MAIL and RCPT at inputs.
use rustyknife.Conversions.Mailboxes.{
  mailbox_from_smtp-stable, mailbox_from_smtp-string_from_mailbox,
}
use rustyknife.Conversions.{converted, mailbox_from_smtp, mailbox_from_str, string_from_mailbox}
use rustyknife.Nom.Reference.{reference}
use rustyknife.Nom.{ok}
use rustyknife.Prelude.{
  to_ascii_lowercase, ◌≡◌, refl, inl, inr, [], ◌∷◌, ◌++◌, some, codes, arith, Every-all,
}
use rustyknife.Prelude.Utf8.{collect, encode_utf8}
use rustyknife.Rfc5321.Commands.AllLines.{command-CommandLine, mail_line}
use rustyknife.Rfc5321.Commands.Envelopes.{ending}
use rustyknife.Rfc5321.Commands.ForwardPaths.{IsForward}
use rustyknife.Rfc5321.Params.Complete.{AreParams}
use rustyknife.Rfc5321.Commands.{
  mail, expn, command, ForwardPath, forward, ReversePath, reverse, display_reverse_path,
}
use rustyknife.Rfc5321.Commands.Paths.{IsMailbox}
use rustyknife.Rfc5321.Mailboxes.LegacyTexts.{legacy_texts}
use rustyknife.Rfc5321.Mailboxes.Dotted.{dotted}
use rustyknife.Rfc5321.Mailboxes.LiteralsRead.{
  WellFormed, mailbox-WellFormed, Other, of_ipv6, of_tag,
}
use rustyknife.Rfc5321.Mailboxes.{mailbox}
use rustyknife.Rfc5321.Mailboxes.RoundTrip.{atoms, in_quotes, labels}
use rustyknife.Rfc5321.Policy.{intl, legacy, is_ldh}
use rustyknife.Rfc5322.Policy.{is_atext}
use rustyknife.Tests.Addresses.{john}
use rustyknife.Tests.Samples.{plain}
use rustyknife.Tests.Smtp.{ret_full, smtputf8}
use rustyknife.Types.{dot_atom, display_mailbox, display_local_part, Mailbox, quoted, DomainPart}

-- The quoted text is `"ö`, the domain `ö.x`.
abbrev intl_mailbox : Mailbox
intl_mailbox = record {
  local_part = quoted (collect (b'"' ∷ 246 ∷ []));
  domain_part = DomainPart.domain (dotted (collect (246 ∷ [])) (collect (b'x' ∷ []) ∷ []));
}

mailbox_from_smtp-string_from_mailbox_example :
    (mailbox_from_smtp (string_from_mailbox intl_mailbox) ≡ converted intl_mailbox)
    × (mailbox_from_str (string_from_mailbox intl_mailbox) ≡ some intl_mailbox)
unfolding reference is_ldh
mailbox_from_smtp-string_from_mailbox_example =
    mailbox_from_smtp-string_from_mailbox intl_mailbox
      (in_quotes (collect (b'"' ∷ 246 ∷ [])) (
        b'"' ∷ 246 ∷ [],
        refl,
        (inl (omega arith, refl), (inr (omega arith, omega arith, inl (omega arith)), tt)),
      ))
      (labels (collect (246 ∷ [])) (collect (b'x' ∷ []) ∷ [])
        ((246, [], refl, (inr (omega arith, omega arith, inl (omega arith)), tt)), refl)
        (((b'x', [], refl, (inl (omega arith, refl), tt)), refl), tt))

abbrev from_john : ReversePath
from_john = reverse (record { path_mailbox = john; route = [] })

abbrev to_john : ForwardPath
to_john = forward (record { path_mailbox = john; route = [] })

john-IsMailbox : IsMailbox legacy_texts john
unfolding reference is_ldh
john-IsMailbox = (
  atoms (codes "john") (codes "doe" ∷ []) (Every-all is_atext (codes "john") refl)
      (Every-all is_atext (codes "doe") refl, tt),
  labels (codes "a-1") (codes "example" ∷ []) (refl, inr (refl, Every-all is_ldh (codes "-1") refl))
      ((refl, inr (refl, Every-all is_ldh (codes "xample") refl)), tt),
)

params_well_formed : AreParams (ret_full ∷ smtputf8 ∷ [])
unfolding reference is_ldh
params_well_formed = ground arith

command-CommandLine_example :
    command legacy (
      codes "Mail from:"
      ++ (display_reverse_path from_john ++ ending (ret_full ∷ smtputf8 ∷ []) (codes "QUIT\r\n")))
    ≡ ok (codes "QUIT\r\n") (mail from_john (ret_full ∷ smtputf8 ∷ []))
unfolding to_ascii_lowercase
command-CommandLine_example =
    command-CommandLine (codes "QUIT\r\n")
      (codes "Mail from:"
        ++ (display_reverse_path from_john ++ ending (ret_full ∷ smtputf8 ∷ []) (codes "QUIT\r\n")))
      (mail from_john (ret_full ∷ smtputf8 ∷ []))
      (mail_line (codes "Mail from:") from_john (ret_full ∷ smtputf8 ∷ []) refl
        (john-IsMailbox, refl) params_well_formed)

-- A quoted mailbox name, and the postmaster.
expn_read_run : command legacy (codes "expn \"a b\"\r\n") ≡ ok [] (expn (codes "a b"))
unfolding reference command legacy encode_utf8
expn_read_run = refl

to_john-IsForward : IsForward legacy_texts to_john
unfolding display_mailbox display_local_part to_ascii_lowercase
to_john-IsForward = ((john-IsMailbox, refl), refl, refl)

abbrev bob : Mailbox
bob = record {
  local_part = dot_atom (codes "bob");
  domain_part = DomainPart.domain (codes "example.org");
}

mailbox_run : mailbox intl (codes "bob@example.org>") ≡ ok (codes ">") bob
unfolding reference mailbox intl
mailbox_run = refl

mailbox-WellFormed_example : WellFormed bob
mailbox-WellFormed_example =
    mailbox-WellFormed (codes "bob@example.org>") (codes ">") bob mailbox_run

mailbox_from_smtp_run : mailbox_from_smtp (codes "bob@example.org") ≡ converted bob
unfolding reference mailbox_from_smtp mailbox intl
mailbox_from_smtp_run = refl

bob_no_literal : ¬ Other bob.domain_part
bob_no_literal h = absurd (no_literal refl h)
  where
    no_literal : {dp : DomainPart} → dp ≡ bob.domain_part → Other dp → ⊥
    no_literal e (of_ipv6 s) = cc e
    no_literal e (of_tag t v) = cc e

mailbox_from_smtp-stable_example : mailbox_from_smtp (string_from_mailbox bob) ≡ converted bob
mailbox_from_smtp-stable_example =
    mailbox_from_smtp-stable (codes "bob@example.org") bob mailbox_from_smtp_run bob_no_literal
