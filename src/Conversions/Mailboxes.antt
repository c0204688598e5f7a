-- ===== src/Conversions/Mailboxes.antt =====
-- src/types.rs: mailboxes as strings and back, in the behaviour `Intl`.
use rustyknife.Conversions.{
  from_smtp, converted, mailbox_from_smtp, mailbox_from_str, string_from_mailbox,
}
use rustyknife.External.{External}
use rustyknife.Nom.Rules.{IResult-cases, and_then-ok}
use rustyknife.Nom.{Nom, err, error, ok, exact}
use rustyknife.Prelude.{◌∙◌, ap, inl, inr, Bytes, ◌∷◌, ◌≡◌, refl, [], append-nil, some}
use rustyknife.Rfc5321.Mailboxes.IntlTexts.{intl_texts}
use rustyknife.Rfc5321.Mailboxes.LiteralsRead.{Other, mailbox-WellFormed}
use rustyknife.Rfc5321.Mailboxes.RoundTrip.{IsLocal, IsDomainPart, mailbox_read_back}
use rustyknife.Rfc5321.Mailboxes.{mailbox}
use rustyknife.Rfc5321.Policy.{intl}
use rustyknife.Types.{Mailbox, display_mailbox}

module _ ⦃nom : Nom⦄ ⦃ext : External⦄ where
  whole_mailbox :
      (m : Mailbox)
      → IsLocal intl_texts m.local_part
      → IsDomainPart intl_texts m.domain_part
      → exact (mailbox intl) (display_mailbox m) ≡ ok [] m
  whole_mailbox m hl hd =
      rw (nom.exact_law, rw append-nil at (mailbox_read_back intl_texts m [] hl hd tt tt)) refl

  -- A mailbox that is turned into a string is converted back to itself, by the conversion of SMTP
  -- text and by the one from `&str`: its local part is atoms with dots between them or a text in
  -- quotes, of printable ASCII and any characters beyond ASCII, its domain part labels of such
  -- characters that the crate `idna` takes, or an IPv4 address.
  pub mailbox_from_smtp-string_from_mailbox :
      (m : Mailbox)
      → IsLocal intl_texts m.local_part
      → IsDomainPart intl_texts m.domain_part
      → (mailbox_from_smtp (string_from_mailbox m) ≡ converted m)
        × (mailbox_from_str (string_from_mailbox m) ≡ some m)
  unfolding mailbox_from_smtp mailbox_from_str string_from_mailbox
  mailbox_from_smtp-string_from_mailbox m hl hd =
      (rw (whole_mailbox m hl hd) refl, rw (whole_mailbox m hl hd) refl)

  value_read :
      (s : Bytes) (m : Mailbox)
      → mailbox_from_smtp s ≡ converted m
      → (r : Bytes) × (mailbox intl s ≡ ok r m)
  unfolding mailbox_from_smtp
  value_read s m e = elim (IResult-cases (exact (mailbox intl) s)) [
    | inl (r, n, h) ↦
        let (t, a, pe, h') = and_then-ok (mailbox intl s) _ (rw nom.exact_law at h) in
        let same : a ≡ m = last t a r n h' (rw (h, from_smtp) at e) in (t, pe ∙ ap (ok t) same)
    | inr (x, h) ↦ absurd (cc (rw (h, from_smtp) at e))
  ]
    where
      last :
          (t : Bytes) (a : Mailbox) (r : Bytes) (n : Mailbox)
          → elim t [ [] ↦ ok [] a | _ ∷ _ ↦ err error ] ≡ ok r n
          → converted n ≡ converted m
          → a ≡ m
      last [] a r n h e = cc (h, e)
      last (c ∷ t) a r n h e = absurd (cc h)

  -- A mailbox that was converted from SMTP text is converted back to itself from its own string,
  -- whatever the text was, if its domain part is a domain or an IPv4 address.
  pub mailbox_from_smtp-stable :
      (s : Bytes) (m : Mailbox)
      → mailbox_from_smtp s ≡ converted m
      → ¬ Other m.domain_part
      → mailbox_from_smtp (string_from_mailbox m) ≡ converted m
  mailbox_from_smtp-stable s m e h =
      let (r, pe) = value_read s m e in
      let (hl, hd) = mailbox-WellFormed s r m pe in
      elim hd [ inl k ↦ (mailbox_from_smtp-string_from_mailbox m hl k).0 | inr o ↦ absurd (h o) ]
