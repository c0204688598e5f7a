-- ===== src/Rfc5321/Mailboxes/IntlRead.antt =====
-- src/rfc5321.rs: what the parsers of local parts and domains return in the behaviour `Intl`.
use rustyknife.External.{External}
use rustyknife.Nom.Rules.{
  Sound, Sound-weaken, Sound-verify, Yields, Yields-alt, Yields-map, Yields-preceded,
  Yields-delimited, Yields-many0, Yields-Sound, Sound-take1_filter,
}
use rustyknife.Nom.{Nom}
use rustyknife.Prelude.{ℕ, inl, inr, refl, sym, subst, arith}
use rustyknife.Prelude.Utf8.{collect}
use rustyknife.Rfc5321.Mailboxes.DottedRead.{Part, Parts, Sound-dotted}
use rustyknife.Rfc5321.Mailboxes.IntlTexts.{
  IsAtom, IsLabel, IsQuoted, intl_texts, is_atext_narrow, is_ldh_narrow, is_qtext_smtp_narrow,
}
use rustyknife.Rfc5321.Mailboxes.Quoted.{is_printable}
use rustyknife.Rfc5321.Mailboxes.RoundTrip.{IsLocal, atoms, in_quotes}
use rustyknife.Rfc5321.Mailboxes.{
  atom, dot_string, qcontent_smtp, quoted_pair_smtp, quoted_string, local_part, domain,
}
use rustyknife.Rfc5321.Policy.{legacy, intl, is_ldh, is_qtext_smtp}
use rustyknife.Rfc5322.Policy as Imf
use rustyknife.Rfc5322.Policy.Chars.{CharOf}
use rustyknife.Rfc5322.Policy.CharsRead.{Sound-chars, Sound-char}
use rustyknife.Rfc5322.Policy.{is_atext}
use rustyknife.Types.{dot_atom, quoted}

printable_qtext : (c : ℕ) → CharOf is_qtext_smtp c → CharOf is_printable c
printable_qtext c (inl (l, y)) = inl (l, ground (arith, y))
printable_qtext c (inr w) = inr w

module _ ⦃nom : Nom⦄ ⦃ext : External⦄ where
  Sound-atom : Sound (atom intl) (Part IsAtom)
  unfolding atom intl Imf.intl Imf.legacy
  Sound-atom = Sound-chars is_atext is_atext_narrow

  Sound-sub_domain : Sound intl.sub_domain (Part IsLabel)
  unfolding intl
  Sound-sub_domain =
      Sound-weaken _ (Sound-verify _ (Sound-chars is_ldh is_ldh_narrow) _)
        (λ t x ((same, h), good). (same, (h, good)))

  -- A dot string is atoms with dots between them, a domain labels.
  dot_string-Parts : Yields (dot_string intl) (Parts IsAtom)
  unfolding dot_string
  dot_string-Parts =
      Yields-map _ (Parts IsAtom)
        (Yields-Sound _ (Sound-dotted IsAtom (atom intl) Sound-atom) (λ t a h. h.1)) (λ a. a)
        (λ a h. h)

  pub domain-Parts : Yields (domain intl) (Parts IsLabel)
  unfolding domain
  domain-Parts =
      Yields-map _ (Parts IsLabel)
        (Yields-Sound _ (Sound-dotted IsLabel intl.sub_domain Sound-sub_domain) (λ t a h. h.1))
        (λ a. a) (λ a h. h)

  content-printable : Yields (qcontent_smtp intl) (CharOf is_printable)
  unfolding qcontent_smtp quoted_pair_smtp intl legacy
  content-printable =
      Yields-alt _ _
        (Yields-Sound _ (Sound-char is_qtext_smtp is_qtext_smtp_narrow)
          (λ t c h. printable_qtext c h.1))
        (Yields-preceded _ _ (
          Yields-Sound _ (Sound-take1_filter is_printable)
            (λ t c h. inl (ground (arith, h.1), h.1))))

  quoted_string-IsQuoted : Yields (quoted_string intl) IsQuoted
  unfolding quoted_string
  quoted_string-IsQuoted =
      Yields-map _ IsQuoted (Yields-delimited _ _ _ (Yields-many0 _ content-printable)) collect
        (λ cs h. (cs, refl, h))

  pub local_part-IsLocal : Yields (local_part intl) (IsLocal intl_texts)
  unfolding local_part
  local_part-IsLocal =
      Yields-alt _ _
        (Yields-map _ (IsLocal intl_texts) dot_string-Parts dot_atom (λ a (x, xs, e, hx, h).
          subst (λ a. IsLocal intl_texts (dot_atom a)) (sym e) (atoms x xs hx h)))
        (Yields-map _ (IsLocal intl_texts) quoted_string-IsQuoted quoted (λ q h. in_quotes q h))
