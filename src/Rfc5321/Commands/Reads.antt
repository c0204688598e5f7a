-- ===== src/Rfc5321/Commands/Reads.antt =====
-- src/rfc5321.rs: the commands besides MAIL and RCPT read their lines.
use rustyknife.External.{External}
use rustyknife.Nom.Rules.{tag_no_case-letters}
use rustyknife.Nom.{Nom, ok}
use rustyknife.Prelude.{◌≡◌, refl, ◌∷◌, ◌++◌, none, some, Bytes, codes, arith}
use rustyknife.Rfc5321.Commands.Envelopes.{line_end}
use rustyknife.Rfc5321.Commands.Lines.{Spelt, smtp_string-Spelt, InAnyCase}
use rustyknife.Rfc5321.Commands.{
  ehlo_command, helo_command, data_command, rset_command, noop_command, quit_command, vrfy_command,
  expn_command, help_command,
}
use rustyknife.Rfc5321.Mailboxes.LegacyTexts.{legacy_texts}
use rustyknife.Rfc5321.Mailboxes.RoundTrip.{
  IsDomainPart, labels, domain-dotted, domain_part-display_domain_part,
}
use rustyknife.Rfc5321.Params.Complete.{cr-is_ldh}
use rustyknife.Rfc5321.Policy.{legacy}
use rustyknife.Types.{Domain, DomainPart, display_domain_part}

module _ ⦃nom : Nom⦄ ⦃ext : External⦄ where
  pub ehlo_read :
      (w : Bytes) (d : DomainPart) (r : Bytes)
      → InAnyCase (codes "EHLO ") w
      → IsDomainPart legacy_texts d
      → ehlo_command legacy (w ++ (display_domain_part d ++ (codes "\r\n" ++ r))) ≡ ok r d
  unfolding ehlo_command
  ehlo_read w d r e h =
      rw
        (
          nom.delimited_law,
          tag_no_case-letters (codes "EHLO ") w _ e,
          domain_part-display_domain_part legacy_texts d (codes "\r\n" ++ r) h cr-is_ldh
              (omega arith),
          line_end,
        )
        refl

  pub helo_read :
      (w : Bytes) (d : Domain) (r : Bytes)
      → InAnyCase (codes "HELO ") w
      → IsDomainPart legacy_texts (DomainPart.domain d)
      → helo_command legacy (w ++ (d ++ (codes "\r\n" ++ r))) ≡ ok r d
  unfolding helo_command
  helo_read w d r e (labels l ls hl h) =
      rw
        (
          nom.delimited_law,
          tag_no_case-letters (codes "HELO ") w _ e,
          domain-dotted legacy_texts l ls (codes "\r\n" ++ r) hl h cr-is_ldh (omega arith),
          line_end,
        )
        refl

  pub noop_read :
      (w r : Bytes)
      → InAnyCase (codes "NOOP") w
      → noop_command legacy (w ++ (codes "\r\n" ++ r)) ≡ ok r none
  unfolding noop_command
  noop_read w r e =
      rw
        (
          nom.delimited_law,
          tag_no_case-letters (codes "NOOP") w _ e,
          nom.opt_law,
          nom.preceded_law,
          nom.tag_law,
          line_end,
        )
        refl

  pub noop_with_read :
      (w : Bytes) (t x r : Bytes)
      → InAnyCase (codes "NOOP") w
      → Spelt t x
      → noop_command legacy (w ++ (b' ' ∷ (t ++ (codes "\r\n" ++ r)))) ≡ ok r (some x)
  unfolding noop_command
  noop_with_read w t x r e h =
      rw
        (
          nom.delimited_law,
          tag_no_case-letters (codes "NOOP") w _ e,
          nom.opt_law,
          nom.preceded_law,
          nom.tag_law,
          smtp_string-Spelt t x r h,
          line_end,
        )
        refl

  pub help_read :
      (w r : Bytes)
      → InAnyCase (codes "HELP") w
      → help_command legacy (w ++ (codes "\r\n" ++ r)) ≡ ok r none
  unfolding help_command
  help_read w r e =
      rw
        (
          nom.delimited_law,
          tag_no_case-letters (codes "HELP") w _ e,
          nom.opt_law,
          nom.preceded_law,
          nom.tag_law,
          line_end,
        )
        refl

  pub help_with_read :
      (w : Bytes) (t x r : Bytes)
      → InAnyCase (codes "HELP") w
      → Spelt t x
      → help_command legacy (w ++ (b' ' ∷ (t ++ (codes "\r\n" ++ r)))) ≡ ok r (some x)
  unfolding help_command
  help_with_read w t x r e h =
      rw
        (
          nom.delimited_law,
          tag_no_case-letters (codes "HELP") w _ e,
          nom.opt_law,
          nom.preceded_law,
          nom.tag_law,
          smtp_string-Spelt t x r h,
          line_end,
        )
        refl

  pub vrfy_read :
      (w : Bytes) (t x r : Bytes)
      → InAnyCase (codes "VRFY ") w
      → Spelt t x
      → vrfy_command legacy (w ++ (t ++ (codes "\r\n" ++ r))) ≡ ok r x
  unfolding vrfy_command
  vrfy_read w t x r e h =
      rw
        (
          nom.delimited_law,
          tag_no_case-letters (codes "VRFY ") w _ e,
          smtp_string-Spelt t x r h,
          line_end,
        )
        refl

  pub expn_read :
      (w : Bytes) (t x r : Bytes)
      → InAnyCase (codes "EXPN ") w
      → Spelt t x
      → expn_command legacy (w ++ (t ++ (codes "\r\n" ++ r))) ≡ ok r x
  unfolding expn_command
  expn_read w t x r e h =
      rw
        (
          nom.delimited_law,
          tag_no_case-letters (codes "EXPN ") w _ e,
          smtp_string-Spelt t x r h,
          line_end,
        )
        refl

  pub data_read : (w r : Bytes) → InAnyCase (codes "DATA\r\n") w → data_command (w ++ r) ≡ ok r tt
  unfolding data_command
  data_read w r e = rw (nom.map_law, tag_no_case-letters (codes "DATA\r\n") w _ e) refl

  pub rset_read : (w r : Bytes) → InAnyCase (codes "RSET\r\n") w → rset_command (w ++ r) ≡ ok r tt
  unfolding rset_command
  rset_read w r e = rw (nom.map_law, tag_no_case-letters (codes "RSET\r\n") w _ e) refl

  pub quit_read : (w r : Bytes) → InAnyCase (codes "QUIT\r\n") w → quit_command (w ++ r) ≡ ok r tt
  unfolding quit_command
  quit_read w r e = rw (nom.map_law, tag_no_case-letters (codes "QUIT\r\n") w _ e) refl
