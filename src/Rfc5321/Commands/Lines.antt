-- ===== src/Rfc5321/Commands/Lines.antt =====
-- src/rfc5321.rs: the words of the commands, and their arguments that are strings.
use rustyknife.External.{External}
use rustyknife.Nom.Rules.{strip-same_letters}
use rustyknife.Nom.{Nom, ok, err, error, tag_no_case}
use rustyknife.Prelude.{lowercase, ◌≡◌, refl, true, ◌++◌, Bytes, codes, Every}
use rustyknife.Rfc5321.Commands.ForwardPaths.{differs, differs-strip}
use rustyknife.Rfc5321.Commands.{
  ehlo_command, helo_command, mail_command, rcpt_command, data_command, rset_command, noop_command,
  quit_command, vrfy_command, expn_command, smtp_string,
}
use rustyknife.Rfc5321.Mailboxes.LegacyTexts.{IsAtom, atom-run, no_atom}
use rustyknife.Rfc5321.Mailboxes.Quoted.{is_printable, quoted_string-quoted_form}
use rustyknife.Rfc5321.Mailboxes.{atom}
use rustyknife.Rfc5321.Policy.{legacy}
use rustyknife.Types.{quoted_form}

-- An argument stands as an atom, or in quotes.
pub data Spelt ⦃nom : Nom⦄ : Bytes → Bytes → Type 0 where
  as_atom : (x : Bytes) → IsAtom x → Spelt x x
  in_quotes : (q : Bytes) → Every is_printable q → Spelt (quoted_form q) q

-- The word of a command, in any case.
abbrev pub InAnyCase : Bytes → Bytes → Type 0
InAnyCase name w = lowercase w ≡ lowercase name

module _ ⦃nom : Nom⦄ where
  quotes_no_atom : (q s : Bytes) → atom legacy (quoted_form q ++ s) ≡ err error
  unfolding quoted_form
  quotes_no_atom q s = no_atom _

  pub smtp_string-Spelt :
      (t x r : Bytes)
      → Spelt t x
      → smtp_string legacy (t ++ (codes "\r\n" ++ r)) ≡ ok (codes "\r\n" ++ r) x
  unfolding smtp_string
  smtp_string-Spelt t x r (as_atom y h) =
      rw (nom.alt_law, nom.map_law, atom-run y (codes "\r\n" ++ r) h refl) refl
  smtp_string-Spelt t x r (in_quotes q h) =
      rw
        (
          nom.alt_law,
          nom.map_law,
          quotes_no_atom q (codes "\r\n" ++ r),
          nom.map_law,
          quoted_string-quoted_form q (codes "\r\n" ++ r) h,
        )
        refl

  -- Another word comes first.
  other_word :
      (x n w r : Bytes) → InAnyCase n w → differs x n ≡ true → tag_no_case x (w ++ r) ≡ err error
  other_word x n w r e h =
      rw (nom.tag_no_case_law, strip-same_letters x w n r e (differs-strip x n r h)) refl

  pub ehlo_fails :
      ⦃ext : External⦄
      → (n w r : Bytes) → InAnyCase n w
      → differs (codes "EHLO ") n ≡ true
      → ehlo_command legacy (w ++ r) ≡ err error
  unfolding ehlo_command
  ehlo_fails n w r e h = rw (nom.delimited_law, other_word _ n w r e h) refl

  pub helo_fails :
      (n w r : Bytes)
      → InAnyCase n w
      → differs (codes "HELO ") n ≡ true
      → helo_command legacy (w ++ r) ≡ err error
  unfolding helo_command
  helo_fails n w r e h = rw (nom.delimited_law, other_word _ n w r e h) refl

  pub mail_fails :
      ⦃ext : External⦄
      → (n w r : Bytes) → InAnyCase n w
      → differs (codes "MAIL FROM:") n ≡ true
      → mail_command legacy (w ++ r) ≡ err error
  unfolding mail_command
  mail_fails n w r e h = rw (nom.map_law, nom.delimited_law, other_word _ n w r e h) refl

  pub rcpt_fails :
      ⦃ext : External⦄
      → (n w r : Bytes) → InAnyCase n w
      → differs (codes "RCPT TO:") n ≡ true
      → rcpt_command legacy (w ++ r) ≡ err error
  unfolding rcpt_command
  rcpt_fails n w r e h = rw (nom.map_law, nom.delimited_law, other_word _ n w r e h) refl

  pub data_fails :
      (n w r : Bytes)
      → InAnyCase n w
      → differs (codes "DATA\r\n") n ≡ true
      → data_command (w ++ r) ≡ err error
  unfolding data_command
  data_fails n w r e h = rw (nom.map_law, other_word _ n w r e h) refl

  pub rset_fails :
      (n w r : Bytes)
      → InAnyCase n w
      → differs (codes "RSET\r\n") n ≡ true
      → rset_command (w ++ r) ≡ err error
  unfolding rset_command
  rset_fails n w r e h = rw (nom.map_law, other_word _ n w r e h) refl

  pub noop_fails :
      (n w r : Bytes)
      → InAnyCase n w
      → differs (codes "NOOP") n ≡ true
      → noop_command legacy (w ++ r) ≡ err error
  unfolding noop_command
  noop_fails n w r e h = rw (nom.delimited_law, other_word _ n w r e h) refl

  pub quit_fails :
      (n w r : Bytes)
      → InAnyCase n w
      → differs (codes "QUIT\r\n") n ≡ true
      → quit_command (w ++ r) ≡ err error
  unfolding quit_command
  quit_fails n w r e h = rw (nom.map_law, other_word _ n w r e h) refl

  pub vrfy_fails :
      (n w r : Bytes)
      → InAnyCase n w
      → differs (codes "VRFY ") n ≡ true
      → vrfy_command legacy (w ++ r) ≡ err error
  unfolding vrfy_command
  vrfy_fails n w r e h = rw (nom.delimited_law, other_word _ n w r e h) refl

  pub expn_fails :
      (n w r : Bytes)
      → InAnyCase n w
      → differs (codes "EXPN ") n ≡ true
      → expn_command legacy (w ++ r) ≡ err error
  unfolding expn_command
  expn_fails n w r e h = rw (nom.delimited_law, other_word _ n w r e h) refl
