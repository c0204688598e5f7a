-- ===== src/Rfc5321/Commands/AllLines.antt =====
-- src/rfc5321.rs: `command` tries all commands, and a line of each kind.
use rustyknife.External.{External}
use rustyknife.Nom.{Nom, IResult, ok, or_else, and_then}
use rustyknife.Prelude.{
  true, ◌∙◌, ◌≡◌, refl, ◌∷◌, ◌++◌, List, none, some, Bytes, codes, to_ascii_lowercase,
}
use rustyknife.Rfc5321.Commands.Envelopes.{ending, mail_read_back, rcpt_read_back}
use rustyknife.Rfc5321.Commands.ForwardPaths.{IsForward, differs}
use rustyknife.Rfc5321.Commands.Lines.{
  Spelt, InAnyCase, ehlo_fails, helo_fails, mail_fails, rcpt_fails, data_fails, rset_fails,
  noop_fails, quit_fails, vrfy_fails, expn_fails,
}
use rustyknife.Rfc5321.Commands.Reads.{
  ehlo_read, helo_read, data_read, rset_read, noop_read, noop_with_read, quit_read, vrfy_read,
  expn_read, help_read, help_with_read,
}
use rustyknife.Rfc5321.Commands.Paths.{IsReverse}
use rustyknife.Rfc5321.Commands.{
  mail_command, rcpt_command, Command, ehlo, helo, mail, rcpt, data_start, rset, noop, quit, vrfy,
  expn, help, command, ehlo_command, helo_command, data_command, rset_command, noop_command,
  quit_command, vrfy_command, expn_command, help_command, ForwardPath, ReversePath,
  display_forward_path, display_reverse_path,
}
use rustyknife.Rfc5321.Mailboxes.LegacyTexts.{legacy_texts}
use rustyknife.Rfc5321.Mailboxes.RoundTrip.{IsDomainPart}
use rustyknife.Rfc5321.Params.Complete.{AreParams}
use rustyknife.Rfc5321.Params.{Param}
use rustyknife.Rfc5321.Policy.{legacy}
use rustyknife.Types.{Domain, DomainPart, display_domain_part}

module _ ⦃nom : Nom⦄ ⦃ext : External⦄ where
  -- The line of a command, with what is behind it.
  pub data CommandLine (r : Bytes) : Bytes → Command → Type 0 where
    ehlo_line :
        (w : Bytes) (d : DomainPart)
        → InAnyCase (codes "EHLO ") w
        → IsDomainPart legacy_texts d
        → CommandLine r (w ++ (display_domain_part d ++ (codes "\r\n" ++ r))) (ehlo d)
    helo_line :
        (w : Bytes) (d : Domain)
        → InAnyCase (codes "HELO ") w
        → IsDomainPart legacy_texts (DomainPart.domain d)
        → CommandLine r (w ++ (d ++ (codes "\r\n" ++ r))) (helo d)
    mail_line :
        (w : Bytes) (a : ReversePath) (ps : List Param)
        → InAnyCase (codes "MAIL FROM:") w
        → IsReverse legacy_texts a
        → AreParams ps
        → CommandLine r (w ++ (display_reverse_path a ++ ending ps r)) (mail a ps)
    rcpt_line :
        (w : Bytes) (a : ForwardPath) (ps : List Param)
        → InAnyCase (codes "RCPT TO:") w
        → IsForward legacy_texts a
        → AreParams ps
        → CommandLine r (w ++ (display_forward_path a ++ ending ps r)) (rcpt a ps)
    data_line : (w : Bytes) → InAnyCase (codes "DATA\r\n") w → CommandLine r (w ++ r) data_start
    rset_line : (w : Bytes) → InAnyCase (codes "RSET\r\n") w → CommandLine r (w ++ r) rset
    noop_line :
        (w : Bytes)
        → InAnyCase (codes "NOOP") w
        → CommandLine r (w ++ (codes "\r\n" ++ r)) (noop none)
    noop_with :
        (w : Bytes) (t x : Bytes)
        → InAnyCase (codes "NOOP") w
        → Spelt t x
        → CommandLine r (w ++ (b' ' ∷ (t ++ (codes "\r\n" ++ r)))) (noop (some x))
    quit_line : (w : Bytes) → InAnyCase (codes "QUIT\r\n") w → CommandLine r (w ++ r) quit
    vrfy_line :
        (w : Bytes) (t x : Bytes)
        → InAnyCase (codes "VRFY ") w
        → Spelt t x
        → CommandLine r (w ++ (t ++ (codes "\r\n" ++ r))) (vrfy x)
    expn_line :
        (w : Bytes) (t x : Bytes)
        → InAnyCase (codes "EXPN ") w
        → Spelt t x
        → CommandLine r (w ++ (t ++ (codes "\r\n" ++ r))) (expn x)
    help_line :
        (w : Bytes)
        → InAnyCase (codes "HELP") w
        → CommandLine r (w ++ (codes "\r\n" ++ r)) (help none)
    help_with :
        (w : Bytes) (t x : Bytes)
        → InAnyCase (codes "HELP") w
        → Spelt t x
        → CommandLine r (w ++ (b' ' ∷ (t ++ (codes "\r\n" ++ r)))) (help (some x))

  abbrev choice : {A : Type 0} → IResult A → (A → Command) → IResult Command → IResult Command
  choice x f q = or_else (and_then x (λ r a. ok r (f a))) q

  -- The last commands that are tried, and those before them.
  abbrev from_quit : Bytes → IResult Command
  from_quit i =
      choice (quit_command i) (λ _. quit)
        (choice (vrfy_command legacy i) vrfy (
          choice (expn_command legacy i) expn
            (and_then (help_command legacy i) (λ r a. ok r (help a)))))

  abbrev from_data : Bytes → IResult Command
  from_data i =
      choice (data_command i) (λ _. data_start)
        (choice (rset_command i) (λ _. rset) (choice (noop_command legacy i) noop (from_quit i)))

  command-choices :
      (i : Bytes)
      → command legacy i
        ≡ choice (ehlo_command legacy i) ehlo (
            choice (helo_command legacy i) helo (
              choice
                (mail_command legacy i)
                (λ (a, p). mail a p)
                (choice (rcpt_command legacy i) (λ (a, p). rcpt a p) (from_data i))))
  unfolding command
  command-choices i = simp (nom.alt_law, nom.map_law) refl

  abbrev NoPath : Bytes → Type 0
  NoPath w =
      (differs (codes "EHLO ") w ≡ true)
      × (differs (codes "HELO ") w ≡ true)
      × (differs (codes "MAIL FROM:") w ≡ true)
      × (differs (codes "RCPT TO:") w ≡ true)

  abbrev NotPlain : Bytes → Type 0
  NotPlain w =
      (differs (codes "DATA\r\n") w ≡ true)
      × (differs (codes "RSET\r\n") w ≡ true)
      × (differs (codes "NOOP") w ≡ true)

  past_rcpt :
      (n w r : Bytes) → InAnyCase n w → NoPath n → command legacy (w ++ r) ≡ from_data (w ++ r)
  past_rcpt n w r e (a, b, c, d) =
      rw
        (
          command-choices,
          ehlo_fails n w r e a,
          helo_fails n w r e b,
          mail_fails n w r e c,
          rcpt_fails n w r e d,
        )
        refl

  past_noop :
      (n w r : Bytes)
      → InAnyCase n w
      → NoPath n
      → NotPlain n
      → command legacy (w ++ r) ≡ from_quit (w ++ r)
  past_noop n w r e h (a, b, c) =
      past_rcpt n w r e h
      ∙ rw (data_fails n w r e a, rset_fails n w r e b, noop_fails n w r e c) refl

  -- The line of a command is read as that command, in the legacy behaviour, and what is behind the
  -- line is left. The word of the command is in any case. Behind it stands, for EHLO, a domain of
  -- labels or an IPv4 literal; for HELO, such a domain; for MAIL, the null path or the path of a
  -- mailbox; for RCPT, the postmaster's path, in lower case, with or without such a domain, or the
  -- path of a mailbox whose text does not start, in any case, with "postmaster@" or "postmaster>";
  -- for VRFY and EXPN, an atom or printable ASCII in quotes; for NOOP and HELP, nothing or these
  -- behind a blank; for DATA, RSET and QUIT, nothing. A path has no route, and its mailbox is displayed: atoms
  -- with dots between them or printable ASCII in quotes, in front of such a domain or an IPv4
  -- literal. Behind a path stand no parameters or, behind a blank, well-formed ones with one blank
  -- between them.
  pub command-CommandLine :
      (r t : Bytes) (c : Command) → CommandLine r t c → command legacy t ≡ ok r c
  unfolding to_ascii_lowercase
  command-CommandLine r t c (ehlo_line w d e h) = rw (command-choices, ehlo_read w d r e h) refl
  command-CommandLine r t c (helo_line w d e h) =
      rw (command-choices, ehlo_fails (codes "HELO ") w _ e refl, helo_read w d r e h) refl
  command-CommandLine r t c (mail_line w a ps e ha hp) =
      rw
        (
          command-choices,
          ehlo_fails (codes "MAIL FROM:") w _ e refl,
          helo_fails (codes "MAIL FROM:") w _ e refl,
          mail_read_back w a ps r e ha hp,
        )
        refl
  command-CommandLine r t c (rcpt_line w a ps e ha hp) =
      rw
        (
          command-choices,
          ehlo_fails (codes "RCPT TO:") w _ e refl,
          helo_fails (codes "RCPT TO:") w _ e refl,
          mail_fails (codes "RCPT TO:") w _ e refl,
          rcpt_read_back w a ps r e ha hp,
        )
        refl
  command-CommandLine r t c (data_line w e) =
      past_rcpt (codes "DATA\r\n") w r e (refl, refl, refl, refl) ∙ rw (data_read w r e) refl
  command-CommandLine r t c (rset_line w e) =
      past_rcpt (codes "RSET\r\n") w r e (refl, refl, refl, refl)
      ∙ rw (data_fails (codes "RSET\r\n") w r e refl, rset_read w r e) refl
  command-CommandLine r t c (noop_line w e) =
      past_rcpt (codes "NOOP") w _ e (refl, refl, refl, refl)
      ∙ rw
          (
            data_fails (codes "NOOP") w _ e refl,
            rset_fails (codes "NOOP") w _ e refl,
            noop_read w r e,
          )
          refl
  command-CommandLine r t c (noop_with w s x e h) =
      past_rcpt (codes "NOOP") w _ e (refl, refl, refl, refl)
      ∙ rw
          (
            data_fails (codes "NOOP") w _ e refl,
            rset_fails (codes "NOOP") w _ e refl,
            noop_with_read w s x r e h,
          )
          refl
  command-CommandLine r t c (quit_line w e) =
      past_noop (codes "QUIT\r\n") w r e (refl, refl, refl, refl) (refl, refl, refl)
      ∙ rw (quit_read w r e) refl
  command-CommandLine r t c (vrfy_line w s x e h) =
      past_noop (codes "VRFY ") w _ e (refl, refl, refl, refl) (refl, refl, refl)
      ∙ rw (quit_fails (codes "VRFY ") w _ e refl, vrfy_read w s x r e h) refl
  command-CommandLine r t c (expn_line w s x e h) =
      past_noop (codes "EXPN ") w _ e (refl, refl, refl, refl) (refl, refl, refl)
      ∙ rw
          (
            quit_fails (codes "EXPN ") w _ e refl,
            vrfy_fails (codes "EXPN ") w _ e refl,
            expn_read w s x r e h,
          )
          refl
  command-CommandLine r t c (help_line w e) =
      past_noop (codes "HELP") w _ e (refl, refl, refl, refl) (refl, refl, refl)
      ∙ rw
          (
            quit_fails (codes "HELP") w _ e refl,
            vrfy_fails (codes "HELP") w _ e refl,
            expn_fails (codes "HELP") w _ e refl,
            help_read w r e,
          )
          refl
  command-CommandLine r t c (help_with w s x e h) =
      past_noop (codes "HELP") w _ e (refl, refl, refl, refl) (refl, refl, refl)
      ∙ rw
          (
            quit_fails (codes "HELP") w _ e refl,
            vrfy_fails (codes "HELP") w _ e refl,
            expn_fails (codes "HELP") w _ e refl,
            help_with_read w s x r e h,
          )
          refl
