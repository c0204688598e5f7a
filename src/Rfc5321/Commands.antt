-- ===== src/Rfc5321/Commands.antt =====
-- src/rfc5321.rs: paths and the commands.
pub mod ChunkSize
pub mod IntoMailbox
pub mod Postmaster
pub mod Paths
pub mod ForwardPaths
pub mod Envelopes
pub mod Lines
pub mod Reads
pub mod AllLines
use rustyknife.External.{External}
use rustyknife.Nom.{
  Nom, Parser, map, map_res, alt, opt, pair, preceded, terminated, delimited, tag, tag_no_case,
  take_while_m_n, is_digit,
}
use rustyknife.Prelude.{
  ℕ, ◌^◌, Bool, true, false, List, [], ◌∷◌, ◌++◌, Option, none, some, Bytes, codes,
}
use rustyknife.Prelude.Utf8.{parse_uint}
use rustyknife.Rfc5234.{crlf}
use rustyknife.Rfc5321.Mailboxes.{domain, a_d_l, atom, quoted_string, domain_part, mailbox}
use rustyknife.Rfc5321.Params.{Param, esmtp_params}
use rustyknife.Rfc5321.Policy.{Utf8Policy}
use rustyknife.Types.{Domain, DomainPart, Mailbox, display_mailbox}

-- `struct Path(pub Mailbox, pub Vec<Domain>)`
pub record SmtpPath : Type 0 where
  pub path_mailbox : Mailbox
  pub route : List Domain

abbrev pub SmtpString : Type 0
SmtpString = Bytes

pub data ForwardPath : Type 0 where
  forward : SmtpPath → ForwardPath
  post_master : Option Domain → ForwardPath

pub data ReversePath : Type 0 where
  reverse : SmtpPath → ReversePath
  null : ReversePath

pub data Command : Type 0 where
  ehlo : DomainPart → Command
  helo : Domain → Command
  mail : ReversePath → List Param → Command
  rcpt : ForwardPath → List Param → Command
  data_start : Command
  rset : Command
  noop : Option SmtpString → Command
  quit : Command
  vrfy : SmtpString → Command
  expn : SmtpString → Command
  help : Option SmtpString → Command

-- `unwrap_or_default` of an optional vector
abbrev pub unwrap_or_default : {A : Type 0} → Option (List A) → List A
unwrap_or_default none = []
unwrap_or_default (some xs) = xs

abbrev pub is_some : {A : Type 0} → Option A → Bool
is_some none = false
is_some (some _) = true

-- `From<ReversePath> for Option<Mailbox>`
unfoldable pub reverse_path_mailbox : ReversePath → Option Mailbox
reverse_path_mailbox (reverse p) = some p.path_mailbox
reverse_path_mailbox null = none

module _ ⦃ext : External⦄ where
  unfoldable pub display_forward_path : ForwardPath → Bytes
  display_forward_path (forward p) = b'<' ∷ (display_mailbox p.path_mailbox ++ b'>' ∷ [])
  display_forward_path (post_master none) = codes "<postmaster>"
  display_forward_path (post_master (some d)) = codes "<postmaster@" ++ (d ++ b'>' ∷ [])

  unfoldable pub display_reverse_path : ReversePath → Bytes
  display_reverse_path (reverse p) = b'<' ∷ (display_mailbox p.path_mailbox ++ b'>' ∷ [])
  display_reverse_path null = codes "<>"

module _ ⦃nom : Nom⦄ where
  unfoldable pub bdat_chunk_size : Parser ℕ
  unfolding parse_uint
  bdat_chunk_size = map_res (take_while_m_n 1 20 is_digit) (parse_uint (2 ^ 64))

  unfoldable pub bdat_command : Parser (ℕ × Bool)
  unfolding bdat_chunk_size crlf
  bdat_command =
      terminated
        (pair (preceded (tag_no_case (codes "BDAT ")) bdat_chunk_size)
          (map (opt (tag_no_case (codes " LAST"))) is_some))
        crlf

  unfoldable pub data_command : Parser (Unit {0})
  data_command = map (tag_no_case (codes "DATA\r\n")) (λ _. tt)

  unfoldable pub rset_command : Parser (Unit {0})
  rset_command = map (tag_no_case (codes "RSET\r\n")) (λ _. tt)

  unfoldable pub quit_command : Parser (Unit {0})
  quit_command = map (tag_no_case (codes "QUIT\r\n")) (λ _. tt)

  unfoldable pub starttls_command : Parser (Unit {0})
  starttls_command = map (tag_no_case (codes "STARTTLS\r\n")) (λ _. tt)

  module _ (P : Utf8Policy) where
    unfoldable pub smtp_string : Parser SmtpString
    unfolding atom quoted_string
    smtp_string = alt (map (atom P) (λ a. a)) (map (quoted_string P) (λ qs. qs))

    unfoldable pub helo_command : Parser Domain
    unfolding domain crlf
    helo_command = delimited (tag_no_case (codes "HELO ")) (domain P) crlf

    unfoldable pub noop_command : Parser (Option SmtpString)
    unfolding smtp_string crlf
    noop_command =
        delimited (tag_no_case (codes "NOOP")) (opt (preceded (tag (codes " ")) smtp_string)) crlf

    unfoldable pub vrfy_command : Parser SmtpString
    unfolding smtp_string crlf
    vrfy_command = delimited (tag_no_case (codes "VRFY ")) smtp_string crlf

    unfoldable pub expn_command : Parser SmtpString
    unfolding smtp_string crlf
    expn_command = delimited (tag_no_case (codes "EXPN ")) smtp_string crlf

    unfoldable pub help_command : Parser (Option SmtpString)
    unfolding smtp_string crlf
    help_command =
        delimited (tag_no_case (codes "HELP")) (opt (preceded (tag (codes " ")) smtp_string)) crlf

    module _ ⦃ext : External⦄ where
      unfoldable pub path : Parser SmtpPath
      unfolding a_d_l mailbox
      path =
          map
            (delimited (tag (codes "<"))
              (pair (opt (terminated (a_d_l P) (tag (codes ":")))) (mailbox P)) (tag (codes ">")))
            (λ (route, m). record { path_mailbox = m; route = unwrap_or_default route })

      unfoldable pub reverse_path : Parser ReversePath
      unfolding path
      reverse_path = alt (map path reverse) (map (tag (codes "<>")) (λ _. null))

      unfoldable pub forward_path : Parser ForwardPath
      unfolding path domain
      forward_path = alt (map (tag_no_case (codes "<postmaster>")) (λ _. post_master none)) (
          alt
            (map (delimited (tag_no_case (codes "<postmaster@")) (domain P) (tag (codes ">")))
              (λ d. post_master (some d)))
            (map path forward))

      unfoldable pub ehlo_command : Parser DomainPart
      unfolding domain_part crlf
      ehlo_command = delimited (tag_no_case (codes "EHLO ")) (domain_part P) crlf

      unfoldable pub mail_command : Parser (ReversePath × List Param)
      unfolding reverse_path esmtp_params crlf
      mail_command =
          map
            (delimited (tag_no_case (codes "MAIL FROM:"))
              (pair reverse_path (opt (preceded (tag (codes " ")) (esmtp_params P)))) crlf)
            (λ (addr, params). (addr, unwrap_or_default params))

      unfoldable pub rcpt_command : Parser (ForwardPath × List Param)
      unfolding forward_path esmtp_params crlf
      rcpt_command =
          map
            (delimited (tag_no_case (codes "RCPT TO:"))
              (pair forward_path (opt (preceded (tag (codes " ")) (esmtp_params P)))) crlf)
            (λ (p, params). (p, unwrap_or_default params))

      unfoldable pub command : Parser Command
      unfolding ehlo_command helo_command mail_command rcpt_command data_command rset_command
          noop_command quit_command vrfy_command expn_command help_command
      command = alt (map ehlo_command ehlo) (
          alt (map (helo_command) helo) (
            alt (map mail_command (λ (a, p). mail a p)) (
              alt (map rcpt_command (λ (a, p). rcpt a p)) (
                alt (map data_command (λ _. data_start)) (
                  alt (map rset_command (λ _. rset)) (
                    alt (map (noop_command) noop) (
                      alt (map quit_command (λ _. quit)) (
                        alt (map (vrfy_command) vrfy)
                          (alt (map (expn_command) expn) (map (help_command) help))))))))))
