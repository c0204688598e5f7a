-- ===== src/Rfc5321/Commands/IntoMailbox.antt =====
-- src/rfc5321.rs: `ForwardPath::into_mailbox`, which parses the name of the postmaster.
use rustyknife.Conversions.{converted, refused, local_part_from_smtp}
use rustyknife.External.{External}
use rustyknife.Nom.{Nom}
use rustyknife.Prelude.{Option, none, some, codes}
use rustyknife.Rfc5321.Commands.{ForwardPath, forward, post_master}
use rustyknife.Types.{DomainPart, Mailbox}

module _ ⦃nom : Nom⦄ ⦃ext : External⦄ where
  -- None is where `unwrap` would panic: `local_part_from_smtp` refuses a text that no local part
  -- starts, and one with something behind the local part.
  unfoldable pub into_mailbox : ForwardPath → DomainPart → Option Mailbox
  unfolding local_part_from_smtp
  into_mailbox (forward p) postmaster_domain = some p.path_mailbox
  into_mailbox (post_master d) postmaster_domain =
      elim (local_part_from_smtp (codes "postmaster")) [
        | refused _ ↦ none
        | converted lp ↦ some (record {
          local_part = lp;
          domain_part = elim d [ none ↦ postmaster_domain | some dom ↦ DomainPart.domain dom ];
        })
      ]
