-- ===== src/Rfc5321/Commands/Paths.antt =====
-- src/rfc5321.rs: paths are read back as they are displayed.
use rustyknife.External.{External}
use rustyknife.Nom.{Nom, ok, err, error}
use rustyknife.Prelude.{◌≡◌, refl, ap, sym, List, [], ◌∷◌, ◌++◌, Bytes, append_assoc, arith}
use rustyknife.Rfc5321.Commands.{
  SmtpPath, path, ReversePath, reverse, null, reverse_path, display_reverse_path,
}
use rustyknife.Rfc5321.Mailboxes.RoundTrip.{
  IsLocal, atoms, in_quotes, IsDomainPart, mailbox_read_back,
}
use rustyknife.Rfc5321.Mailboxes.Texts.{Texts}
use rustyknife.Rfc5321.Mailboxes.{a_d_l, at_domain, dot_string, local_part, mailbox, quoted_string}
use rustyknife.Rfc5321.Policy.{Utf8Policy}
use rustyknife.Types.{Domain, LocalPart, Mailbox, display_local_part, display_mailbox, quoted_form}
use rustyknife.Util.{fold_prefix0}

module _ ⦃nom : Nom⦄ {P : Utf8Policy} (t : Texts P) where
  -- No route starts with a local part.
  no_route :
      (lp : LocalPart) (s : Bytes) → IsLocal t lp → a_d_l P (display_local_part lp ++ s) ≡ err error
  unfolding a_d_l at_domain fold_prefix0 display_local_part quoted_form
  no_route lp s (atoms x xs hx h) = rw (append_assoc, nom.preceded_law, t.atom_not_at x _ hx) refl
  no_route lp s (in_quotes q h) = rw (nom.preceded_law, nom.tag_law) refl

  no_mailbox : ⦃ext : External⦄ → (s : Bytes) → mailbox P (b'>' ∷ s) ≡ err error
  unfolding mailbox local_part dot_string quoted_string
  no_mailbox s =
      rw
        (
          nom.map_law,
          nom.separated_pair_law,
          nom.alt_law,
          nom.map_law,
          nom.map_law,
          nom.recognize_law,
          nom.pair_law,
          t.no_atom_close s,
          nom.map_law,
          nom.map_law,
          nom.delimited_law,
          nom.tag_law,
        )
        refl

  no_route_close : (s : Bytes) → a_d_l P (b'>' ∷ s) ≡ err error
  unfolding a_d_l at_domain fold_prefix0
  no_route_close s = rw (nom.preceded_law, nom.tag_law) refl

  module _ ⦃ext : External⦄ where
    abbrev pub IsMailbox : Mailbox → Type 0
    IsMailbox m = IsLocal t m.local_part × IsDomainPart t m.domain_part

    no_route_mailbox :
        (m : Mailbox) (s : Bytes) → IsMailbox m → a_d_l P (display_mailbox m ++ s) ≡ err error
    unfolding display_mailbox
    no_route_mailbox m s h = rw append_assoc (no_route m.local_part _ (h.0))

    pub path_read_back :
        (m : Mailbox) (r : Bytes)
        → IsMailbox m
        → path P (b'<' ∷ (display_mailbox m ++ b'>' ∷ r))
          ≡ ok r (record { path_mailbox = m; route = [] })
    unfolding path
    path_read_back m r h =
        rw
          (
            nom.map_law,
            nom.delimited_law,
            nom.tag_law,
            nom.pair_law,
            nom.opt_law,
            nom.terminated_law,
            no_route_mailbox m (b'>' ∷ r) h,
            mailbox_read_back t m (b'>' ∷ r) h.0 h.1 (t.label_before_close r) (omega arith),
            nom.tag_law,
          )
          refl

    -- A path without a route.
    abbrev pub IsPath : SmtpPath → Type 0
    IsPath p = IsMailbox p.path_mailbox × (p.route ≡ [])

    abbrev pub IsReverse : ReversePath → Type 0
    IsReverse (reverse p) = IsPath p
    IsReverse null = Unit {0}

    abbrev at_once : Mailbox → List Domain → SmtpPath
    at_once m ds = record { path_mailbox = m; route = ds }

    pub routeless : (p : SmtpPath) → p.route ≡ [] → at_once p.path_mailbox [] ≡ p
    routeless p e = ap (at_once p.path_mailbox) (sym e)

    pub reverse_path_read_back :
        (a : ReversePath) (r : Bytes)
        → IsReverse a
        → reverse_path P (display_reverse_path a ++ r) ≡ ok r a
    unfolding reverse_path display_reverse_path
    reverse_path_read_back (reverse p) r h =
        rw (append_assoc, nom.alt_law, nom.map_law, path_read_back p.path_mailbox r h.0)
          (ap (λ x. ok r (reverse x)) (routeless p h.1))
    reverse_path_read_back null r h =
        rw
          (
            nom.alt_law, nom.map_law, path, nom.map_law, nom.delimited_law, nom.tag_law,
            nom.pair_law, nom.opt_law, nom.terminated_law, no_route_close, no_mailbox, nom.map_law,
            nom.tag_law,
          )
          refl
