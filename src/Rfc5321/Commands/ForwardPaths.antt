-- ===== src/Rfc5321/Commands/ForwardPaths.antt =====
-- src/rfc5321.rs: forward paths are read back as they are displayed.
use rustyknife.External.{External}
use rustyknife.Nom.{Nom, ok, err, error, tag_no_case, strip, no_case}
use rustyknife.Prelude.{
  ◌≡◌, refl, ap, true, false, Bool, Bool-cases, inl, inr, [], ◌∷◌, ◌++◌, none, some, Bytes, codes,
  append_assoc, arith, if◌then◌else◌, to_ascii_lowercase,
}
use rustyknife.Rfc5321.Commands.Paths.{IsPath, routeless, path_read_back}
use rustyknife.Rfc5321.Commands.{
  ForwardPath, forward, post_master, forward_path, display_forward_path,
}
use rustyknife.Rfc5321.Mailboxes.RoundTrip.{IsDomainPart, labels, domain-dotted}
use rustyknife.Rfc5321.Mailboxes.Texts.{Texts}
use rustyknife.Rfc5321.Mailboxes.{domain}
use rustyknife.Rfc5321.Policy.{Utf8Policy}
use rustyknife.Types.{Domain, DomainPart, display_mailbox}

-- The texts have different characters at one place, whatever their case.
abbrev pub differs : Bytes → Bytes → Bool
differs [] s = false
differs (a ∷ t) [] = false
differs (a ∷ t) (b ∷ s) = if no_case a b then differs t s else true

pub differs-strip : (t s r : Bytes) → differs t s ≡ true → strip no_case t (s ++ r) ≡ none
differs-strip [] s r h = absurd (cc h)
differs-strip (a ∷ t) [] r h = absurd (cc h)
differs-strip (a ∷ t) (b ∷ s) r h = elim (Bool-cases (no_case a b)) [
  | inl y ↦ rw (y, if◌then◌else◌) (differs-strip t s r (rw (y, if◌then◌else◌) at h))
  | inr n ↦ rw (n, if◌then◌else◌) refl
]

module _ ⦃nom : Nom⦄ where
  other_mailbox :
      (x s r : Bytes) → differs x s ≡ true → tag_no_case (b'<' ∷ x) (b'<' ∷ (s ++ r)) ≡ err error
  unfolding to_ascii_lowercase
  other_mailbox x s r h = rw (nom.tag_no_case_law, differs-strip x s r h) refl

  postmaster_alone :
      (r : Bytes)
      → tag_no_case (codes "<postmaster>") (codes "<postmaster>" ++ r) ≡ ok r (codes "<postmaster>")
  unfolding to_ascii_lowercase
  postmaster_alone r = rw nom.tag_no_case_law refl

  postmaster_of :
      (s : Bytes)
      → tag_no_case (codes "<postmaster@") (codes "<postmaster@" ++ s) ≡ ok s (codes "<postmaster@")
  unfolding to_ascii_lowercase
  postmaster_of s = rw nom.tag_no_case_law refl

  not_alone :
      (s : Bytes) → tag_no_case (codes "<postmaster>") (codes "<postmaster@" ++ s) ≡ err error
  unfolding to_ascii_lowercase
  not_alone s = rw nom.tag_no_case_law refl

module _ ⦃nom : Nom⦄ ⦃ext : External⦄ {P : Utf8Policy} (t : Texts P) where
  -- A mailbox that does not look like the postmaster's, or a domain of the postmaster.
  abbrev pub IsForward : ForwardPath → Type 0
  IsForward (forward p) =
      IsPath t p
      × (differs (codes "postmaster>") (display_mailbox p.path_mailbox) ≡ true)
      × (differs (codes "postmaster@") (display_mailbox p.path_mailbox) ≡ true)
  IsForward (post_master none) = Unit {0}
  IsForward (post_master (some d)) = IsDomainPart t (DomainPart.domain d)

  domain_read_back :
      (d : Domain) (r : Bytes)
      → IsDomainPart t (DomainPart.domain d)
      → domain P (d ++ b'>' ∷ r) ≡ ok (b'>' ∷ r) d
  domain_read_back d r (labels l ls hl h) =
      domain-dotted t l ls (b'>' ∷ r) hl h (t.label_before_close r) (omega arith)

  pub forward_path_read_back :
      (a : ForwardPath) (r : Bytes)
      → IsForward a
      → forward_path P (display_forward_path a ++ r) ≡ ok r a
  unfolding forward_path display_forward_path
  forward_path_read_back (post_master none) r h =
      rw (nom.alt_law, nom.map_law, postmaster_alone) refl
  forward_path_read_back (post_master (some d)) r h =
      rw
        (
          append_assoc,
          append_assoc,
          nom.alt_law,
          nom.map_law,
          not_alone,
          nom.alt_law,
          nom.map_law,
          nom.delimited_law,
          postmaster_of,
          domain_read_back d r h,
          nom.tag_law,
        )
        refl
  forward_path_read_back (forward p) r (h, a, b) =
      rw
        (
          append_assoc,
          nom.alt_law,
          nom.map_law,
          other_mailbox (codes "postmaster>") _ (b'>' ∷ r) a,
          nom.alt_law,
          nom.map_law,
          nom.delimited_law,
          other_mailbox (codes "postmaster@") _ (b'>' ∷ r) b,
          nom.map_law,
          path_read_back t p.path_mailbox r h.0,
        )
        (ap (λ x. ok r (forward x)) (routeless t p h.1))
