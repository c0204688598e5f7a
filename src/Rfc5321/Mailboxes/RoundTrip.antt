-- ===== src/Rfc5321/Mailboxes/RoundTrip.antt =====
-- src/rfc5321.rs and src/types.rs: mailboxes are read back as they are displayed.
use rustyknife.External.{External}
use rustyknife.Nom.Rules.{AllOf}
use rustyknife.Nom.{Nom, ok, err, error}
use rustyknife.Prelude.{ℕ, ◌≡◌, ◌<◌, refl, List, ◌∷◌, ◌++◌, Bytes, append_assoc, arith}
use rustyknife.Rfc5321.Mailboxes.Dotted.{dotted, NoDot, dotted-run}
use rustyknife.Rfc5321.Mailboxes.Octets.{address_literal-display_address_literal}
use rustyknife.Rfc5321.Mailboxes.Texts.{Texts}
use rustyknife.Rfc5321.Mailboxes.{atom, dot_string, local_part, domain, domain_part, mailbox}
use rustyknife.Rfc5321.Policy.{Utf8Policy}
use rustyknife.Types.{
  LocalPart, dot_atom, quoted, DomainPart, address, ip, v4, Mailbox, display_local_part,
  display_domain_part, display_mailbox, quoted_form, display_address_literal,
}

module _ ⦃nom : Nom⦄ {P : Utf8Policy} (t : Texts P) where
  -- Atoms with dots between them, or a text in quotes.
  pub data IsLocal : LocalPart → Type 0 where
    atoms :
        (x : Bytes) (xs : List Bytes)
        → t.IsAtom x
        → AllOf t.IsAtom xs
        → IsLocal (dot_atom (dotted x xs))
    in_quotes : (q : Bytes) → t.IsQuoted q → IsLocal (quoted q)

  -- Labels with dots between them, or an IPv4 address.
  pub data IsDomainPart : DomainPart → Type 0 where
    labels :
        (l : Bytes) (ls : List Bytes)
        → t.IsLabel l
        → AllOf t.IsLabel ls
        → IsDomainPart (DomainPart.domain (dotted l ls))
    octets :
        (a b c d : ℕ)
        → a < 256
        → b < 256
        → c < 256
        → d < 256
        → IsDomainPart (address (ip (v4 a b c d)))

  dot_string-dotted :
      (x : Bytes) (xs : List Bytes) (r : Bytes)
      → t.IsAtom x
      → AllOf t.IsAtom xs
      → t.AtomStops r
      → NoDot r
      → dot_string P (dotted x xs ++ r) ≡ ok r (dotted x xs)
  unfolding dot_string
  dot_string-dotted x xs r hx h st no_dot =
      rw
        (
          nom.map_law,
          dotted-run (atom P) t.IsAtom t.AtomStops t.atom_before_dot t.atom_run x xs r hx h st
              no_dot,
        )
        refl

  pub domain-dotted :
      (l : Bytes) (ls : List Bytes) (r : Bytes)
      → t.IsLabel l
      → AllOf t.IsLabel ls
      → t.LabelStops r
      → NoDot r
      → domain P (dotted l ls ++ r) ≡ ok r (dotted l ls)
  unfolding domain
  domain-dotted l ls r hl h st no_dot =
      rw
        (
          nom.map_law,
          dotted-run P.sub_domain t.IsLabel t.LabelStops t.label_before_dot t.label_run l ls r hl h
              st no_dot,
        )
        refl

  pub quotes_first : (q s : Bytes) → dot_string P (quoted_form q ++ s) ≡ err error
  unfolding dot_string quoted_form
  quotes_first q s = rw (nom.map_law, nom.recognize_law, nom.pair_law, t.no_atom _) refl

  local_part-display_local_part :
      (lp : LocalPart) (s : Bytes)
      → IsLocal lp
      → local_part P (display_local_part lp ++ b'@' ∷ s) ≡ ok (b'@' ∷ s) lp
  unfolding local_part display_local_part
  local_part-display_local_part lp s (atoms x xs hx h) =
      rw
        (
          nom.alt_law,
          nom.map_law,
          dot_string-dotted x xs (b'@' ∷ s) hx h (t.atom_before_at s) (omega arith),
        )
        refl
  local_part-display_local_part lp s (in_quotes q h) =
      rw
        (
          nom.alt_law,
          nom.map_law,
          quotes_first q (b'@' ∷ s),
          nom.map_law,
          t.quoted_run q (b'@' ∷ s) h,
        )
        refl

  module _ ⦃ext : External⦄ where
    bracket_first :
        (a b c d : ℕ) (r : Bytes)
        → domain P (display_address_literal (ip (v4 a b c d)) ++ r) ≡ err error
    unfolding domain display_address_literal
    bracket_first a b c d r = rw (nom.map_law, nom.recognize_law, nom.pair_law, t.no_label _) refl

    pub domain_part-display_domain_part :
        (dp : DomainPart) (r : Bytes)
        → IsDomainPart dp
        → t.LabelStops r
        → NoDot r
        → domain_part P (display_domain_part dp ++ r) ≡ ok r dp
    unfolding domain_part display_domain_part
    domain_part-display_domain_part dp r (labels l ls hl h) st no_dot =
        rw (nom.alt_law, nom.map_law, domain-dotted l ls r hl h st no_dot) refl
    domain_part-display_domain_part dp r (octets a b c d ha hb hc hd) st no_dot =
        rw
          (
            nom.alt_law,
            nom.map_law,
            bracket_first a b c d r,
            nom.map_law,
            address_literal-display_address_literal a b c d r ha hb hc hd,
          )
          refl

    pub mailbox_read_back :
        (m : Mailbox) (r : Bytes)
        → IsLocal m.local_part
        → IsDomainPart m.domain_part
        → t.LabelStops r
        → NoDot r
        → mailbox P (display_mailbox m ++ r) ≡ ok r m
    unfolding mailbox display_mailbox
    mailbox_read_back m r hl hd st no_dot =
        rw
          (
            append_assoc,
            nom.map_law,
            nom.separated_pair_law,
            local_part-display_local_part m.local_part _ hl,
            nom.tag_law,
            domain_part-display_domain_part m.domain_part r hd st no_dot,
          )
          refl
