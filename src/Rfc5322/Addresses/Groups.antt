-- ===== src/Rfc5322/Addresses/Groups.antt =====
-- src/rfc5322.rs: groups of addresses are read from their texts, in the behaviour `Intl`.
use rustyknife.External.{External}
use rustyknife.Nom.Rules.{Star, tag-append}
use rustyknife.Nom.{Nom, ok, err, error, tag, opt}
use rustyknife.Prelude.{
  ℕ, ◌≡◌, ◌≢◌, refl, ap, sym, ◌∙◌, true, List, [], ◌∷◌, ◌++◌, Option, some, Bytes, codes, Every,
  arith, append_assoc,
}
use rustyknife.Rfc5234.Blanks.{is_blank}
use rustyknife.Rfc5322.Addresses.Texts.{
  IsAtom, one_atom, NameText, last_word, next_word, joined, MailboxText, CommaText, AddressText,
  single_text, empty_group, full_group,
}
use rustyknife.Rfc5322.Addresses.Complete.{mailbox-run, no_name_addr, NoWord-sign}
use rustyknife.Rfc5322.Addresses.Specs.{
  DotEnd, DotEndTo, DotEnd-sign, NoDot, is_sign, dot_atom-run, no_tag,
}
use rustyknife.Rfc5322.Addresses.Words.{
  Hard-name, display_name-run, atom_start, Stops-blanks, Stops-last,
}
use rustyknife.Rfc5322.Addresses.{
  Mailbox, Address, group_address, members_or_default, addr_spec, mailbox, group_list, group,
  address,
}
use rustyknife.Rfc5322.Comments.Gaps.{opt_cfws-blanks}
use rustyknife.Rfc5322.Policy.{intl}
use rustyknife.Rfc5322.Words.{local_part}
use rustyknife.Rfc5322.Addresses.Members.{mailbox_list-run, empty_list}

module _ ⦃nom : Nom⦄ ⦃ext : External⦄ where
  NoDot-blanks : (w s : Bytes) → Every is_blank w → NoDot s → NoDot (w ++ s)
  NoDot-blanks [] s h n = n
  NoDot-blanks (b ∷ w) s h n = ground (arith, h.0)

  no_at-atom : (a w s : Bytes) → IsAtom a → tag (codes "@") ((a ++ w) ++ s) ≡ err error
  no_at-atom a w s k =
      let (x, t, e, b) = atom_start a (w ++ s) k in
      rw (append_assoc a w s, e) (no_tag b'@' (t ++ (w ++ s)) x (λ no. b.3 (sym no)))

  no_at-name :
      {n : Bytes} {ns : List Bytes} (s : Bytes)
      → NameText n ns
      → tag (codes "@") (n ++ s) ≡ err error
  no_at-name s (last_word a w k h) = no_at-atom a w s k.0
  no_at-name s (next_word a w {c} k h ne t) = no_at-atom a (w ++ c) s k.0

  -- The text of a display name starts with an atom that is no local part.
  name_head :
      {n : Bytes} {ns : List Bytes} (c : ℕ) (s : Bytes)
      → NameText n ns
      → is_sign c ≡ true
      → c ≢ b'@'
      → (a : Bytes) × (x : Bytes) × (u : Bytes) × (n ++ (c ∷ s) ≡ a ++ x)
        × IsAtom a
        × DotEndTo x u
        × (tag (codes "@") u ≡ err error)
  name_head c s (last_word a w k h) y n = (
    a,
    w ++ (c ∷ s),
    c ∷ s,
    append_assoc a w (c ∷ s),
    k.0,
    (
      Stops-last w (c ∷ s) h (ground (arith, y), ground (arith, y)),
      NoDot-blanks w (c ∷ s) h (ground (arith, y)),
      opt_cfws-blanks intl w (c ∷ s) h (ground (arith, y), ground (arith, y), ground (arith, y)),
    ),
    no_tag b'@' s c (λ e. n (sym e)),
  )
  name_head c s (next_word a w {c = d} k h ne t) y n = (
    a,
    w ++ (d ++ (c ∷ s)),
    d ++ (c ∷ s),
    append_assoc a (w ++ d) (c ∷ s) ∙ ap (λ z. a ++ z) (append_assoc w d (c ∷ s)),
    k.0,
    (
      Stops-blanks w (d ++ (c ∷ s)) h ne,
      blank_no_dot w (d ++ (c ∷ s)) h ne,
      opt_cfws-blanks intl w (d ++ (c ∷ s)) h (Hard-name (c ∷ s) t),
    ),
    no_at-name (c ∷ s) t,
  )
    where
      blank_no_dot : (w s : Bytes) → Every is_blank w → w ≢ [] → NoDot (w ++ s)
      blank_no_dot [] s h ne = absurd (ne refl)
      blank_no_dot (b ∷ w) s h ne = ground (arith, h.0)

  -- A group is not taken for a mailbox.
  no_mailbox-group :
      (w : Bytes) {n : Bytes} {ns : List Bytes} (s : Bytes)
      → Every is_blank w
      → NameText n ns
      → mailbox intl (w ++ (n ++ (b':' ∷ s))) ≡ err error
  unfolding mailbox addr_spec local_part
  no_mailbox-group w s h t =
      let (a, x, u, split, k, e, no_at) = name_head b':' s t refl (λ no. omega (arith, no)) in
      rw
        (
          nom.alt_law,
          no_name_addr w b':' s h t refl (λ no. omega (arith, no)),
          split,
          nom.map_law,
          nom.map_law,
          nom.separated_pair_law,
          nom.alt_law,
          nom.map_law,
          dot_atom-run w a x u h (one_atom k) e,
          no_at,
        )
        refl

  group-run :
      (w x s : Bytes) {n : Bytes} {ns : List Bytes} (q : Option (List Mailbox))
      → Every is_blank w
      → NameText n ns
      → DotEnd s
      → opt (group_list intl) x ≡ ok (b';' ∷ s) q
      → address intl (w ++ (n ++ (b':' ∷ x)))
        ≡ ok s (group_address (record { dname = joined ns; members = members_or_default q }))
  unfolding address group
  group-run w x s q h t e read =
      let (o, behind) = e.2 in
      rw
        (
          nom.alt_law,
          nom.map_law,
          no_mailbox-group w x h t,
          nom.map_law,
          nom.map_law,
          nom.pair_law,
          nom.terminated_law,
          display_name-run w (b':' ∷ x) h t (NoWord-sign b':' x refl),
          tag-append (codes ":") x,
          nom.terminated_law,
          read,
          nom.pair_law,
          tag-append (codes ";") s,
          behind,
        )
        refl

  full_list :
      {c cs : Bytes} {m : Mailbox} {ms : List Mailbox} (s : Bytes)
      → MailboxText c m
      → Star (CommaText MailboxText) cs ms
      → opt (group_list intl) (c ++ (cs ++ (b';' ∷ s))) ≡ ok (b';' ∷ s) (some (m ∷ ms))
  unfolding group_list
  full_list s t ts =
      rw
        (
          nom.opt_law,
          nom.alt_law,
          mailbox_list-run (b';' ∷ s) t ts (DotEnd-sign b';' s refl)
              (no_tag b',' s b';' (λ no. omega (arith, no))),
        )
        refl

  -- An address is read from its text.
  pub address-run :
      (s : Bytes) {c : Bytes} {a : Address}
      → AddressText c a
      → DotEnd s
      → address intl (c ++ s) ≡ ok s a
  unfolding address
  address-run s (single_text c t) e = rw (nom.alt_law, nom.map_law, mailbox-run s t e) refl
  address-run s (empty_group w n w' {ns} h t h') e =
      let (q, none_given, read) = empty_list w' s h' in
      rw (append_assoc w _ s, append_assoc n _ s, append_assoc w' (codes ";") s)
        (group-run w (w' ++ (b';' ∷ s)) s q h t e read
          ∙ ap (λ ms. ok s (group_address (record { dname = joined ns; members = ms }))) none_given)
  address-run s (full_group w n c cs {m} {ms} h t m' ms') e =
      rw (append_assoc w _ s, append_assoc n _ s, append_assoc c _ s, append_assoc cs (codes ";") s)
        (group-run w (c ++ (cs ++ (b';' ∷ s))) s (some (m ∷ ms)) h t e (full_list s m' ms'))
