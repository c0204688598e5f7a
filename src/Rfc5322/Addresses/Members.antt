-- ===== src/Rfc5322/Addresses/Members.antt =====
-- src/rfc5322.rs: the members of a group are read, in the behaviour `Intl`.
use rustyknife.External.{External}
use rustyknife.Nom.Rules.{Star, none_left, one_more, tag-append, fold_prefix0-Many}
use rustyknife.Nom.{
  Nom, Parser, IResult, ok, err, error, incomplete, failure, and_then, or_else, Many, stop, more,
  tag, opt, preceded,
}
use rustyknife.Prelude.{
  ℕ, ◌≡◌, ◌≢◌, refl, true, List, [], ◌∷◌, ◌++◌, Option, none, some, Bytes, codes, Every, arith,
  append_assoc, length-append,
}
use rustyknife.Rfc5234.Blanks.{is_blank}
use rustyknife.Rfc5322.Addresses.Texts.{MailboxText, CommaText, comma_text}
use rustyknife.Rfc5322.Addresses.Complete.{mailbox-run, no_angle, no_display_name, NoWord-sign}
use rustyknife.Rfc5322.Addresses.Specs.{DotEnd, DotEnd-sign, is_mark}
use rustyknife.Rfc5322.Addresses.Words.{no_atoms, no_quoted}
use rustyknife.Rfc5322.Addresses.{
  Mailbox, members_or_default, name_addr, addr_spec, mailbox, mailbox_list, group_list,
}
use rustyknife.Rfc5322.Comments.Gaps.{opt_cfws-blanks}
use rustyknife.Rfc5322.Comments.{cfws}
use rustyknife.Rfc5322.Policy.{intl}
use rustyknife.Util.{fold_prefix0}
use rustyknife.Rfc5322.Words.{dot_atom, local_part}

-- Texts behind commas.
module _ ⦃nom : Nom⦄ {A : Type 0} {G : Bytes → A → Type 0} (p : Parser A)
    (run : (s c : Bytes) (a : A) → G c a → DotEnd s → p (c ++ s) ≡ ok s a) where
  pub DotEnd-commas :
      {c : Bytes} {as' : List A} (s : Bytes) → Star (CommaText G) c as' → DotEnd s → DotEnd (c ++ s)
  DotEnd-commas s none_left e = e
  DotEnd-commas s (one_more {cs} (comma_text c g) t) e = DotEnd-sign b',' ((c ++ cs) ++ s) refl

  pub Many-commas :
      {c : Bytes} {as' : List A} (s : Bytes)
      → Star (CommaText G) c as'
      → DotEnd s
      → tag (codes ",") s ≡ err error
      → Many (preceded (tag (codes ",")) p) (c ++ s) as' s
  Many-commas s none_left e n = stop (rw (nom.preceded_law, n) refl)
  Many-commas s (one_more {cs} (comma_text c g) t) e n = rw (append_assoc c cs s) (
      more
        (rw (nom.preceded_law, tag-append (codes ",") (c ++ (cs ++ s)))
          (run (cs ++ s) c _ g (DotEnd-commas s t e)))
        (omega (arith, length-append c (cs ++ s))) (Many-commas s t e n))

module _ ⦃nom : Nom⦄ ⦃ext : External⦄ where
  pub mailbox_list-run :
      {c cs : Bytes} {m : Mailbox} {ms : List Mailbox} (s : Bytes)
      → MailboxText c m
      → Star (CommaText MailboxText) cs ms
      → DotEnd s
      → tag (codes ",") s ≡ err error
      → mailbox_list intl (c ++ (cs ++ s)) ≡ ok s (m ∷ ms)
  unfolding mailbox_list
  mailbox_list-run {c} {cs} s t ts e n =
      fold_prefix0-Many (mailbox intl) (preceded (tag (codes ",")) (mailbox intl))
        {i = c ++ (cs ++ s)} (mailbox-run (cs ++ s) t (DotEnd-commas (mailbox intl) reads s ts e))
        (Many-commas (mailbox intl) reads s ts e n)
    where
      reads :
          (s c : Bytes) (m : Mailbox) → MailboxText c m → DotEnd s → mailbox intl (c ++ s) ≡ ok s m
      reads s c m t e = mailbox-run s t e

  -- No mailbox starts at a sign.
  no_mailbox :
      (w : Bytes) (c : ℕ) (s : Bytes)
      → Every is_blank w
      → is_mark c ≡ true
      → c ≢ b'<'
      → mailbox intl (w ++ (c ∷ s)) ≡ err error
  unfolding mailbox name_addr addr_spec local_part dot_atom
  no_mailbox w c s h y n =
      let (o, before) =
        opt_cfws-blanks intl w (c ∷ s) h
          (ground (arith, y), ground (arith, y), ground (arith, y)) in
      rw
        (
          nom.alt_law,
          nom.map_law,
          nom.pair_law,
          nom.opt_law,
          no_display_name w c s h y,
          no_angle w c s h y n,
          nom.map_law,
          nom.map_law,
          nom.separated_pair_law,
          nom.alt_law,
          nom.map_law,
          nom.map_law,
          nom.delimited_law,
          before,
          nom.recognize_law,
          nom.pair_law,
          no_atoms (c ∷ s) (ground (arith, y), ground (arith, y)),
          nom.map_law,
          no_quoted w (c ∷ s) h (NoWord-sign c s y),
        )
        refl

  no_mailbox_list :
      (w s : Bytes) → Every is_blank w → mailbox_list intl (w ++ (b';' ∷ s)) ≡ err error
  unfolding mailbox_list fold_prefix0
  no_mailbox_list w s h = rw (no_mailbox w b';' s h refl (λ no. omega (arith, no))) refl

  -- What `group_list` makes of white space.
  blank_list :
      (i : Bytes) {u : Bytes} {o : Option Bytes} (x : IResult Bytes)
      → or_else (and_then x (λ r a. ok r (some a))) (ok i none) ≡ ok u o
      → (q : Option (List Mailbox)) × (members_or_default q ≡ [])
        × (or_else (and_then (and_then x (λ r _. ok r [])) (λ r a. ok r (some a))) (ok i none)
            ≡ ok u q)
  blank_list i (ok r a) e = (some [], refl, cc e)
  blank_list i (err error) e = (none, refl, cc e)
  blank_list i (err incomplete) e = absurd (cc e)
  blank_list i (err failure) e = absurd (cc e)

  pub empty_list :
      (w s : Bytes)
      → Every is_blank w
      → (q : Option (List Mailbox)) × (members_or_default q ≡ [])
        × (opt (group_list intl) (w ++ (b';' ∷ s)) ≡ ok (b';' ∷ s) q)
  unfolding group_list
  empty_list w s h =
      let (o, before) =
        opt_cfws-blanks intl w (b';' ∷ s) h
          (refl, λ no. omega (arith, no), λ no. omega (arith, no)) in
      let (q, e, read) =
        blank_list (w ++ (b';' ∷ s)) (cfws intl (w ++ (b';' ∷ s))) (rw nom.opt_law at before) in
      (q, e, rw (nom.opt_law, nom.alt_law, no_mailbox_list w s h, nom.map_law) read)
