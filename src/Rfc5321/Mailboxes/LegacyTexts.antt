-- ===== src/Rfc5321/Mailboxes/LegacyTexts.antt =====
-- src/rfc5321.rs: atoms, labels and quoted strings in the legacy behaviour.
use rustyknife.External.{External}
use rustyknife.Nom.Rules.{recognize_many1-filter}
use rustyknife.Rfc5321.Mailboxes.Dotted.{NoDot}
use rustyknife.Rfc5321.Mailboxes.Quoted.{is_printable, quoted_string-quoted_form}
use rustyknife.Rfc5321.Mailboxes.RoundTrip.{IsLocal, IsDomainPart, mailbox_read_back}
use rustyknife.Rfc5321.Mailboxes.Texts.{Texts}
use rustyknife.Rfc5321.Mailboxes.{mailbox}
use rustyknife.Types.{Mailbox, display_mailbox}
use rustyknife.Nom.Rules.{Stops, take1_filter-cons, consumed-append, recognize_many1-run}
use rustyknife.Nom.{tag, Nom, ok, err, error, is_alphanumeric}
use rustyknife.Prelude.{
  arith, codes, ◌≡◌, ◌⊎◌, refl, ap, ◌∙◌, true, false, [], ◌∷◌, ◌++◌, Bytes, Every, if◌then◌else◌,
  inl, inr,
}
use rustyknife.Rfc5321.Mailboxes.{atom}
use rustyknife.Rfc5321.Policy.{legacy, is_ldh, let_dig, ldh_str, trim_dashes}
use rustyknife.Rfc5321.Policy.Labels.{EndsPlain, ldh_str-Label, ldh_str-from_kept}
use rustyknife.Rfc5322.Policy.{is_atext}

module _ ⦃nom : Nom⦄ where
  -- A letter or digit, then perhaps more, with dashes that are not last.
  abbrev pub IsLabel : Bytes → Type 0
  IsLabel [] = ⊥
  IsLabel (c ∷ cs) = (is_alphanumeric c ≡ true) × ((cs ≡ []) ⊎ (EndsPlain cs × Every is_ldh cs))

  ldh_str-Stops : (r : Bytes) → Stops is_ldh r → ldh_str r ≡ err error
  unfolding trim_dashes
  ldh_str-Stops [] st = ldh_str-from_kept []
  ldh_str-Stops (c ∷ r) st = ldh_str-from_kept (c ∷ r) ∙ rw (st, if◌then◌else◌) refl

  pub sub_domain-run :
      (l r : Bytes) → IsLabel l → Stops is_ldh r → legacy.sub_domain (l ++ r) ≡ ok r l
  unfolding legacy let_dig
  sub_domain-run [] r h st = absurd h
  sub_domain-run (c ∷ cs) r h st = elim (h.1) [
    | inl e ↦ rw e (
        rw
          (nom.recognize_law, nom.pair_law, take1_filter-cons, h.0, nom.opt_law, ldh_str-Stops r st)
          (ap (ok r) (consumed-append (c ∷ []) r)))
    | inr (plain, ldh) ↦
        let rest : ldh_str (cs ++ r) ≡ ok r cs = ldh_str-Label (cs ++ r) r cs (record {
          label_splits = refl;
          label_ldh = ldh;
          label_ends = plain;
          trail = [];
          behind = r;
          rest_splits = refl;
          trail_dashes = tt;
          behind_stops = st;
        }) in
        rw (nom.recognize_law, nom.pair_law, take1_filter-cons, h.0, nom.opt_law, rest)
          (ap (ok r) (consumed-append (c ∷ cs) r))
  ]

  pub dot-is_ldh : is_ldh b'.' ≡ false
  unfolding is_ldh
  dot-is_ldh = rw nom.is_alphanumeric_law refl

  abbrev pub IsAtom : Bytes → Type 0
  IsAtom [] = ⊥
  IsAtom (c ∷ cs) = Every is_atext (c ∷ cs)

  pub atom-run : (x r : Bytes) → IsAtom x → Stops is_atext r → atom legacy (x ++ r) ≡ ok r x
  unfolding atom legacy
  atom-run [] r h st = absurd h
  atom-run (c ∷ cs) r h st = recognize_many1-run is_atext c cs r h st

  pub no_atom : (s : Bytes) → atom legacy (b'"' ∷ s) ≡ err error
  unfolding atom legacy
  no_atom s = rw recognize_many1-filter refl

  pub no_atom_close : (s : Bytes) → atom legacy (b'>' ∷ s) ≡ err error
  unfolding atom legacy
  no_atom_close s = rw recognize_many1-filter refl

  pub atom_not_at : (x s : Bytes) → IsAtom x → tag (codes "@") (x ++ s) ≡ err error
  atom_not_at [] s h = absurd h
  atom_not_at (c ∷ cs) s h = rw nom.tag_law (ground (arith, h.0))

  pub close-is_ldh : is_ldh b'>' ≡ false
  unfolding is_ldh
  close-is_ldh = rw nom.is_alphanumeric_law refl

  pub no_label : (s : Bytes) → legacy.sub_domain (b'[' ∷ s) ≡ err error
  unfolding legacy let_dig
  no_label s = rw (nom.recognize_law, nom.pair_law, take1_filter-cons, nom.is_alphanumeric_law) refl

  abbrev pub legacy_texts : Texts legacy
  legacy_texts = record {
    IsAtom = IsAtom;
    AtomStops = Stops is_atext;
    atom_run = atom-run;
    atom_before_dot = λ s. refl;
    atom_before_at = λ s. refl;
    no_atom = no_atom;
    no_atom_close = no_atom_close;
    atom_not_at = atom_not_at;
    IsLabel = IsLabel;
    LabelStops = Stops is_ldh;
    label_run = sub_domain-run;
    label_before_dot = λ s. dot-is_ldh;
    no_label = no_label;
    label_before_close = λ s. close-is_ldh;
    IsQuoted = Every is_printable;
    quoted_run = quoted_string-quoted_form;
  }

  module _ ⦃ext : External⦄ where
    -- A mailbox is read back from its display form, in the legacy behaviour: its local part is atoms
    -- with dots between them or printable ASCII characters in quotes, its domain part labels with
    -- dots between them or an IPv4 address, and what follows goes on neither with a letter, digit or
    -- dash nor with a dot.
    pub mailbox-display_mailbox :
        (m : Mailbox) (r : Bytes)
        → IsLocal legacy_texts m.local_part
        → IsDomainPart legacy_texts m.domain_part
        → Stops is_ldh r
        → NoDot r
        → mailbox legacy (display_mailbox m ++ r) ≡ ok r m
    mailbox-display_mailbox m r hl hd st no_dot = mailbox_read_back legacy_texts m r hl hd st no_dot
