-- ===== src/Rfc5321/Commands/Postmaster.antt =====
-- src/rfc5321.rs: `ForwardPath::into_mailbox` does not panic.
use rustyknife.Nom.Rules.{many0_ok}
use rustyknife.External.{External}
use rustyknife.Nom.Rules.{take1_filter-cons, take1_filter-nil}
use rustyknife.Nom.{Nom, Parser, ok, err, error, Many, stop, more, alt, many0, pair, tag}
use rustyknife.Prelude.{
  ℕ, ◌≤◌, ◌≡◌, refl, Bool, [], ◌∷◌, none, some, Bytes, codes, Every, Every-all, arith,
}
use rustyknife.Conversions.{converted, from_smtp, local_part_from_smtp}
use rustyknife.Rfc5321.Commands.IntoMailbox.{into_mailbox}
use rustyknife.Rfc5321.Commands.{ForwardPath, forward, post_master}
use rustyknife.Rfc5321.Mailboxes.{atom, dot_string, local_part}
use rustyknife.Rfc5321.Policy.{intl}
use rustyknife.Rfc5322.Policy.{is_atext, single_char, utf8_non_ascii}
use rustyknife.Types.{LocalPart, DomainPart, Mailbox}
use rustyknife.Util.{take1_filter, recognize_many1}

-- Whom a forward path names.
abbrev pub addressee : ForwardPath → DomainPart → Mailbox
addressee (forward p) domain_part = p.path_mailbox
addressee (post_master none) domain_part = record {
  local_part = LocalPart.dot_atom (codes "postmaster");
  domain_part = domain_part;
}
addressee (post_master (some d)) domain_part = record {
  local_part = LocalPart.dot_atom (codes "postmaster");
  domain_part = DomainPart.domain d;
}

module _ ⦃nom : Nom⦄ where
  single_char-nil : (n : ℕ) → 1 ≤ n → single_char n [] ≡ err error
  unfolding single_char
  single_char-nil n h = rw (nom.map_opt_law, nom.take_bytes_law) (ground (arith, h))

  utf8_non_ascii-nil : utf8_non_ascii [] ≡ err error
  unfolding utf8_non_ascii
  utf8_non_ascii-nil =
      rw
        (
          nom.alt_law,
          single_char-nil 4 (omega arith),
          nom.alt_law,
          single_char-nil 3 (omega arith),
          single_char-nil 2 (omega arith),
        )
        refl

  Many-ascii :
      (f : ℕ → Bool) (q : Parser ℕ) (s : Bytes)
      → q [] ≡ err error
      → Every f s
      → Many (alt (take1_filter f) q) s s []
  Many-ascii f q [] e h = stop (rw (nom.alt_law, take1_filter-nil) e)
  Many-ascii f q (c ∷ cs) e h =
      more (rw (nom.alt_law, take1_filter-cons, h.0) refl) (omega arith) (Many-ascii f q cs e h.1)

  module _ ⦃ext : External⦄ where
    more_letters :
        many0 (alt (take1_filter is_atext) utf8_non_ascii) (codes "ostmaster")
        ≡ ok [] (codes "ostmaster")
    more_letters = many0_ok _ _ (
        Many-ascii is_atext utf8_non_ascii (codes "ostmaster") utf8_non_ascii-nil
          (Every-all is_atext (codes "ostmaster") refl))

    atom-postmaster : atom intl (codes "postmaster") ≡ ok [] (codes "postmaster")
    unfolding atom recognize_many1 intl
    atom-postmaster =
        rw
          (
            nom.recognize_law, nom.fold_many1_law, nom.many1_law, nom.alt_law, take1_filter-cons,
            more_letters,
          )
          refl

    no_dot : many0 (pair (tag (codes ".")) (atom intl)) [] ≡ ok [] []
    no_dot = many0_ok _ _ (stop (rw (nom.pair_law, nom.tag_law) refl))

    dot_string-postmaster : dot_string intl (codes "postmaster") ≡ ok [] (codes "postmaster")
    unfolding dot_string
    dot_string-postmaster =
        rw (nom.map_law, nom.recognize_law, nom.pair_law, atom-postmaster, no_dot) refl

    local_part-postmaster :
        local_part intl (codes "postmaster") ≡ ok [] (LocalPart.dot_atom (codes "postmaster"))
    unfolding local_part
    local_part-postmaster = rw (nom.alt_law, nom.map_law, dot_string-postmaster) refl

    -- The whole text is the local part, and nothing is left.
    local_part_from_smtp-postmaster :
        local_part_from_smtp (codes "postmaster")
        ≡ converted (LocalPart.dot_atom (codes "postmaster"))
    unfolding local_part_from_smtp from_smtp
    local_part_from_smtp-postmaster = rw (nom.exact_law, local_part-postmaster) refl

    -- The mailbox of a forward path is always found: the mailbox of the path, or postmaster at the
    -- domain of the path or else at the one that is given. The conversion of the text of that local
    -- part, which is read as a whole in the international behaviour, does not fail.
    pub into_mailbox-addressee :
        (fp : ForwardPath) (d : DomainPart) → into_mailbox fp d ≡ some (addressee fp d)
    unfolding into_mailbox
    into_mailbox-addressee (forward p) d = refl
    into_mailbox-addressee (post_master none) d =
        rw (into_mailbox, local_part_from_smtp-postmaster) refl
    into_mailbox-addressee (post_master (some e)) d =
        rw (into_mailbox, local_part_from_smtp-postmaster) refl
