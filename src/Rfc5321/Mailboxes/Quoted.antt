-- ===== src/Rfc5321/Mailboxes/Quoted.antt =====
-- src/rfc5321.rs and src/types.rs: quoted strings are read back as they are displayed.
use rustyknife.Nom.Rules.{many0_ok}
use rustyknife.Nom.Rules.{take1_filter-cons}
use rustyknife.Nom.{Nom, ok, err, error, Many, stop, more}
use rustyknife.Prelude.{
  ℕ, ◌≡◌, refl, Bool, true, false, ◌||◌, [], ◌∷◌, ◌++◌, Bytes, within, ◌==◌, Every, append_assoc,
  arith, if◌then◌else◌, ◌⊎◌, inl, inr,
}
use rustyknife.Prelude.Utf8.{collect, encode_utf8}
use rustyknife.Rfc5321.Mailboxes.{qcontent_smtp, quoted_pair_smtp, quoted_string}
use rustyknife.Rfc5321.Policy.{legacy, is_qtext_smtp}
use rustyknife.Types.{escape, quoted_form}

-- A blank or another printable character.
abbrev pub is_printable : ℕ → Bool
is_printable = within 32 126

collect-ascii : (s : Bytes) → Every is_printable s → collect s ≡ s
unfolding encode_utf8
collect-ascii [] h = refl
collect-ascii (c ∷ cs) h = ground (arith, h, collect-ascii cs h.1)

module _ ⦃nom : Nom⦄ where
  plain_content :
      (c : ℕ) (s : Bytes) → is_qtext_smtp c ≡ true → qcontent_smtp legacy (c ∷ s) ≡ ok s c
  unfolding qcontent_smtp legacy
  plain_content c s h = rw (nom.alt_law, take1_filter-cons, h)

  escaped_content :
      (c : ℕ) (s : Bytes)
      → is_printable c ≡ true
      → is_qtext_smtp c ≡ false
      → qcontent_smtp legacy (b'\\' ∷ c ∷ s) ≡ ok s c
  unfolding qcontent_smtp quoted_pair_smtp legacy
  escaped_content c s h q =
      rw (nom.alt_law, take1_filter-cons, nom.preceded_law, nom.tag_law, take1_filter-cons, h)

  closing_quote : (s : Bytes) → qcontent_smtp legacy (b'"' ∷ s) ≡ err error
  unfolding qcontent_smtp quoted_pair_smtp legacy
  closing_quote s = rw (nom.alt_law, take1_filter-cons, nom.preceded_law, nom.tag_law)

  pub special_iff :
      (c : ℕ)
      → is_printable c ≡ true
      → (is_qtext_smtp c ≡ true × ((c == b'"' || c == b'\\') ≡ false))
        ⊎ (is_qtext_smtp c ≡ false × ((c == b'"' || c == b'\\') ≡ true))
  special_iff c h = ground (arith, h)

  Many-escape :
      (s r : Bytes)
      → Every is_printable s
      → Many (qcontent_smtp legacy) (escape s ++ (b'"' ∷ r)) s (b'"' ∷ r)
  unfolding escape
  Many-escape [] r h = stop (closing_quote r)
  Many-escape (c ∷ cs) r h = elim (special_iff c h.0) [
    | inl (q, plain) ↦
        rw (plain, if◌then◌else◌) (more (plain_content c _ q) (omega arith) (Many-escape cs r h.1))
    | inr (q, special) ↦
        rw (special, if◌then◌else◌)
          (more (escaped_content c _ h.0 q) (omega arith) (Many-escape cs r h.1))
  ]

  -- A string of printable ASCII characters, blanks included, is read back from its quoted form, in
  -- the legacy behaviour and whatever follows.
  pub quoted_string-quoted_form :
      (s r : Bytes) → Every is_printable s → quoted_string legacy (quoted_form s ++ r) ≡ ok r s
  unfolding quoted_string quoted_form
  quoted_string-quoted_form s r h = rw (
    append_assoc,
    nom.map_law,
    nom.delimited_law,
    nom.tag_law,
    many0_ok _ _ (Many-escape s r h),
    nom.tag_law,
    collect-ascii s h,
  )
