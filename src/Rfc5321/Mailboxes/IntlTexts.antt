-- ===== src/Rfc5321/Mailboxes/IntlTexts.antt =====
-- src/rfc5321.rs: atoms, labels and quoted strings in the behaviour `Intl`.
use rustyknife.External.{External}
use rustyknife.Nom.Rules.{many0_ok, AllOf, take1_filter-cons}
use rustyknife.Nom.{Nom, ok, err, error, tag, Many, stop, more}
use rustyknife.Prelude.{
  ℕ, ◌≡◌, ◌≤◌, ◌<◌, inl, inr, refl, ap, sym, true, false, List, [], ◌∷◌, ◌++◌, Bytes, append_assoc,
  arith, if◌then◌else◌, Bool, ltb, Every, Bool-cases, codes,
}
use rustyknife.Prelude.Utf8.{collect, encode_utf8}
use rustyknife.Rfc5321.Mailboxes.Quoted.{is_printable, special_iff}
use rustyknife.Rfc5321.Mailboxes.LegacyTexts.{dot-is_ldh, close-is_ldh}
use rustyknife.Rfc5321.Mailboxes.Texts.{Texts}
use rustyknife.Rfc5321.Mailboxes.{atom, qcontent_smtp, quoted_pair_smtp, quoted_string}
use rustyknife.Rfc5321.Policy.{legacy, intl, is_ldh, is_qtext_smtp}
use rustyknife.Rfc5322.Policy as Imf
use rustyknife.Rfc5322.Policy.Chars.{
  CharOf, CharStops, encode_utf8-ascii, encode_utf8-Leads, encode_progress, recognize_many1-collect,
  recognize_many1-stop, char_read, char_stop,
}
use rustyknife.Rfc5322.Policy.Utf8.{encode_2, encode_3, encode_4}
use rustyknife.Rfc5322.Policy.{is_atext, utf8_non_ascii}
use rustyknife.Types.{escape, quoted_form}

module _ ⦃nom : Nom⦄ ⦃ext : External⦄ where
  pub is_atext_narrow : (a : ℕ) → 0x80 ≤ a → is_atext a ≡ false
  is_atext_narrow a l = ground (arith, l)

  pub is_ldh_narrow : (a : ℕ) → 0x80 ≤ a → is_ldh a ≡ false
  unfolding is_ldh
  is_ldh_narrow a l = rw nom.is_alphanumeric_law (ground (arith, l))

  pub is_qtext_smtp_narrow : (a : ℕ) → 0x80 ≤ a → is_qtext_smtp a ≡ false
  is_qtext_smtp_narrow a l = ground (arith, l)

  -- Characters, at least one.
  abbrev pub IsAtom : Bytes → Type 0
  IsAtom x = (c : ℕ) × (cs : List ℕ) × (x ≡ collect (c ∷ cs)) × AllOf (CharOf is_atext) (c ∷ cs)

  -- The same of letters, digits, dashes and characters beyond ASCII, and a label to the crate `idna`.
  abbrev pub IsLabel : Bytes → Type 0
  IsLabel l =
      ((c : ℕ) × (cs : List ℕ) × (l ≡ collect (c ∷ cs)) × AllOf (CharOf is_ldh) (c ∷ cs))
      × (ext.idna_is_ok l ≡ true)

  pub atom-run : (x r : Bytes) → IsAtom x → CharStops is_atext r → atom intl (x ++ r) ≡ ok r x
  unfolding atom intl Imf.intl Imf.legacy
  atom-run x r (c, cs, e, h) st =
      rw e (recognize_many1-collect is_atext is_atext_narrow c cs r h st)

  pub sub_domain-run :
      (l r : Bytes) → IsLabel l → CharStops is_ldh r → intl.sub_domain (l ++ r) ≡ ok r l
  unfolding intl
  sub_domain-run l r ((c, cs, e, h), good) st =
      rw
        (
          nom.verify_law,
          ap (λ x. x ++ r) e,
          recognize_many1-collect is_ldh is_ldh_narrow c cs r h st,
          sym e,
          good,
          if◌then◌else◌,
        )
        refl

abbrev beyond_ascii : ℕ → Bool
beyond_ascii = ltb 0x7f

escape-beyond : (t s : Bytes) → Every beyond_ascii t → escape (t ++ s) ≡ t ++ escape s
unfolding escape
escape-beyond [] s h = refl
escape-beyond (a ∷ t) s h = ground (arith, h, escape-beyond t s h.1)

encode_utf8-beyond : (c : ℕ) → 0x80 ≤ c → Every beyond_ascii (encode_utf8 c)
encode_utf8-beyond c l = elim (Bool-cases (ltb c 0x800)) [
  | inl y ↦ rw (encode_2 c l (ground (arith, y))) (ground (arith, l), (ground arith, tt))
  | inr n ↦ elim (Bool-cases (ltb c 0x10000)) [
    | inl y ↦
        rw (encode_3 c (ground (arith, n)) (ground (arith, y)))
          (ground arith, (ground arith, (ground arith, tt)))
    | inr m ↦
        rw (encode_4 c (ground (arith, m)))
          (ground arith, (ground arith, (ground arith, (ground arith, tt))))
  ]
]

-- A printable ASCII character or one beyond ASCII.
abbrev pub IsText : List ℕ → Type 0
IsText cs = AllOf (CharOf is_printable) cs

module _ ⦃nom : Nom⦄ ⦃ext : External⦄ where
  content :
      (c : ℕ) (s : Bytes)
      → CharOf is_qtext_smtp c
      → qcontent_smtp intl (encode_utf8 c ++ s) ≡ ok s c
  unfolding qcontent_smtp intl legacy
  content c s h = rw (nom.alt_law, char_read is_qtext_smtp is_qtext_smtp_narrow c s h) refl

  plain_content :
      (c : ℕ) (s : Bytes) → c < 0x80 → is_qtext_smtp c ≡ true → qcontent_smtp intl (c ∷ s) ≡ ok s c
  plain_content c s l q = rw (encode_utf8-ascii c l) at (content c s (inl (l, q)))

  escaped :
      (c : ℕ) (s : Bytes) → is_printable c ≡ true → qcontent_smtp intl (b'\\' ∷ c ∷ s) ≡ ok s c
  unfolding qcontent_smtp quoted_pair_smtp intl legacy
  escaped c s h =
      rw
        (
          nom.alt_law,
          char_stop is_qtext_smtp is_qtext_smtp_narrow (b'\\' ∷ c ∷ s) (omega arith, refl),
          nom.preceded_law,
          nom.tag_law,
          take1_filter-cons,
          h,
        )
        refl

  closing : (s : Bytes) → qcontent_smtp intl (b'"' ∷ s) ≡ err error
  unfolding qcontent_smtp quoted_pair_smtp intl legacy
  closing s =
      rw
        (
          nom.alt_law,
          char_stop is_qtext_smtp is_qtext_smtp_narrow (b'"' ∷ s) (omega arith, refl),
          nom.preceded_law,
          nom.tag_law,
        )
        refl

  Many-text :
      (cs : List ℕ) (r : Bytes)
      → IsText cs
      → Many (qcontent_smtp intl) (escape (collect cs) ++ (b'"' ∷ r)) cs (b'"' ∷ r)
  unfolding escape
  Many-text [] r h = stop (closing r)
  Many-text (c ∷ cs) r (inr w, h) =
      rw (escape-beyond (encode_utf8 c) (collect cs) (encode_utf8-beyond c w.0), append_assoc)
        (more (content c _ (inr w)) (encode_progress is_qtext_smtp is_qtext_smtp_narrow c _ (inr w))
          (Many-text cs r h))
  Many-text (c ∷ cs) r (inl (l, y), h) = elim (special_iff c y) [
    | inl (q, plain) ↦
        rw (encode_utf8-ascii c l, escape, plain, if◌then◌else◌)
          (more (plain_content c _ l q) (omega arith) (Many-text cs r h))
    | inr (q, special) ↦
        rw (encode_utf8-ascii c l, escape, special, if◌then◌else◌)
          (more (escaped c _ y) (omega arith) (Many-text cs r h))
  ]

  abbrev pub IsQuoted : Bytes → Type 0
  IsQuoted q = (cs : List ℕ) × (q ≡ collect cs) × IsText cs

  pub quoted-run : (q r : Bytes) → IsQuoted q → quoted_string intl (quoted_form q ++ r) ≡ ok r q
  unfolding quoted_string quoted_form
  quoted-run q r (cs, e, h) =
      rw
        (
          e,
          append_assoc,
          nom.map_law,
          nom.delimited_law,
          nom.tag_law,
          many0_ok _ _ (Many-text cs r h),
          nom.tag_law,
        )
        refl

  pub no_atom : (s : Bytes) → atom intl (b'"' ∷ s) ≡ err error
  unfolding atom intl Imf.intl Imf.legacy
  no_atom s = recognize_many1-stop is_atext is_atext_narrow (b'"' ∷ s) (omega arith, refl)

  pub no_atom_close : (s : Bytes) → atom intl (b'>' ∷ s) ≡ err error
  unfolding atom intl Imf.intl Imf.legacy
  no_atom_close s = recognize_many1-stop is_atext is_atext_narrow (b'>' ∷ s) (omega arith, refl)

  no_at : (c : ℕ) (s : Bytes) → CharOf is_atext c → tag (codes "@") (encode_utf8 c ++ s) ≡ err error
  no_at c s (inl (l, y)) = rw (nom.tag_law, encode_utf8-ascii c l) (ground (arith, y))
  no_at c s (inr w) =
      let (a, t, e, l) = encode_utf8-Leads c w.0 in rw (nom.tag_law, e) (ground (arith, l))

  pub atom_not_at : (x s : Bytes) → IsAtom x → tag (codes "@") (x ++ s) ≡ err error
  atom_not_at x s (c, cs, e, h) = rw (e, append_assoc) (no_at c (collect cs ++ s) h.0)

  pub no_label : (s : Bytes) → intl.sub_domain (b'[' ∷ s) ≡ err error
  unfolding intl
  no_label s =
      rw
        (
          nom.verify_law,
          recognize_many1-stop is_ldh is_ldh_narrow (b'[' ∷ s) (omega arith, bracket),
        )
        refl
    where
      bracket : is_ldh b'[' ≡ false
      bracket = rw (is_ldh, nom.is_alphanumeric_law) refl

  abbrev pub intl_texts : Texts intl
  intl_texts = record {
    IsAtom = IsAtom;
    AtomStops = CharStops is_atext;
    atom_run = atom-run;
    atom_before_dot = λ s. (omega arith, refl);
    atom_before_at = λ s. (omega arith, refl);
    no_atom = no_atom;
    no_atom_close = no_atom_close;
    atom_not_at = atom_not_at;
    IsLabel = IsLabel;
    LabelStops = CharStops is_ldh;
    label_run = sub_domain-run;
    label_before_dot = λ s. (omega arith, dot-is_ldh);
    no_label = no_label;
    label_before_close = λ s. (omega arith, close-is_ldh);
    IsQuoted = IsQuoted;
    quoted_run = quoted-run;
  }
