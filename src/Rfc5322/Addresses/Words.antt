-- ===== src/Rfc5322/Addresses/Words.antt =====
-- src/rfc5322.rs: atoms, dotted atoms and display names are read from their texts, in the behaviour
-- `Intl`.
use rustyknife.External.{External}
use rustyknife.Nom.Rules.{many0_ok}
use rustyknife.Nom.{Nom, ok, err, error, Many, stop, more, tag}
use rustyknife.Prelude.{
  ℕ, ◌≡◌, ◌≢◌, ◌≤◌, ◌<◌, refl, ap, sym, ◌∙◌, false, List, [], ◌∷◌, ◌++◌, Bytes, codes, Every, arith,
  append_assoc, length, length-append, inl, inr,
}
use rustyknife.Prelude.Utf8.{collect}
use rustyknife.Rfc2047.{encoded_word, charset_and_bytes}
use rustyknife.Rfc5234.Blanks.{is_blank}
use rustyknife.Rfc5322.Addresses.Texts.{
  IsAtom, NotEncoded, IsWord, NameText, last_word, next_word, joined,
}
use rustyknife.Rfc5322.Comments.Gaps.{Hard, opt_cfws-blanks}
use rustyknife.Rfc5322.Policy.Chars.{
  CharStops, encode_utf8-ascii, encode_utf8-Leads, recognize_many1-collect, recognize_many1-stop,
}
use rustyknife.Rfc5322.Policy.{is_atext, intl, legacy}
use rustyknife.Rfc5322.Words.{
  Text, atom_text, concat_atom_and_qs, padded_encoded_word, atom, word, display_name, quoted_string,
  inner_quoted_string,
}
use rustyknife.Util.{recognize_many1}

is_atext_narrow : (a : ℕ) → 0x80 ≤ a → is_atext a ≡ false
is_atext_narrow a l = ground (arith, l)

abbrev NoQuote : Bytes → Type 0
NoQuote [] = Unit {0}
NoQuote (c ∷ s) = c ≢ b'"'

-- No word starts here, and nothing that could be skipped.
abbrev pub NoWord : Bytes → Type 0
NoWord s = Hard s × CharStops is_atext s × NoQuote s

-- An atom starts with a byte of the class, or beyond ASCII.
abbrev pub AtomByte : ℕ → Type 0
AtomByte a = (is_blank a ≡ false) × (a ≢ b'\r') × (a ≢ b'(') × (a ≢ b'@')

pub atom_start :
    (x s : Bytes) → IsAtom x → (a : ℕ) × (t : Bytes) × (x ++ s ≡ a ∷ (t ++ s)) × AtomByte a
atom_start x s (c, cs, e, h) = elim (h.0) [
  | inl (low, y) ↦ (
    c,
    collect cs,
    ap (λ z. z ++ s) (e ∙ ap (λ z. z ++ collect cs) (encode_utf8-ascii c low)),
    (ground (arith, y), ground (arith, y), ground (arith, y), ground (arith, y)),
  )
  | inr wide ↦
      let (a, t, e', high) = encode_utf8-Leads c wide.0 in
      (
        a,
        t ++ collect cs,
        ap (λ z. z ++ s) (e ∙ ap (λ z. z ++ collect cs) e'),
        (ground (arith, high), ground (arith, high), ground (arith, high), ground (arith, high)),
      )
]

pub atom_filled : (x : Bytes) → IsAtom x → 0 < length x
atom_filled x k =
    let (a, t, e, _) = atom_start x [] k in omega (arith, ap length e, length-append x [])

pub Hard-atom : (x s : Bytes) → IsAtom x → Hard (x ++ s)
Hard-atom x s h = let (a, t, e, b) = atom_start x s h in rw e (b.0, b.1, b.2)

pub Stops-blanks : (w s : Bytes) → Every is_blank w → w ≢ [] → CharStops is_atext (w ++ s)
Stops-blanks [] s h ne = absurd (ne refl)
Stops-blanks (b ∷ w) s h ne = (ground (arith, h.0), ground (arith, h.0))

NotEncoded-append : (x s : Bytes) → NotEncoded x → CharStops is_atext s → NotEncoded (x ++ s)
NotEncoded-append [] [] n st = refl
NotEncoded-append [] (c ∷ s) n st = ground (arith, st.1)
NotEncoded-append (a ∷ []) [] n st = n
NotEncoded-append (a ∷ []) (c ∷ s) n st = ground (arith, st.1)
NotEncoded-append (a ∷ b ∷ x) s n st = ground (arith, n)

abbrev map_words : List Bytes → List Text
map_words [] = []
map_words (a ∷ as') = atom_text a ∷ map_words as'

module _ ⦃nom : Nom⦄ where
  pub atoms-run :
      (x s : Bytes) → IsAtom x → CharStops is_atext s → recognize_many1 intl.atext (x ++ s) ≡ ok s x
  unfolding intl legacy
  atoms-run x s (c, cs, e, h) st =
      rw e (recognize_many1-collect is_atext is_atext_narrow c cs s h st)

  pub no_atoms : (s : Bytes) → CharStops is_atext s → recognize_many1 intl.atext s ≡ err error
  unfolding intl legacy
  no_atoms s st = recognize_many1-stop is_atext is_atext_narrow s st

  no_quote : (s : Bytes) → NoQuote s → tag (codes "\"") s ≡ err error
  no_quote [] q = rw nom.tag_law refl
  no_quote (c ∷ s) q = rw nom.tag_law (ground (arith, q))

  module _ ⦃ext : External⦄ where
    no_encoded_word : (s : Bytes) → NotEncoded s → encoded_word s ≡ err error
    unfolding encoded_word charset_and_bytes
    no_encoded_word s n =
        rw (nom.map_law, nom.map_law, nom.pair_law, nom.preceded_law, nom.tag_law, n) refl

    -- A word, behind blanks; the blanks behind it are skipped.
    pub word-run :
        (w a w' s : Bytes)
        → Every is_blank w
        → IsWord a
        → Every is_blank w'
        → Hard s
        → CharStops is_atext (w' ++ s)
        → word intl (w ++ (a ++ (w' ++ s))) ≡ ok s (atom_text a)
    unfolding word padded_encoded_word atom
    word-run w a w' s h (k, n) h' hard st =
        let (o, before) = opt_cfws-blanks intl w (a ++ (w' ++ s)) h (Hard-atom a (w' ++ s) k) in
        let (o', behind) = opt_cfws-blanks intl w' s h' hard in
        rw
          (
            nom.alt_law,
            nom.map_law,
            nom.delimited_law,
            before,
            no_encoded_word _ (NotEncoded-append a (w' ++ s) n st),
            nom.alt_law,
            nom.map_law,
            nom.delimited_law,
            before,
            atoms-run a (w' ++ s) k st,
            behind,
          )
          refl

    pub no_quoted :
        (w s : Bytes) → Every is_blank w → NoWord s → quoted_string intl (w ++ s) ≡ err error
    unfolding quoted_string inner_quoted_string
    no_quoted w s h (hard, st, q) =
        let (o, before) = opt_cfws-blanks intl w s h hard in
        rw (nom.map_law, nom.delimited_law, before, nom.map_law, nom.delimited_law, no_quote s q)
          refl

    pub no_word : (w s : Bytes) → Every is_blank w → NoWord s → word intl (w ++ s) ≡ err error
    unfolding word padded_encoded_word atom
    no_word w s h no_text =
        let (o, before) = opt_cfws-blanks intl w s h no_text.0 in
        rw
          (
            nom.alt_law,
            nom.map_law,
            nom.delimited_law,
            before,
            no_encoded_word s (NotEncoded-append [] s refl no_text.1),
            nom.alt_law,
            nom.map_law,
            nom.delimited_law,
            before,
            no_atoms s no_text.1,
            nom.map_law,
            no_quoted w s h no_text,
          )
          refl

    -- Words and what ends a display name.
    pub Hard-name : {n : Bytes} {ns : List Bytes} (s : Bytes) → NameText n ns → Hard (n ++ s)
    Hard-name s (last_word a w k h) = rw append_assoc (Hard-atom a (w ++ s) k.0)
    Hard-name s (next_word a w {c} k h ne t) = rw append_assoc (Hard-atom a ((w ++ c) ++ s) k.0)

    pub Stops-last :
        (w s : Bytes) → Every is_blank w → CharStops is_atext s → CharStops is_atext (w ++ s)
    Stops-last [] s h st = st
    Stops-last (b ∷ w) s h st = Stops-blanks (b ∷ w) s h (λ no. cc no)

    longer : (v a w s : Bytes) → IsAtom a → length s < length (v ++ ((a ++ w) ++ s))
    longer v a w s k = omega (
      arith,
      length-append v ((a ++ w) ++ s),
      length-append (a ++ w) s,
      length-append a w,
      atom_filled a k,
    )

    further :
        (v a w c s : Bytes) → IsAtom a → length (c ++ s) < length (v ++ ((a ++ (w ++ c)) ++ s))
    further v a w c s k = omega (
      arith,
      length-append v ((a ++ (w ++ c)) ++ s),
      length-append (a ++ (w ++ c)) s,
      length-append a (w ++ c),
      length-append w c,
      length-append c s,
      atom_filled a k,
    )

    -- The first word of a display name, and the others.
    first_word :
        (v : Bytes) {n : Bytes} {ns : List Bytes} (s : Bytes)
        → Every is_blank v
        → NameText n ns
        → NoWord s
        → (a : Bytes) × (r : Bytes) × (rest : List Bytes) × (ns ≡ a ∷ rest)
          × (word intl (v ++ (n ++ s)) ≡ ok r (atom_text a))
          × (length r < length (v ++ (n ++ s)))
          × Many (word intl) r (map_words rest) s
    first_word v s b (last_word a w k h) stops = (
      a,
      s,
      [],
      refl,
      rw append_assoc (word-run v a w s b k h stops.0 (Stops-last w s h stops.1)),
      longer v a w s k.0,
      stop (no_word [] s tt stops),
    )
    first_word v s b (next_word a w {c} {as'} k h ne t) stops =
        let (a', r, rest, e, read, shorter, many) = first_word [] s tt t stops in
        (
          a,
          c ++ s,
          as',
          refl,
          rw (append_assoc, append_assoc)
              (word-run v a w (c ++ s) b k h (Hard-name s t) (Stops-blanks w (c ++ s) h ne)),
          further v a w c s k.0,
          rw e (more read shorter many),
        )

    concat-joined : (ns : List Bytes) → concat_atom_and_qs (map_words ns) ≡ joined ns
    unfolding concat_atom_and_qs
    concat-joined [] = refl
    concat-joined (a ∷ []) = refl
    concat-joined (a ∷ b ∷ ns) = ap (λ x. a ++ (b' ' ∷ x)) (concat-joined (b ∷ ns))

    -- A display name is read as its words with one space between them.
    pub display_name-run :
        (v : Bytes) {n : Bytes} {ns : List Bytes} (s : Bytes)
        → Every is_blank v
        → NameText n ns
        → NoWord s
        → display_name intl (v ++ (n ++ s)) ≡ ok s (joined ns)
    unfolding display_name
    display_name-run v s b t stops =
        let (a, r, rest, e, read, shorter, many) = first_word v s b t stops in
        rw (nom.map_law, nom.many1_law, read, many0_ok _ _ many)
          (ap (ok s) (concat-joined (a ∷ rest) ∙ ap joined (sym e)))
