-- ===== src/Rfc5322/Addresses/Specs.antt =====
-- src/rfc5322.rs: addresses without a name are read from their texts, in the behaviour `Intl`.
use rustyknife.External.{External}
use rustyknife.Nom.Rules.{many0_ok, consumed-append, tag-append}
use rustyknife.Nom.{Nom, Parser, ok, err, error, Many, stop, more, tag, opt, pair}
use rustyknife.Prelude.{
  ℕ, ◌≡◌, ◌≢◌, ◌<◌, refl, ap, sym, ◌∙◌, ◌==◌, ◌||◌, Bool, true, List, [], ◌∷◌, ◌++◌, Option, Bytes,
  codes, Every, arith, append_assoc, append-nil, length, length-append,
}
use rustyknife.Rfc5234.Blanks.{is_blank}
use rustyknife.Rfc5322.Addresses.Texts.{IsAtom, Dotted, one_atom, dotted, AddrText, addr_text}
use rustyknife.Rfc5322.Addresses.Words.{Hard-atom, atoms-run}
use rustyknife.Rfc5322.Addresses.{dot_atom_domain, domain, addr_spec, angle_addr}
use rustyknife.Rfc5322.Comments.Gaps.{Hard, opt_cfws-blanks}
use rustyknife.Rfc5322.Comments.{cfws}
use rustyknife.Rfc5322.Policy.Chars.{CharStops}
use rustyknife.Rfc5322.Policy.{is_atext, intl}
use rustyknife.Rfc5322.Words.{dot_atom, local_part}
use rustyknife.Types
use rustyknife.Util.{recognize_many0, recognize_many1}

abbrev pub NoDot : Bytes → Type 0
NoDot [] = Unit {0}
NoDot (c ∷ s) = c ≢ b'.'

-- The signs of the syntax of addresses.
abbrev pub is_sign : ℕ → Bool
is_sign c = c == b'@' || c == b'<' || c == b'>' || c == b',' || c == b':' || c == b';'

abbrev pub is_mark : ℕ → Bool
is_mark c = is_sign c || c == b'.'

module _ ⦃nom : Nom⦄ where
  -- No further character and no dot comes; what is behind white space is left.
  abbrev pub DotEndTo : Bytes → Bytes → Type 0
  DotEndTo s u =
      CharStops is_atext s × NoDot s × ((o : Option Bytes) × (opt (cfws intl) s ≡ ok u o))

  abbrev pub DotEnd : Bytes → Type 0
  DotEnd s = DotEndTo s s

  pub DotEnd-sign : (c : ℕ) (s : Bytes) → is_sign c ≡ true → DotEnd (c ∷ s)
  DotEnd-sign c s y = (
    (ground (arith, y), ground (arith, y)),
    ground (arith, y),
    opt_cfws-blanks intl [] (c ∷ s) tt (ground (arith, y), ground (arith, y), ground (arith, y)),
  )

  pub no_tag : (c : ℕ) (s : Bytes) (d : ℕ) → c ≢ d → tag (c ∷ []) (d ∷ s) ≡ err error
  no_tag c s d n = rw nom.tag_law (ground (arith, n))

  -- A dot and an atom.
  abbrev dot_and_atom : Parser (Bytes × Bytes)
  dot_and_atom = pair (tag (codes ".")) (recognize_many1 intl.atext)

  no_dot : (s : Bytes) → NoDot s → dot_and_atom s ≡ err error
  no_dot [] n = rw (nom.pair_law, nom.tag_law) refl
  no_dot (c ∷ s) n = rw (nom.pair_law, no_tag b'.' s c (λ e. n (sym e))) refl

  dots :
      {d : Bytes} (s : Bytes)
      → Dotted d
      → CharStops is_atext s × NoDot s
      → (a : Bytes) × (t : Bytes) × (bs : List (Bytes × Bytes)) × (d ≡ a ++ t)
        × IsAtom a
        × CharStops is_atext (t ++ s)
        × Many dot_and_atom (t ++ s) bs s
  dots s (one_atom {a} k) e = (a, [], [], sym (append-nil a), k, e.0, stop (no_dot s e.1))
  dots s (dotted a d k t) e =
      let (a', t', bs, split, k', st, m) = dots s t e in
      (
        a,
        b'.' ∷ d,
        (codes ".", a') ∷ bs,
        refl,
        k,
        (omega arith, refl),
        more (next a' t' split k' st) (shorter a' t' split k') m,
      )
    where
      next :
          (a' t' : Bytes)
          → d ≡ a' ++ t'
          → IsAtom a'
          → CharStops is_atext (t' ++ s)
          → dot_and_atom (b'.' ∷ (d ++ s)) ≡ ok (t' ++ s) (codes ".", a')
      next a' t' split k' st =
          rw
            (
              split,
              append_assoc,
              nom.pair_law,
              tag-append (codes ".") (a' ++ (t' ++ s)),
              atoms-run a' (t' ++ s) k' st,
            )
            refl

      shorter :
          (a' t' : Bytes) → d ≡ a' ++ t' → IsAtom a' → length (t' ++ s) < length (b'.' ∷ (d ++ s))
      shorter a' t' split k' =
          rw split
            (omega (arith, length-append (a' ++ t') s, length-append a' t', length-append t' s))

  Hard-dotted : {d : Bytes} (s : Bytes) → Dotted d → Hard (d ++ s)
  Hard-dotted s (one_atom {a} k) = Hard-atom a s k
  Hard-dotted s (dotted a d k _) = rw append_assoc (Hard-atom a (b'.' ∷ (d ++ s)) k)

  pub dot_atom-run :
      (w d s u : Bytes)
      → Every is_blank w
      → Dotted d
      → DotEndTo s u
      → dot_atom intl (w ++ (d ++ s)) ≡ ok u d
  unfolding dot_atom recognize_many0
  dot_atom-run w d s u h t e =
      let (o, before) = opt_cfws-blanks intl w (d ++ s) h (Hard-dotted s t) in
      let (o', behind) = e.2 in
      let (a, tail, bs, split, k, st, m) = dots s t (e.0, e.1) in
      let first : recognize_many1 intl.atext (d ++ s) ≡ ok (tail ++ s) a =
        ap (λ x. recognize_many1 intl.atext (x ++ s)) split
        ∙ rw append_assoc (atoms-run a (tail ++ s) k st) in
      rw
        (
          nom.map_law,
          nom.delimited_law,
          before,
          nom.recognize_law,
          nom.pair_law,
          first,
          nom.recognize_law,
          nom.fold_many0_law,
          many0_ok _ _ m,
          consumed-append d s,
          behind,
        )
        refl

  module _ ⦃ext : External⦄ where
    pub addr_spec-run :
        (w c s : Bytes) {m : Types.Mailbox}
        → Every is_blank w
        → AddrText c m
        → DotEnd s
        → addr_spec intl (w ++ (c ++ s)) ≡ ok s m
    unfolding addr_spec local_part domain dot_atom_domain
    addr_spec-run w _ s h (addr_text l d tl _ td) e =
        rw
          (
            append_assoc,
            nom.map_law,
            nom.separated_pair_law,
            nom.alt_law,
            nom.map_law,
            dot_atom-run w l (b'@' ∷ (d ++ s)) (b'@' ∷ (d ++ s)) h tl
                (DotEnd-sign b'@' (d ++ s) refl),
            tag-append (codes "@") (d ++ s),
            nom.alt_law,
            nom.map_law,
            nom.map_law,
            dot_atom-run [] d s s tt td e,
          )
          refl

    pub angle_addr-run :
        (w c s : Bytes) {m : Types.Mailbox}
        → Every is_blank w
        → AddrText c m
        → DotEnd s
        → angle_addr intl (w ++ (b'<' ∷ (c ++ (b'>' ∷ s)))) ≡ ok s m
    unfolding angle_addr
    angle_addr-run w c s h t e =
        let inside = c ++ (b'>' ∷ s) in
        let (o, before) =
          opt_cfws-blanks intl w (b'<' ∷ inside) h
            (refl, λ no. omega (arith, no), λ no. omega (arith, no)) in
        let (o', behind) = e.2 in
        rw
          (
            nom.delimited_law,
            nom.pair_law,
            before,
            tag-append (codes "<") inside,
            addr_spec-run [] c (b'>' ∷ s) tt t (DotEnd-sign b'>' s refl),
            nom.pair_law,
            tag-append (codes ">") s,
            behind,
          )
          refl
