-- ===== src/Rfc5322/Policy/Chars.antt =====
-- src/rfc5322.rs: runs of characters of a class that holds all of UTF-8 beyond ASCII.
use rustyknife.Nom.Rules.{AllOf, many0_ok, take1_filter-cons, take1_filter-nil, consumed-append}
use rustyknife.Nom.{Nom, ok, err, error, alt, Many, stop, more}
use rustyknife.Prelude.{
  ℕ, ◌≡◌, ◌≤◌, ◌<◌, ◌⊎◌, inl, inr, refl, ap, Bool, true, false, List, [], ◌∷◌, ◌++◌, Bytes,
  Bool-cases, append_assoc, arith, length, length-append, ltb,
}
use rustyknife.Prelude.Utf8.{collect, encode_utf8}
use rustyknife.Rfc5322.Policy.Utf8.{
  utf8_non_ascii-encode_utf8, encode_2, encode_3, encode_4, too_short, not_2, not_3, not_4,
}
use rustyknife.Rfc5322.Policy.{utf8_non_ascii}
use rustyknife.Util.{take1_filter, recognize_many1}

-- A character beyond ASCII: a scalar value from 128.
abbrev pub Wide : ℕ → Type 0
Wide c = (0x80 ≤ c) × (c < 0x110000) × ((c < 0xd800) ⊎ (0xe000 ≤ c))

abbrev pub Leads : Bytes → Type 0
Leads s = (a : ℕ) × (t : Bytes) × (s ≡ a ∷ t) × (0x80 ≤ a)

pub encode_utf8-Leads : (c : ℕ) → 0x80 ≤ c → Leads (encode_utf8 c)
encode_utf8-Leads c l = elim (Bool-cases (ltb c 0x800)) [
  | inl y ↦ (_, _, encode_2 c l (ground (arith, y)), omega arith)
  | inr n ↦ elim (Bool-cases (ltb c 0x10000)) [
    | inl y ↦ (_, _, encode_3 c (ground (arith, n)) (ground (arith, y)), omega arith)
    | inr m ↦ (_, _, encode_4 c (ground (arith, m)), omega arith)
  ]
]

pub encode_utf8-ascii : (c : ℕ) → c < 0x80 → encode_utf8 c ≡ c ∷ []
unfolding encode_utf8
encode_utf8-ascii c h = ground (arith, h)

module _ ⦃nom : Nom⦄ where
  pub utf8_non_ascii-ascii : (a : ℕ) (r : Bytes) → a < 0x80 → utf8_non_ascii (a ∷ r) ≡ err error
  unfolding utf8_non_ascii
  utf8_non_ascii-ascii a [] h =
      rw
        (
          nom.alt_law,
          too_short 4 (a ∷ []) (omega arith),
          nom.alt_law,
          too_short 3 (a ∷ []) (omega arith),
          too_short 2 (a ∷ []) (omega arith),
        )
        refl
  utf8_non_ascii-ascii a (b ∷ r) h =
      rw
        (
          nom.alt_law,
          not_4 a b r (ground (arith, h)),
          nom.alt_law,
          not_3 a b r (ground (arith, h)),
          not_2 a b r (ground (arith, h)),
        )
        refl

  utf8_non_ascii-nil : utf8_non_ascii [] ≡ err error
  unfolding utf8_non_ascii
  utf8_non_ascii-nil =
      rw
        (
          nom.alt_law,
          too_short 4 [] (omega arith),
          nom.alt_law,
          too_short 3 [] (omega arith),
          too_short 2 [] (omega arith),
        )
        refl

module _ (f : ℕ → Bool) where
  abbrev pub CharOf : ℕ → Type 0
  CharOf c = ((c < 0x80) × (f c ≡ true)) ⊎ Wide c

  -- No character of the class is next.
  abbrev pub CharStops : Bytes → Type 0
  CharStops [] = Unit {0}
  CharStops (a ∷ r) = (a < 0x80) × (f a ≡ false)

  module _ ⦃nom : Nom⦄ (narrow : (a : ℕ) → 0x80 ≤ a → f a ≡ false) where
    pub char_beyond :
        (c : ℕ) (r : Bytes)
        → Wide c
        → alt (take1_filter f) utf8_non_ascii (encode_utf8 c ++ r) ≡ ok r c
    char_beyond c r w =
        let (a, t, e, l) = encode_utf8-Leads c w.0 in
        let no_ascii : take1_filter f (encode_utf8 c ++ r) ≡ err error =
          rw (e, take1_filter-cons, narrow a l) refl in
        rw (nom.alt_law, no_ascii, utf8_non_ascii-encode_utf8 c r w.0 w.1 w.2) refl

    pub char_read :
        (c : ℕ) (r : Bytes)
        → CharOf c
        → alt (take1_filter f) utf8_non_ascii (encode_utf8 c ++ r) ≡ ok r c
    char_read c r (inl (h, y)) = rw (encode_utf8-ascii c h, nom.alt_law, take1_filter-cons, y) refl
    char_read c r (inr w) = char_beyond c r w

    pub char_stop : (r : Bytes) → CharStops r → alt (take1_filter f) utf8_non_ascii r ≡ err error
    char_stop [] h = rw (nom.alt_law, take1_filter-nil, utf8_non_ascii-nil) refl
    char_stop (a ∷ r) h =
        rw (nom.alt_law, take1_filter-cons, h.1, utf8_non_ascii-ascii a r h.0) refl

    pub encode_progress : (c : ℕ) (r : Bytes) → CharOf c → length r < length (encode_utf8 c ++ r)
    encode_progress c r (inl (h, y)) = rw (encode_utf8-ascii c h) (omega arith)
    encode_progress c r (inr w) =
        let (a, t, e, l) = encode_utf8-Leads c w.0 in rw e (omega (arith, length-append t r))

    Many-collect :
        (cs : List ℕ) (r : Bytes)
        → AllOf CharOf cs
        → CharStops r
        → Many (alt (take1_filter f) utf8_non_ascii) (collect cs ++ r) cs r
    Many-collect [] r h st = stop (char_stop r st)
    Many-collect (c ∷ cs) r h st = rw append_assoc (
        more (char_read c (collect cs ++ r) h.0) (encode_progress c (collect cs ++ r) h.0)
          (Many-collect cs r h.1 st))

    -- A run of characters of the class is recognized as a whole.
    pub recognize_many1-collect :
        (c : ℕ) (cs : List ℕ) (r : Bytes)
        → AllOf CharOf (c ∷ cs)
        → CharStops r
        → recognize_many1 (alt (take1_filter f) utf8_non_ascii) (collect (c ∷ cs) ++ r)
          ≡ ok r (collect (c ∷ cs))
    unfolding recognize_many1
    recognize_many1-collect c cs r h st =
        let first_read : alt (take1_filter f) utf8_non_ascii (collect (c ∷ cs) ++ r)
            ≡ ok (collect cs ++ r) c =
          rw append_assoc (char_read c (collect cs ++ r) h.0) in
        rw
          (
            nom.recognize_law,
            nom.fold_many1_law,
            nom.many1_law,
            first_read,
            many0_ok _ _ (Many-collect cs r h.1 st),
          )
          (ap (ok r) (consumed-append (collect (c ∷ cs)) r))

    pub recognize_many1-stop :
        (r : Bytes)
        → CharStops r
        → recognize_many1 (alt (take1_filter f) utf8_non_ascii) r ≡ err error
    unfolding recognize_many1
    recognize_many1-stop r h =
        rw (nom.recognize_law, nom.fold_many1_law, nom.many1_law, char_stop r h) refl
