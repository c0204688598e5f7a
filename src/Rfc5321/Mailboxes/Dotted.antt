-- ===== src/Rfc5321/Mailboxes/Dotted.antt =====
-- src/rfc5321.rs: texts with dots between their parts, and the labels of a domain.
use rustyknife.Nom.Rules.{many0_ok}
use rustyknife.Nom.Rules.{AllOf, consumed-append}
use rustyknife.Nom.{Nom, Parser, ok, Many, stop, more, pair, many0, tag, recognize}
use rustyknife.Prelude.{
  ◌≡◌, ◌≢◌, refl, ap, List, [], ◌∷◌, ◌++◌, Bytes, codes, append_assoc, arith, length-append,
}

-- The parts behind the first one, each behind a dot.
abbrev pub dotted_rest : List Bytes → Bytes
dotted_rest [] = []
dotted_rest (x ∷ xs) = b'.' ∷ (x ++ dotted_rest xs)

abbrev pub dotted : Bytes → List Bytes → Bytes
dotted x xs = x ++ dotted_rest xs

abbrev pub NoDot : Bytes → Type 0
NoDot [] = Unit {0}
NoDot (c ∷ cs) = c ≢ b'.'

module _ ⦃nom : Nom⦄ (p : Parser Bytes) (IsPart Stop : Bytes → Type 0)
    (dot : (s : Bytes) → Stop (b'.' ∷ s))
    (run : (x r : Bytes) → IsPart x → Stop r → p (x ++ r) ≡ ok r x) where
  abbrev values : List Bytes → List (Bytes × Bytes)
  values [] = []
  values (x ∷ xs) = (codes ".", x) ∷ values xs

  stop_rest : (xs : List Bytes) (r : Bytes) → Stop r → Stop (dotted_rest xs ++ r)
  stop_rest [] r h = h
  stop_rest (x ∷ xs) r h = dot _

  Many-dotted_rest :
      (xs : List Bytes) (r : Bytes)
      → AllOf IsPart xs
      → Stop r
      → NoDot r
      → Many (pair (tag (codes ".")) p) (dotted_rest xs ++ r) (values xs) r
  Many-dotted_rest [] [] h st no_dot = stop (rw (nom.pair_law, nom.tag_law) refl)
  Many-dotted_rest [] (c ∷ r) h st no_dot =
      stop (rw (nom.pair_law, nom.tag_law) (ground (arith, no_dot)))
  Many-dotted_rest (x ∷ xs) r h st no_dot = rw append_assoc (
      more
        (rw (nom.pair_law, nom.tag_law, run x (dotted_rest xs ++ r) h.0 (stop_rest xs r st)) refl)
        (omega (arith, length-append x (dotted_rest xs ++ r)))
        (Many-dotted_rest xs r h.1 st no_dot))

  pub dotted-run :
      (x : Bytes) (xs : List Bytes) (r : Bytes)
      → IsPart x
      → AllOf IsPart xs
      → Stop r
      → NoDot r
      → recognize (pair p (many0 (pair (tag (codes ".")) p))) (dotted x xs ++ r)
        ≡ ok r (dotted x xs)
  dotted-run x xs r hx h st no_dot =
      let parts : pair p (many0 (pair (tag (codes ".")) p)) (dotted x xs ++ r)
          ≡ ok r (x, values xs) =
        rw
          (
            append_assoc,
            nom.pair_law,
            run x (dotted_rest xs ++ r) hx (stop_rest xs r st),
            many0_ok _ _ (Many-dotted_rest xs r h st no_dot),
          )
          refl in
      rw (nom.recognize_law, parts) (ap (ok r) (consumed-append (dotted x xs) r))
