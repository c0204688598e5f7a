-- ===== src/Rfc5234/Blanks.antt =====
-- src/rfc5234.rs: runs of blanks.
use rustyknife.Nom.Rules.{
  Sound, OneOf, Star, Literal, Sound-map, Sound-alt, Sound-tag, Sound-weaken, many0_ok, none_left,
  one_more,
}
use rustyknife.Nom.{Nom, ok, err, error, many1, Many, stop, more}
use rustyknife.Prelude.{
  ℕ, ◌≡◌, ◌≢◌, ◌⊎◌, inl, inr, refl, ◌∙◌, Bool, false, ◌||◌, ◌==◌, List, [], ◌∷◌, ◌++◌, Bytes, codes,
  Every, arith, if◌then◌else◌,
}
use rustyknife.Rfc5234.{wsp}
use rustyknife.Util.{first}

abbrev pub is_blank : ℕ → Bool
is_blank c = c == b' ' || c == b'\t'

-- Something comes that is no blank, or nothing.
abbrev pub NoBlank : Bytes → Type 0
NoBlank [] = Unit {0}
NoBlank (c ∷ s) = is_blank c ≡ false

module _ ⦃nom : Nom⦄ where
  pub wsp-cons : (x : ℕ) (s : Bytes) → wsp (x ∷ s) ≡ (if is_blank x then ok s x else err error)
  unfolding wsp
  wsp-cons x s = simp (nom.map_law, nom.alt_law, nom.tag_law) (ground arith)

  pub wsp-NoBlank : (s : Bytes) → NoBlank s → wsp s ≡ err error
  unfolding wsp
  wsp-NoBlank [] n = simp (nom.map_law, nom.alt_law, nom.tag_law)
  wsp-NoBlank (c ∷ s) n = wsp-cons c s ∙ rw n refl

  pub Many-blanks : (w s : Bytes) → Every is_blank w → NoBlank s → Many wsp (w ++ s) w s
  Many-blanks [] s h n = stop (wsp-NoBlank s n)
  Many-blanks (b ∷ w) s h n = more (rw (wsp-cons, h.0) refl) (omega arith) (Many-blanks w s h.1 n)

  pub many1_wsp-blanks :
      (w s : Bytes) → Every is_blank w → w ≢ [] → NoBlank s → many1 wsp (w ++ s) ≡ ok s w
  many1_wsp-blanks [] s h ne n = absurd (ne refl)
  many1_wsp-blanks (b ∷ w) s h ne n =
      rw (nom.many1_law, wsp-cons, h.0, many0_ok wsp (w ++ s) (Many-blanks w s h.1 n)) refl

  pub many1_wsp-NoBlank : (s : Bytes) → NoBlank s → many1 wsp s ≡ err error
  many1_wsp-NoBlank s n = rw (nom.many1_law, wsp-NoBlank s n) refl

  pub Sound-wsp : Sound wsp (OneOf is_blank)
  unfolding wsp
  Sound-wsp =
      Sound-weaken _
        (Sound-map _ (Sound-alt _ _ (Sound-tag (codes " ")) (Sound-tag (codes "\t"))) first)
        (λ c n g. one c n g)
    where
      one :
          (c : Bytes) (n : ℕ)
          → (a : Bytes) × (Literal (codes " ") c a ⊎ Literal (codes "\t") c a) × (n ≡ first a)
          → OneOf is_blank c n
      one c n (a, inl (e, e'), f) = rw (f, e, e') (refl, refl)
      one c n (a, inr (e, e'), f) = rw (f, e, e') (refl, refl)

pub Star-blanks :
    {c : Bytes} {ns : List ℕ} → Star (OneOf is_blank) c ns → (c ≡ ns) × Every is_blank ns
Star-blanks none_left = (refl, tt)
Star-blanks (one_more (e, y) s) = let (e', h) = Star-blanks s in (rw (e, e') refl, (y, h))
