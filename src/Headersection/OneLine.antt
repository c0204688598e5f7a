-- ===== src/Headersection/OneLine.antt =====
-- src/headersection.rs: values on one line.
use rustyknife.Headersection.{wsp, crlf, until_crlf}
use rustyknife.Nom.Rules.{many0_ok, consumed-append}
use rustyknife.Nom.{Nom, ok, err, error, Many, stop, more, skip_while, before}
use rustyknife.Prelude.{
  ℕ, ◌≡◌, ◌≤◌, inl, inr, refl, ap, Bool, true, false, ◌||◌, ◌==◌, [], ◌∷◌, ◌++◌, Bytes, codes,
  Every, Bool-cases, arith, length, drop-append, some, if◌then◌else◌,
}
use rustyknife.Util.{recognize_many0, recognize_many1}

abbrev pub is_blank : ℕ → Bool
is_blank c = c == b' ' || c == b'\t'

-- A byte that is no carriage return.
abbrev pub is_inner : ℕ → Bool
is_inner c = if c == b'\r' then false else true

before-line_end :
    (v s : Bytes) → Every is_inner v → before (codes "\r\n") (v ++ b'\r' ∷ b'\n' ∷ s) ≡ some v
before-line_end [] s h = refl
before-line_end (x ∷ v) s h = ground (arith, h, before-line_end v s h.1)

pub skip_while-inner :
    (f : ℕ → Bool) (v : Bytes) → Every is_inner v → Every is_inner (skip_while f v)
skip_while-inner f [] h = tt
skip_while-inner f (x ∷ v) h = elim (Bool-cases (f x)) [
  | inl y ↦ rw (y, if◌then◌else◌) (skip_while-inner f v h.1)
  | inr y ↦ rw (y, if◌then◌else◌) h
]

pub length-skip_while : (f : ℕ → Bool) (v : Bytes) → length (skip_while f v) ≤ length v
length-skip_while f [] = omega arith
length-skip_while f (x ∷ v) = elim (Bool-cases (f x)) [
  | inl y ↦ rw (y, if◌then◌else◌) (omega (arith, length-skip_while f v))
  | inr y ↦ rw (y, if◌then◌else◌) (omega arith)
]

pub skip_while-line_end :
    (f : ℕ → Bool) (v s : Bytes)
    → f b'\r' ≡ false
    → skip_while f (v ++ b'\r' ∷ s) ≡ skip_while f v ++ b'\r' ∷ s
skip_while-line_end f [] s h = rw (h, if◌then◌else◌) refl
skip_while-line_end f (x ∷ v) s h = elim (Bool-cases (f x)) [
  | inl y ↦ rw (y, if◌then◌else◌) (skip_while-line_end f v s h)
  | inr y ↦ rw (y, if◌then◌else◌) refl
]

module _ ⦃nom : Nom⦄ where
  pub wsp-cons : (x : ℕ) (s : Bytes) → wsp (x ∷ s) ≡ (if is_blank x then ok s x else err error)
  unfolding wsp
  wsp-cons x s = simp (nom.map_law, nom.alt_law, nom.streaming_tag_law) (ground arith)

  pub crlf-line_end : (s : Bytes) → crlf (b'\r' ∷ b'\n' ∷ s) ≡ ok s (codes "\r\n")
  unfolding crlf
  crlf-line_end s = rw nom.streaming_tag_law refl

  pub crlf-other : (x : ℕ) (s : Bytes) → is_inner x ≡ true → crlf (x ∷ s) ≡ err error
  unfolding crlf
  crlf-other x s h = rw nom.streaming_tag_law (ground (arith, h))

  Many-blanks :
      (w : Bytes) (y : ℕ) (s : Bytes)
      → Every is_blank w
      → is_blank y ≡ false
      → Many wsp (w ++ y ∷ s) w (y ∷ s)
  Many-blanks [] y s h n = stop (rw (wsp-cons, n) refl)
  Many-blanks (b ∷ w) y s h n =
      more (rw (wsp-cons, h.0) refl) (omega arith) (Many-blanks w y s h.1 n)

  pub blanks0 :
      (w : Bytes) (y : ℕ) (s : Bytes)
      → Every is_blank w
      → is_blank y ≡ false
      → recognize_many0 wsp (w ++ y ∷ s) ≡ ok (y ∷ s) w
  unfolding recognize_many0
  blanks0 w y s h n =
      rw (nom.recognize_law, nom.fold_many0_law, many0_ok _ _ (Many-blanks w y s h n))
        (ap (ok (y ∷ s)) (consumed-append w (y ∷ s)))

  pub blanks1 :
      (b : ℕ) (w : Bytes) (y : ℕ) (s : Bytes)
      → Every is_blank (b ∷ w)
      → is_blank y ≡ false
      → recognize_many1 wsp (b ∷ (w ++ y ∷ s)) ≡ ok (y ∷ s) (b ∷ w)
  unfolding recognize_many1
  blanks1 b w y s h n =
      rw
        (
          nom.recognize_law,
          nom.fold_many1_law,
          nom.many1_law,
          wsp-cons,
          h.0,
          many0_ok _ _ (Many-blanks w y s h.1 n),
        )
        (ap (ok (y ∷ s)) (consumed-append (b ∷ w) (y ∷ s)))

  pub no_blanks1 :
      (y : ℕ) (s : Bytes) → is_blank y ≡ false → recognize_many1 wsp (y ∷ s) ≡ err error
  unfolding recognize_many1
  no_blanks1 y s n = rw (nom.recognize_law, nom.fold_many1_law, nom.many1_law, wsp-cons, n) refl

  pub until_crlf-inner :
      (x : ℕ) (v s : Bytes)
      → Every is_inner (x ∷ v)
      → until_crlf (x ∷ (v ++ b'\r' ∷ b'\n' ∷ s)) ≡ ok (b'\r' ∷ b'\n' ∷ s) (x ∷ v)
  unfolding until_crlf
  until_crlf-inner x v s h =
      rw (nom.map_opt_law, nom.streaming_take_until_law, before-line_end (x ∷ v) s h)
        (ap (λ i. ok i (x ∷ v)) (drop-append (x ∷ v) (b'\r' ∷ b'\n' ∷ s)))

  pub until_crlf-empty : (s : Bytes) → until_crlf (b'\r' ∷ b'\n' ∷ s) ≡ err error
  unfolding until_crlf
  until_crlf-empty s = rw (nom.map_opt_law, nom.streaming_take_until_law) refl
