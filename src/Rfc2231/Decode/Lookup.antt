-- ===== src/Rfc2231/Decode/Lookup.antt =====
-- src/rfc2231.rs: the maps keyed by names.
use rustyknife.Prelude.{
  ◌≡◌, refl, ap, sym, ◌∙◌, Bool, true, false, List, [], ◌∷◌, ◌++◌, Option, none, some, Bytes, equal,
  equal→eq, equal_refl, if◌then◌else◌, Bool-cases, inl, inr, ◌⊎◌,
}
use rustyknife.Rfc2231.Decode.{insert, get, insert_all}

-- Two keys that are equal, or two that differ.
pub equal-cases : (a b : Bytes) → ((equal a b ≡ true) × (a ≡ b)) ⊎ (equal a b ≡ false)
equal-cases a b = elim (Bool-cases (equal a b)) [ inl y ↦ inl (y, equal→eq a b y) | inr n ↦ inr n ]

equal-sym : (a b : Bytes) → equal a b ≡ false → equal b a ≡ false
equal-sym a b h = elim (equal-cases b a) [ inl e ↦ absurd (cc (h, equal_refl a, e.1)) | inr n ↦ n ]

module _ {V : Type 0} where
  -- The first choice, or else the second.
  abbrev pub later : Option V → Option V → Option V
  later none o = o
  later (some v) o = some v

  pub later_assoc : (a b c : Option V) → later (later a b) c ≡ later a (later b c)
  later_assoc none b c = refl
  later_assoc (some v) b c = refl

  pub later-none : (o : Option V) → later o none ≡ o
  later-none none = refl
  later-none (some v) = refl

  later_if :
      (b : Bool) (w : V) (o : Option V)
      → later (if b then some w else none) o ≡ (if b then some w else o)
  later_if true w o = refl
  later_if false w o = refl

  pub get-insert :
      (k j : Bytes) (v : V) (m : List (Bytes × V))
      → get k (insert j v m) ≡ (if equal j k then some v else get k m)
  unfolding get insert
  get-insert k j v [] = refl
  get-insert k j v ((i, w) ∷ m) = elim (equal-cases i j) [
    | inl (y, e) ↦
        rw (y, if◌then◌else◌)
          (rw e (elim (Bool-cases (equal j k)) [ inl t ↦ rw t refl | inr f ↦ rw f refl ]))
    | inr n ↦
        rw (n, if◌then◌else◌)
          (elim (equal-cases i k) [
            | inl (y, e) ↦ rw (y, (rw e at (equal-sym i j n))) refl
            | inr f ↦ rw f (get-insert k j v m)
          ])
  ]

  -- No key twice.
  abbrev pub Unique : List (Bytes × V) → Type 0
  Unique [] = Unit {0}
  Unique ((k, v) ∷ m) = (get k m ≡ none) × Unique m

  pub insert-Unique : (j : Bytes) (v : V) (m : List (Bytes × V)) → Unique m → Unique (insert j v m)
  unfolding insert get
  insert-Unique j v [] h = (refl, tt)
  insert-Unique j v ((i, w) ∷ m) h = elim (equal-cases i j) [
    | inl (y, e) ↦ rw (y, if◌then◌else◌) h
    | inr n ↦
        rw (n, if◌then◌else◌)
          (get-insert i j v m ∙ rw (equal-sym i j n) h.0, insert-Unique j v m h.1)
  ]

  -- The value that the last pair with the key has.
  abbrev pub get_last : Bytes → List (Bytes × V) → Option V
  get_last k [] = none
  get_last k ((j, w) ∷ m) = later (get_last k m) (if equal j k then some w else none)

  pub get_last-append :
      (k : Bytes) (xs ys : List (Bytes × V))
      → get_last k (xs ++ ys) ≡ later (get_last k ys) (get_last k xs)
  get_last-append k [] ys = sym (later-none (get_last k ys))
  get_last-append k ((j, w) ∷ xs) ys =
      ap (λ o. later o (if equal j k then some w else none)) (get_last-append k xs ys)
      ∙ later_assoc (get_last k ys) (get_last k xs) _

  pub get_last-get : (k : Bytes) (m : List (Bytes × V)) → Unique m → get_last k m ≡ get k m
  unfolding get
  get_last-get k [] h = refl
  get_last-get k ((j, w) ∷ m) h = elim (equal-cases j k) [
    | inl (y, e) ↦ rw (y, get_last-get k m h.1, (rw e at h.0)) refl
    | inr n ↦ rw (n, get_last-get k m h.1) (later-none (get k m))
  ]

  pub get-insert_all :
      (k : Bytes) (xs m : List (Bytes × V))
      → get k (insert_all xs m) ≡ later (get_last k xs) (get k m)
  unfolding insert_all
  get-insert_all k [] m = refl
  get-insert_all k ((j, w) ∷ xs) m =
      get-insert_all k xs (insert j w m)
      ∙ ap (later (get_last k xs)) (get-insert k j w m)
      ∙ ap (later (get_last k xs)) (sym (later_if (equal j k) w (get k m)))
      ∙ sym (later_assoc (get_last k xs) (if equal j k then some w else none) (get k m))
