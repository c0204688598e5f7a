-- ===== src/Nom/Rules/Classes.antt =====
-- Parsers that read bytes of a class.
use rustyknife.Nom.Interface.{Nom, tag, is_digit}
use rustyknife.Nom.Result.{
  ok, err, error, incomplete, strip, take_while, skip_while, non_empty, stream_strip, before,
}
use rustyknife.Nom.Rules.Inversion.{
  and_then-ok, stream_strip-ok, strip-append, take_while-append-skip_while, take_while-Every,
}
use rustyknife.Nom.Rules.Grammars.{Sound, Grammar, Literal, Reads, Reads-ok}
use rustyknife.Prelude.{
  ℕ, within, ◌≡◌, ◌==◌, ◌⊎◌, Option-cases, refl, ap, sym, ◌∙◌, ◌≢◌, Bool, true, [], ◌∷◌, ◌++◌,
  Option, none, some, Bytes, length, drop, Every, arith, if◌then◌else◌, Bool-cases, inl, inr,
}
use rustyknife.Util.{take1_filter}

-- One byte of a class.
abbrev pub OneOf : (ℕ → Bool) → Grammar ℕ
OneOf f c a = (c ≡ a ∷ []) × (f a ≡ true)

-- One round of `before`: the tag stands here, or further on.
before-cons :
    (t : Bytes) (c : ℕ) (cs b : Bytes)
    → before t (c ∷ cs) ≡ some b
    → (b ≡ [])
      ⊎ ((d : Bytes) × (before t cs ≡ some d) × (b ≡ c ∷ d) × (strip ◌==◌ t (c ∷ cs) ≡ none))
before-cons t c cs b h = elim (Option-cases (strip ◌==◌ t (c ∷ cs))) [
  | inr (_, e) ↦ inl (cc (rw (e, before) at h))
  | inl e ↦ elim (Option-cases (before t cs)) [
    | inl e' ↦ absurd (cc (rw (e, e', before) at h))
    | inr (d, e') ↦ inr (d, e', cc (rw (e, e', before) at h), e)
  ]
]

pub before-splits : (t i b : Bytes) → before t i ≡ some b → i ≡ b ++ drop (length b) i
before-splits t [] b h = absurd (cc h)
before-splits t (c ∷ cs) b h = elim (before-cons t c cs b h) [
  | inl e ↦ rw e
  | inr (d, e, split, _) ↦ rw split (ap (◌∷◌ c) (before-splits t cs d e))
]

pub strip-weaken : (t b r : Bytes) → strip ◌==◌ t (b ++ r) ≡ none → strip ◌==◌ t b ≡ none
strip-weaken [] b r h = absurd (cc h)
strip-weaken (t ∷ ts) [] r h = refl
strip-weaken (t ∷ ts) (c ∷ cs) r h = ground (arith, strip-weaken ts cs r)

-- The tag does not occur in what stands in front of its first occurrence.
pub before-none : (t i b : Bytes) → before t i ≡ some b → before t b ≡ none
before-none t [] b h = absurd (cc h)
before-none t (c ∷ cs) b h = elim (before-cons t c cs b h) [
  | inl e ↦ rw e
  | inr (d, e, split, away) ↦
      let later = before-none t cs d e in
      let here : strip ◌==◌ t (c ∷ d) ≡ none =
        strip-weaken t (c ∷ d) (drop (length d) cs)
          (ap (λ x. strip ◌==◌ t (c ∷ x)) (sym (before-splits t cs d e)) ∙ away) in
      rw split (rw (here, later, before))
]

module _ ⦃nom : Nom⦄ where
  pub Every-is_digit : (ds : Bytes) → Every (within b'0' b'9') ds → Every is_digit ds
  Every-is_digit [] h = h
  Every-is_digit (d ∷ ds) h = (nom.is_digit_law d ∙ h.0, Every-is_digit ds h.1)

  pub tag-append : (t r : Bytes) → tag t (t ++ r) ≡ ok r t
  tag-append t r = rw (nom.tag_law, strip-append)

  pub Sound-streaming_tag : (t : Bytes) → Sound (nom.streaming_tag t) (Literal t)
  Sound-streaming_tag t i r a e =
      let (s, u, h, h') =
        and_then-ok (stream_strip t i) (λ r _. ok r t) (rw nom.streaming_tag_law at e) in
      Reads-ok (record { text = t; splits = stream_strip-ok t i s h; spells = (refl, refl) }) h'

  -- The filter of `take1_filter` on an input with a first byte, and on the empty one.
  pub take1_filter-cons :
      (f : ℕ → Bool) (c : ℕ) (cs : Bytes)
      → take1_filter f (c ∷ cs) ≡ (if f c then ok cs c else err error)
  unfolding take1_filter
  take1_filter-cons f c cs = rw (nom.verify_law, nom.map_law, nom.take_bytes_law) (ground arith)

  pub take1_filter-nil : (f : ℕ → Bool) → take1_filter f [] ≡ err error
  unfolding take1_filter
  take1_filter-nil f = rw (nom.verify_law, nom.map_law, nom.take_bytes_law)

  pub Sound-take1_filter : (f : ℕ → Bool) → Sound (take1_filter f) (OneOf f)
  Sound-take1_filter f [] r a e = absurd (cc (take1_filter-nil f, e))
  Sound-take1_filter f (c ∷ cs) r a e = elim (Bool-cases (f c)) [
    | inl y ↦
        Reads-ok {a = c} (record { text = c ∷ []; splits = refl; spells = (refl, y) })
          (rw (take1_filter-cons, y) at e)
    | inr n ↦ absurd (cc (rw (take1_filter-cons, n) at e))
  ]

  pub Sound-streaming_take_until :
      (t : Bytes) → Sound (nom.streaming_take_until t) (λ c a. (a ≡ c) × (before t c ≡ none))
  Sound-streaming_take_until t i r a e = go (before t i) refl (rw nom.streaming_take_until_law at e)
    where
      go :
          (x : Option Bytes)
          → before t i ≡ x
          → elim x [ none ↦ err incomplete | some b ↦ ok (drop (length b) i) b ] ≡ ok r a
          → Reads (λ c a. (a ≡ c) × (before t c ≡ none)) i r a
      go none w h = absurd (cc h)
      go (some b) w h =
          Reads-ok
            (record {
              text = b;
              splits = before-splits t i b w;
              spells = (refl, before-none t i b w);
            })
            h

  pub Sound-streaming_take_while1 :
      (f : ℕ → Bool) → Sound (nom.streaming_take_while1 f) (λ c a. (a ≡ c) × Every f c × (c ≢ []))
  Sound-streaming_take_while1 f i r a e =
      go (skip_while f i) (take_while f i) refl refl (rw nom.streaming_take_while1_law at e)
    where
      go :
          (x y : Bytes)
          → skip_while f i ≡ x
          → take_while f i ≡ y
          → elim x [ [] ↦ err incomplete | c ∷ cs ↦ non_empty (c ∷ cs) y ] ≡ ok r a
          → Reads (λ c a. (a ≡ c) × Every f c × (c ≢ [])) i r a
      go [] y u w h = absurd (cc h)
      go (d ∷ ds) [] u w h = absurd (cc h)
      go (d ∷ ds) (c ∷ cs) u w h =
          Reads-ok
            (record {
              text = c ∷ cs;
              splits = sym (take_while-append-skip_while f i) ∙ rw (w, u) refl;
              spells = (refl, rw w at (take_while-Every f i), λ no. absurd (cc no));
            })
            h
