-- ===== src/Rfc2231/Decode/Meaning.antt =====
-- src/rfc2231.rs: the value that `decode_parameter_list` gives to each name.
use rustyknife.External.{External, Codec}
use rustyknife.Prelude.{
  ℕ, ◌≡◌, refl, ap, sym, subst, ◌∙◌, Bool, true, false, List, [], ◌∷◌, ◌++◌, Option, none, some,
  Bytes, equal, lowercase, append_assoc, append-nil, if◌then◌else◌, inl, inr,
}
use rustyknife.Rfc2231.Decode.Lookup.{equal-cases, later, later_assoc, get-insert}
use rustyknife.Rfc2231.Decode.{
  Segment, encoded, decoded, Maps, insert, get, get_or, push_segment, label_codec, initial_codec,
  note_codec, add, add_all, decode_segments,
}
use rustyknife.Rfc2231.Syntax.{Parameter, Value, regular, extended, initial, other}

module _ ⦃ext : External⦄ where
  -- What one parameter says: a plain value, a value in some charset, the codec of a sequence.
  abbrev pub plain_of : Option ℕ → Value → Option Bytes
  plain_of none (regular v) = some v
  plain_of _ _ = none

  abbrev pub coded_of : Option ℕ → Value → Option Bytes
  coded_of none (extended (initial encoding language value)) =
      some (ext.decode (initial_codec encoding) value)
  coded_of _ _ = none

  abbrev pub codec_of : Option ℕ → Value → Option Codec
  codec_of (some section) (extended (initial (some label) language value)) = label_codec label
  codec_of _ _ = none

  abbrev pub segments_of : Option ℕ → Value → List (ℕ × Segment)
  segments_of none v = []
  segments_of (some section) (regular v) = (section, decoded v) ∷ []
  segments_of (some section) (extended (initial encoding language value)) =
      (section, encoded value) ∷ []
  segments_of (some section) (extended (other v)) = (section, encoded v) ∷ []

  abbrev pub named : Bytes → Parameter → Bool
  named k p = equal (lowercase p.name.name) k

  -- What the last of the parameters with this name says that says something.
  abbrev pub last : {V : Type 0} → (Option ℕ → Value → Option V) → Bytes → List Parameter → Option V
  last f k [] = none
  last f k (p ∷ ps) = later (last f k ps) (if named k p then f p.name.section p.value else none)

  -- The segments of the parameters with this name, in their order.
  abbrev pub segments : Bytes → List Parameter → List (ℕ × Segment)
  segments k [] = []
  segments k (p ∷ ps) =
      (if named k p then segments_of p.name.section p.value else []) ++ segments k ps

  abbrev pub joined : Codec → List (ℕ × Segment) → Option Bytes
  joined codec [] = none
  joined codec (s ∷ ss) = some (decode_segments (s ∷ ss) codec)

  -- The value of a name: its segments, put together with its last known codec; if it has none, the
  -- last value in a charset; if it has none of these either, the last plain one.
  abbrev pub meaning : Bytes → List Parameter → Option Bytes
  meaning k ps =
      later (joined (get_or ext.ascii (last codec_of k ps)) (segments k ps))
        (later (last coded_of k ps) (last plain_of k ps))

  -- A list with more behind it, as the map of sequences holds it.
  abbrev pub extend : Option (List (ℕ × Segment)) → List (ℕ × Segment) → Option (List (ℕ × Segment))
  extend o [] = o
  extend o (s ∷ ss) = some (get_or [] o ++ s ∷ ss)

  -- How the maps change by what is said under a name.
  pub record Adds (k : Bytes) (m m' : Maps) (plain coded : Option Bytes) (codec : Option Codec)
      (segs : List (ℕ × Segment)) : Type 0 where
    pub on_simple : get k m'.simple ≡ later plain (get k m.simple)
    pub on_coded : get k m'.simple_encoded ≡ later coded (get k m.simple_encoded)
    pub on_codec : get k m'.composite_encoding ≡ later codec (get k m.composite_encoding)
    pub on_segments : get k m'.composite ≡ extend (get k m.composite) segs

  get-push_segment :
      (k name : Bytes) (s : ℕ × Segment) (m : List (Bytes × List (ℕ × Segment)))
      → get k (push_segment name s m) ≡ extend (get k m) (if equal name k then s ∷ [] else [])
  unfolding push_segment
  get-push_segment k name s m = rw get-insert (elim (equal-cases name k) [
    | inl (y, e) ↦ rw (y, if◌then◌else◌) (ap (λ x. some (get_or [] (get x m) ++ s ∷ [])) e)
    | inr n ↦ rw (n, if◌then◌else◌) refl
  ])

  if_none : {V : Type 0} (b : Bool) (o : Option V) → later (if b then none else none) o ≡ o
  if_none true o = refl
  if_none false o = refl

  if_some :
      {V : Type 0} (b : Bool) (v : V) (o : Option V)
      → (if b then some v else o) ≡ later (if b then some v else none) o
  if_some true v o = refl
  if_some false v o = refl

  extend_none : (b : Bool) (o : Option (List (ℕ × Segment))) → extend o (if b then [] else []) ≡ o
  extend_none true o = refl
  extend_none false o = refl

  -- A codec that a label may name.
  abbrev labelled : Option Bytes → Option Codec
  labelled none = none
  labelled (some label) = label_codec label

  get-note_codec :
      (k name : Bytes) (o : Option Bytes) (m : List (Bytes × Codec))
      → get k (note_codec name o m) ≡ later (if equal name k then labelled o else none) (get k m)
  unfolding note_codec
  get-note_codec k name none m = sym (if_none (equal name k) (get k m))
  get-note_codec k name (some l) m = go (label_codec l)
    where
      go :
          (c : Option Codec)
          → get k (elim c [ none ↦ m | some codec ↦ insert name codec m ])
            ≡ later (if equal name k then c else none) (get k m)
      go none = sym (if_none (equal name k) (get k m))
      go (some codec) = get-insert k name codec m ∙ if_some (equal name k) codec (get k m)

  coded_if :
      (k name : Bytes) (v : Bytes) (m : List (Bytes × Bytes))
      → get k (insert name v m) ≡ later (if equal name k then some v else none) (get k m)
  coded_if k name v m = get-insert k name v m ∙ if_some (equal name k) v (get k m)

  abbrev AddsParameter : Bytes → Bytes → Option ℕ → Value → Maps → Maps → Type 0
  AddsParameter k name section v m m' =
      Adds k m m' (if equal name k then plain_of section v else none)
        (if equal name k then coded_of section v else none)
        (if equal name k then codec_of section v else none)
        (if equal name k then segments_of section v else [])

  pub at_result : (T : Maps → Type 0) {m m' : Maps} → some m ≡ some m' → T m → T m'
  at_result T {m} {m'} e x = let same : m ≡ m' = cc e in subst T same x

  unchanged :
      {V : Type 0} (k name : Bytes) (o : Option V)
      → o ≡ later (if equal name k then none else none) o
  unchanged k name o = sym (if_none (equal name k) o)

  same_segments :
      (k name : Bytes) (o : Option (List (ℕ × Segment)))
      → o ≡ extend o (if equal name k then [] else [])
  same_segments k name o = sym (extend_none (equal name k) o)

  add-AddsParameter :
      (k name : Bytes) (section : Option ℕ) (v : Value) (m m' : Maps)
      → add m name section v ≡ some m'
      → AddsParameter k name section v m m'
  unfolding add
  add-AddsParameter k name none (regular v) m m' h =
      at_result (AddsParameter k name none (regular v) m) h (record {
        on_simple = coded_if k name v m.simple;
        on_coded = unchanged k name _;
        on_codec = unchanged k name _;
        on_segments = same_segments k name _;
      })
  add-AddsParameter k name none (extended (initial o l v)) m m' h =
      at_result (AddsParameter k name none (extended (initial o l v)) m) h (record {
        on_simple = unchanged k name _;
        on_coded = coded_if k name _ m.simple_encoded;
        on_codec = unchanged k name _;
        on_segments = same_segments k name _;
      })
  add-AddsParameter k name none (extended (other v)) m m' h = absurd (cc h)
  add-AddsParameter k name (some n) (regular v) m m' h =
      at_result (AddsParameter k name (some n) (regular v) m) h (record {
        on_simple = unchanged k name _;
        on_coded = unchanged k name _;
        on_codec = unchanged k name _;
        on_segments = get-push_segment k name (n, decoded v) m.composite;
      })
  add-AddsParameter k name (some n) (extended (initial none l v)) m m' h =
      at_result (AddsParameter k name (some n) (extended (initial none l v)) m) h (record {
        on_simple = unchanged k name _;
        on_coded = unchanged k name _;
        on_codec = get-note_codec k name none m.composite_encoding;
        on_segments = get-push_segment k name (n, encoded v) m.composite;
      })
  add-AddsParameter k name (some n) (extended (initial (some o) l v)) m m' h =
      at_result (AddsParameter k name (some n) (extended (initial (some o) l v)) m) h (record {
        on_simple = unchanged k name _;
        on_coded = unchanged k name _;
        on_codec = get-note_codec k name (some o) m.composite_encoding;
        on_segments = get-push_segment k name (n, encoded v) m.composite;
      })
  add-AddsParameter k name (some n) (extended (other v)) m m' h =
      at_result (AddsParameter k name (some n) (extended (other v)) m) h (record {
        on_simple = unchanged k name _;
        on_coded = unchanged k name _;
        on_codec = unchanged k name _;
        on_segments = get-push_segment k name (n, encoded v) m.composite;
      })

  extend_append :
      (o : Option (List (ℕ × Segment))) (a b : List (ℕ × Segment))
      → extend (extend o a) b ≡ extend o (a ++ b)
  extend_append o [] b = refl
  extend_append o (s ∷ a) [] = ap (λ x. some (get_or [] o ++ s ∷ x)) (sym (append-nil a))
  extend_append o (s ∷ a) (t ∷ b) = ap some (append_assoc (get_or [] o) (s ∷ a) (t ∷ b))

  -- One parameter and then the others.
  Adds-then :
      {k : Bytes} {m m' out : Maps} {p p' c c' : Option Bytes} {d d' : Option Codec}
      {ss ss' : List (ℕ × Segment)}
      → Adds k m m' p c d ss
      → Adds k m' out p' c' d' ss'
      → Adds k m out (later p' p) (later c' c) (later d' d) (ss ++ ss')
  Adds-then {p} {p'} {c} {c'} {d} {d'} {ss} {ss'} x y = record {
    on_simple = y.on_simple ∙ ap (later p') x.on_simple ∙ sym (later_assoc p' p _);
    on_coded = y.on_coded ∙ ap (later c') x.on_coded ∙ sym (later_assoc c' c _);
    on_codec = y.on_codec ∙ ap (later d') x.on_codec ∙ sym (later_assoc d' d _);
    on_segments = y.on_segments ∙ ap (λ o. extend o ss') x.on_segments ∙ extend_append _ ss ss';
  }

  -- One step of the loop and the rest of it.
  pub add_all-cons :
      (m out : Maps) (p : Parameter) (ps : List Parameter)
      → add_all m (p ∷ ps) ≡ some out
      → (m' : Maps) × (add m (lowercase p.name.name) p.name.section p.value ≡ some m')
        × (add_all m' ps ≡ some out)
  unfolding add_all
  add_all-cons m out p ps h = go (add m (lowercase p.name.name) p.name.section p.value) h
    where
      go :
          (x : Option Maps)
          → elim x [ none ↦ none | some m' ↦ add_all m' ps ] ≡ some out
          → (m' : Maps) × (x ≡ some m') × (add_all m' ps ≡ some out)
      go none e = absurd (cc e)
      go (some m') e = (m', refl, e)

  pub add_all-Adds :
      (k : Bytes) (ps : List Parameter) (m out : Maps)
      → add_all m ps ≡ some out
      → Adds k m out (last plain_of k ps) (last coded_of k ps) (last codec_of k ps) (segments k ps)
  unfolding add_all
  add_all-Adds k [] m out h =
      at_result (λ x. Adds k m x none none none []) h
        (record { on_simple = refl; on_coded = refl; on_codec = refl; on_segments = refl })
  add_all-Adds k (p ∷ ps) m out h =
      let (m', first, rest) = add_all-cons m out p ps h in
      Adds-then (add-AddsParameter k (lowercase p.name.name) p.name.section p.value m m' first)
        (add_all-Adds k ps m' out rest)
