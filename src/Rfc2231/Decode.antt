-- ===== src/Rfc2231/Decode.antt =====
-- src/rfc2231.rs: decoding and joining of parameters. A `HashMap` is a list of keys and values with
-- no key twice; the order in which the source's maps are walked is not specified, here it is the
-- order of insertion.
pub mod Lookup
pub mod Meaning
pub mod Merged
pub mod Total
pub mod Names
pub mod Order
pub mod Reorder
use rustyknife.External.{External, Codec}
use rustyknife.Prelude.{
  ℕ, List, [], ◌∷◌, ◌++◌, Option, none, some, Bytes, equal, lowercase, leb, if◌then◌else◌,
}
use rustyknife.Rfc2231.Syntax.{Parameter, Value, regular, extended, initial, other}
use rustyknife.Util.{ascii_to_string}

pub data Segment : Type 0 where
  encoded : Bytes → Segment
  decoded : Bytes → Segment

-- The maps keyed by names.
module _ {V : Type 0} where
  unfoldable pub insert : Bytes → V → List (Bytes × V) → List (Bytes × V)
  insert k v [] = (k, v) ∷ []
  insert k v ((j, w) ∷ m) = if equal j k then (j, v) ∷ m else (j, w) ∷ insert k v m

  unfoldable pub get : Bytes → List (Bytes × V) → Option V
  get k [] = none
  get k ((j, w) ∷ m) = if equal j k then some w else get k m

  abbrev pub get_or : V → Option V → V
  get_or d none = d
  get_or d (some v) = v

  -- The loop of inserts over the pairs of another map.
  unfoldable pub insert_all : List (Bytes × V) → List (Bytes × V) → List (Bytes × V)
  unfolding insert
  insert_all [] m = m
  insert_all ((k, v) ∷ rest) m = insert_all rest (insert k v m)

-- `sort_by` on the section number, which is stable.
module _ {V : Type 0} where
  unfoldable pub insert_sorted : ℕ × V → List (ℕ × V) → List (ℕ × V)
  insert_sorted (n, v) [] = (n, v) ∷ []
  insert_sorted (n, v) ((m, w) ∷ rest) =
      if leb n m then (n, v) ∷ (m, w) ∷ rest else (m, w) ∷ insert_sorted (n, v) rest

  unfoldable pub sort_by_section : List (ℕ × V) → List (ℕ × V)
  unfolding insert_sorted
  sort_by_section [] = []
  sort_by_section (x ∷ rest) = insert_sorted x (sort_by_section rest)

module _ ⦃ext : External⦄ where
  -- the loop of `decode_segments`, with `encoded` and `out`
  unfoldable pub join_segments : Codec → Bytes → Bytes → List (ℕ × Segment) → Bytes
  join_segments codec clump out [] = out ++ ext.decode codec clump
  join_segments codec clump out ((_, encoded bytes) ∷ rest) =
      join_segments codec (clump ++ bytes) out rest
  join_segments codec clump out ((_, decoded s) ∷ rest) =
      join_segments codec [] (out ++ (ext.decode codec clump ++ s)) rest

  unfoldable pub decode_segments : List (ℕ × Segment) → Codec → Bytes
  unfolding sort_by_section join_segments
  decode_segments input encoding = join_segments encoding [] [] (sort_by_section input)

  pub record Maps : Type 0 where
    pub simple : List (Bytes × Bytes)
    pub simple_encoded : List (Bytes × Bytes)
    pub composite : List (Bytes × List (ℕ × Segment))
    pub composite_encoding : List (Bytes × Codec)

  abbrev pub no_maps : Maps
  no_maps = record { simple = []; simple_encoded = []; composite = []; composite_encoding = [] }

  -- `composite.entry(name).or_default()`, and a push to it
  unfoldable pub push_segment :
      Bytes → ℕ × Segment → List (Bytes × List (ℕ × Segment)) → List (Bytes × List (ℕ × Segment))
  unfolding insert get
  push_segment name s m = insert name (get_or [] (get name m) ++ s ∷ []) m

  abbrev pub label_codec : Bytes → Option Codec
  label_codec name = ext.encoding_from_whatwg_label (ascii_to_string name)

  -- The codec of an extended parameter that is no part of a sequence.
  unfoldable pub initial_codec : Option Bytes → Codec
  initial_codec none = ext.ascii
  initial_codec (some name) = get_or ext.ascii (label_codec name)

  -- The codec that a section names, if the label is known.
  unfoldable pub note_codec : Bytes → Option Bytes → List (Bytes × Codec) → List (Bytes × Codec)
  unfolding insert
  note_codec name none m = m
  note_codec name (some label) m = elim (label_codec label) [
    | none ↦ m
    | some codec ↦ insert name codec m
  ]

  -- One parameter, under its name in lower case; none where the source is unreachable.
  unfoldable pub add : Maps → Bytes → Option ℕ → Value → Option Maps
  unfolding insert push_segment initial_codec note_codec
  add m name none (regular v) = some (record m { simple = insert name v m.simple })
  add m name none (extended (initial encoding language value)) = some (record m {
    simple_encoded = insert name (ext.decode (initial_codec encoding) value) m.simple_encoded;
  })
  add m name none (extended (other v)) = none
  add m name (some section) (regular v) =
      some (record m { composite = push_segment name (section, decoded v) m.composite })
  add m name (some section) (extended (initial encoding language value)) = some (record m {
    composite = push_segment name (section, encoded value) m.composite;
    composite_encoding = note_codec name encoding m.composite_encoding;
  })
  add m name (some section) (extended (other v)) =
      some (record m { composite = push_segment name (section, encoded v) m.composite })

  unfoldable pub add_all : Maps → List Parameter → Option Maps
  unfolding add
  add_all m [] = some m
  add_all m (p ∷ ps) = elim (add m (lowercase p.name.name) p.name.section p.value) [
    | none ↦ none
    | some m' ↦ add_all m' ps
  ]

  unfoldable pub decode_composites :
      List (Bytes × Codec) → List (Bytes × List (ℕ × Segment)) → List (Bytes × Bytes)
  unfolding get decode_segments
  decode_composites codecs [] = []
  decode_composites codecs ((name, segments) ∷ rest) =
      (name, decode_segments segments (get_or ext.ascii (get name codecs)))
      ∷ decode_composites codecs rest

  unfoldable pub merge_maps : Maps → List (Bytes × Bytes)
  unfolding insert_all decode_composites
  merge_maps m =
      insert_all (m.simple_encoded ++ decode_composites m.composite_encoding m.composite) m.simple

  unfoldable pub decode_parameter_list : List Parameter → Option (List (Bytes × Bytes))
  unfolding add_all merge_maps
  decode_parameter_list input = elim (add_all no_maps input) [
    | none ↦ none
    | some m ↦ some (merge_maps m)
  ]
