-- ===== src/Rfc2231/Decode/Names.antt =====
-- src/rfc2231.rs: the names in what `decode_parameter_list` returns.
use rustyknife.External.{External}
use rustyknife.Prelude.{ℕ, subst, ◌≡◌, refl, List, [], ◌∷◌, ◌++◌, Option, none, some, Bytes}
use rustyknife.Rfc2231.Decode.Lookup.{Unique, insert-Unique}
use rustyknife.Rfc2231.Decode.Meaning.{at_result}
use rustyknife.Rfc2231.Decode.{
  Maps, no_maps, insert, insert_all, add, add_all, decode_composites, merge_maps,
  decode_parameter_list,
}
use rustyknife.Rfc2231.Decode.Meaning.{add_all-cons}
use rustyknife.Rfc2231.Syntax.{Parameter, Value, regular, extended, initial, other}

insert_all-Unique : {V : Type 0} (xs m : List (Bytes × V)) → Unique m → Unique (insert_all xs m)
unfolding insert_all
insert_all-Unique [] m h = h
insert_all-Unique ((k, v) ∷ xs) m h = insert_all-Unique xs (insert k v m) (insert-Unique k v m h)

module _ ⦃ext : External⦄ where
  abbrev PlainUnique : Maps → Type 0
  PlainUnique m = Unique m.simple

  add-PlainUnique :
      (name : Bytes) (section : Option ℕ) (v : Value) (m m' : Maps)
      → add m name section v ≡ some m'
      → PlainUnique m
      → PlainUnique m'
  unfolding add
  add-PlainUnique name none (regular v) m m' h w =
      at_result PlainUnique h (insert-Unique name v m.simple w)
  add-PlainUnique name none (extended (initial o l v)) m m' h w = at_result PlainUnique h w
  add-PlainUnique name none (extended (other v)) m m' h w = absurd (cc h)
  add-PlainUnique name (some n) (regular v) m m' h w = at_result PlainUnique h w
  add-PlainUnique name (some n) (extended (initial o l v)) m m' h w = at_result PlainUnique h w
  add-PlainUnique name (some n) (extended (other v)) m m' h w = at_result PlainUnique h w

  add_all-PlainUnique :
      (ps : List Parameter) (m out : Maps)
      → add_all m ps ≡ some out
      → PlainUnique m
      → PlainUnique out
  unfolding add_all
  add_all-PlainUnique [] m out h w = at_result PlainUnique h w
  add_all-PlainUnique (p ∷ ps) m out h w =
      let (m', first, rest) = add_all-cons m out p ps h in
      add_all-PlainUnique ps m' out rest (add-PlainUnique _ p.name.section p.value m m' first w)

  -- What `decode_parameter_list` returns holds no name twice.
  pub decode_parameter_list-Unique :
      (ps : List Parameter) (out : List (Bytes × Bytes))
      → decode_parameter_list ps ≡ some out
      → Unique out
  unfolding decode_parameter_list merge_maps
  decode_parameter_list-Unique ps out h = go (add_all no_maps ps) refl h
    where
      go :
          (x : Option Maps)
          → add_all no_maps ps ≡ x
          → elim x [ none ↦ none | some m ↦ some (merge_maps m) ] ≡ some out
          → Unique out
      go none e h = absurd (cc h)
      go (some m) e h =
          let merged : merge_maps m ≡ out = cc h in
          subst Unique merged (
            insert_all-Unique
              (m.simple_encoded ++ decode_composites m.composite_encoding m.composite) m.simple
              (add_all-PlainUnique ps no_maps m e tt))
