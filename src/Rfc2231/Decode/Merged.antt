-- ===== src/Rfc2231/Decode/Merged.antt =====
-- src/rfc2231.rs: the merging of the maps at the end of `decode_parameter_list`.
use rustyknife.External.{External, Codec}
use rustyknife.Prelude.{
  ℕ, ◌≡◌, refl, ap, sym, ◌∙◌, List, [], ◌∷◌, ◌++◌, Option, none, some, Bytes, if◌then◌else◌, inl,
  inr,
}
use rustyknife.Rfc2231.Decode.Lookup.{
  equal-cases, later, later_assoc, later-none, Unique, insert-Unique, get_last, get_last-append,
  get_last-get, get-insert_all,
}
use rustyknife.Rfc2231.Decode.Meaning.{
  extend, meaning, joined, last, plain_of, coded_of, codec_of, segments, add_all-Adds, add_all-cons,
  at_result,
}
use rustyknife.Rfc2231.Decode.{
  Segment, Maps, no_maps, get, get_or, push_segment, add, add_all, decode_segments,
  decode_composites, merge_maps, decode_parameter_list,
}
use rustyknife.Rfc2231.Syntax.{Parameter, Value, regular, extended, initial, other}

module _ ⦃ext : External⦄ where
  abbrev put_together : Codec → Option (List (ℕ × Segment)) → Option Bytes
  put_together codec none = none
  put_together codec (some ss) = some (decode_segments ss codec)

  get-decode_composites :
      (k : Bytes) (codecs : List (Bytes × Codec)) (m : List (Bytes × List (ℕ × Segment)))
      → get k (decode_composites codecs m)
        ≡ put_together (get_or ext.ascii (get k codecs)) (get k m)
  unfolding decode_composites get
  get-decode_composites k codecs [] = refl
  get-decode_composites k codecs ((j, ss) ∷ m) = elim (equal-cases j k) [
    | inl (y, e) ↦
        rw (y, if◌then◌else◌)
          (ap (λ x. some (decode_segments ss (get_or ext.ascii (get x codecs)))) e)
    | inr n ↦ rw (n, if◌then◌else◌) (get-decode_composites k codecs m)
  ]

  decode_composites-Unique :
      (codecs : List (Bytes × Codec)) (m : List (Bytes × List (ℕ × Segment)))
      → Unique m
      → Unique (decode_composites codecs m)
  unfolding decode_composites
  decode_composites-Unique codecs [] h = tt
  decode_composites-Unique codecs ((j, ss) ∷ m) h = (
    get-decode_composites j codecs m ∙ ap (put_together (get_or ext.ascii (get j codecs))) h.0,
    decode_composites-Unique codecs m h.1,
  )

  -- The maps that the merge walks hold no name twice.
  abbrev WellKeyed : Maps → Type 0
  WellKeyed m = Unique m.simple_encoded × Unique m.composite

  add-WellKeyed :
      (name : Bytes) (section : Option ℕ) (v : Value) (m m' : Maps)
      → add m name section v ≡ some m'
      → WellKeyed m
      → WellKeyed m'
  unfolding add push_segment
  add-WellKeyed name none (regular v) m m' h w = at_result WellKeyed h w
  add-WellKeyed name none (extended (initial o l v)) m m' h w =
      at_result WellKeyed h (insert-Unique name _ m.simple_encoded w.0, w.1)
  add-WellKeyed name none (extended (other v)) m m' h w = absurd (cc h)
  add-WellKeyed name (some n) (regular v) m m' h w =
      at_result WellKeyed h (w.0, insert-Unique name _ m.composite w.1)
  add-WellKeyed name (some n) (extended (initial o l v)) m m' h w =
      at_result WellKeyed h (w.0, insert-Unique name _ m.composite w.1)
  add-WellKeyed name (some n) (extended (other v)) m m' h w =
      at_result WellKeyed h (w.0, insert-Unique name _ m.composite w.1)

  add_all-WellKeyed :
      (ps : List Parameter) (m out : Maps) → add_all m ps ≡ some out → WellKeyed m → WellKeyed out
  unfolding add_all
  add_all-WellKeyed [] m out h w = at_result WellKeyed h w
  add_all-WellKeyed (p ∷ ps) m out h w =
      let (m', first, rest) = add_all-cons m out p ps h in
      add_all-WellKeyed ps m' out rest (add-WellKeyed _ p.name.section p.value m m' first w)

  get-merge_maps :
      (k : Bytes) (m : Maps)
      → WellKeyed m
      → get k (merge_maps m)
        ≡ later
            (put_together (get_or ext.ascii (get k m.composite_encoding)) (get k m.composite))
            (later (get k m.simple_encoded) (get k m.simple))
  unfolding merge_maps
  get-merge_maps k m w =
      let composites = decode_composites m.composite_encoding m.composite in
      get-insert_all k (m.simple_encoded ++ composites) m.simple
      ∙ ap (λ o. later o (get k m.simple)) (get_last-append k m.simple_encoded composites)
      ∙ later_assoc (get_last k composites) (get_last k m.simple_encoded) (get k m.simple)
      ∙ rw
          (
            get_last-get k composites
                (decode_composites-Unique m.composite_encoding m.composite w.1),
            get_last-get k m.simple_encoded w.0,
            get-decode_composites k m.composite_encoding m.composite,
          )
          refl

  put_together-joined :
      (codec : Codec) (ss : List (ℕ × Segment)) (o : Option (List (ℕ × Segment)))
      → o ≡ extend none ss
      → put_together codec o ≡ joined codec ss
  put_together-joined codec [] o e = rw e refl
  put_together-joined codec (s ∷ ss) o e = rw e refl

  -- The value of a name in what `decode_parameter_list` returns: its segments put together with the
  -- last known codec that it is given, if it has segments; else its last value in a charset; else
  -- its last plain value; and no value if no parameter has the name.
  pub get-decode_parameter_list :
      (k : Bytes) (ps : List Parameter) (out : List (Bytes × Bytes))
      → decode_parameter_list ps ≡ some out
      → get k out ≡ meaning k ps
  unfolding decode_parameter_list get
  get-decode_parameter_list k ps out h = go (add_all no_maps ps) refl h
    where
      go :
          (x : Option Maps)
          → add_all no_maps ps ≡ x
          → elim x [ none ↦ none | some m ↦ some (merge_maps m) ] ≡ some out
          → get k out ≡ meaning k ps
      go none e h = absurd (cc h)
      go (some m) e h =
          let a = add_all-Adds k ps no_maps m e in
          let merged : merge_maps m ≡ out = cc h in
          ap (get k) (sym merged)
          ∙ get-merge_maps k m (add_all-WellKeyed ps no_maps m e (tt, tt))
          ∙ rw
              (
                a.on_codec ∙ later-none (last codec_of k ps),
                a.on_coded ∙ later-none (last coded_of k ps),
                a.on_simple ∙ later-none (last plain_of k ps),
              )
              (ap (λ o. later o (later (last coded_of k ps) (last plain_of k ps)))
                (put_together-joined _ (segments k ps) _ a.on_segments))
