-- ===== src/Rfc2231/Decode/Total.antt =====
-- src/rfc2231.rs: `unreachable!()` in `decode_parameter_list` is not reached on parsed parameters.
use rustyknife.External.{External}
use rustyknife.Nom.Rules.{
  Yields, AllOf, Yields-map, Yields-preceded, Yields-terminated, Yields-separated_pair, Yields-alt,
  Yields-many0,
}
use rustyknife.Nom.{Nom, Parser, ok}
use rustyknife.Prelude.{ℕ, ◌≡◌, ◌≢◌, refl, List, [], ◌∷◌, Option, none, some, Bytes, lowercase}
use rustyknife.Rfc2231.Decode.{Maps, no_maps, add, add_all, merge_maps, decode_parameter_list}
use rustyknife.Rfc2231.Decode.Meaning.{meaning}
use rustyknife.Rfc2231.Decode.Merged.{get-decode_parameter_list}
use rustyknife.Rfc2231.Decode.{get}
use rustyknife.Rfc2231.Syntax.{
  Parameter, Value, regular, extended, ExtendedValue, initial, other, regular_parameter,
  extended_initial_name, extended_initial_value, extended_other_names, extended_other_values,
  extended_parameter, parameter, parameter_list,
}

-- Only a numbered section has a value without a charset.
abbrev IsKept : Value → Option ℕ → Type 0
IsKept (regular v) section = Unit {0}
IsKept (extended (initial o l v)) section = Unit {0}
IsKept (extended (other v)) none = ⊥
IsKept (extended (other v)) (some n) = Unit {0}

abbrev IsUsual : Parameter → Type 0
IsUsual p = IsKept p.value p.name.section

abbrev IsInitial : ExtendedValue → Type 0
IsInitial (initial o l v) = Unit {0}
IsInitial (other v) = ⊥

initial-IsKept :
    (v : ExtendedValue) (section : Option ℕ) → IsInitial v → IsKept (extended v) section
initial-IsKept (initial o l v) section h = tt
initial-IsKept (other v) section h = absurd h

other-IsKept :
    (v : Bytes) (section : Option ℕ) → section ≢ none → IsKept (extended (other v)) section
other-IsKept v none h = absurd (h refl)
other-IsKept v (some n) h = tt

module _ ⦃nom : Nom⦄ where
  anything : {A : Type 0} (p : Parser A) → Yields p (λ _. Unit {0})
  anything p i r a e = tt

  Yields-extended_initial_value : Yields extended_initial_value IsInitial
  unfolding extended_initial_value
  Yields-extended_initial_value = Yields-map _ IsInitial (anything _) _ (λ a _. tt)

  Yields-extended_other_names : Yields extended_other_names (λ n. n.section ≢ none)
  unfolding extended_other_names
  Yields-extended_other_names =
      Yields-map _ (λ n. n.section ≢ none) (anything _) _ (λ a _ e. absurd (cc e))

  Yields-extended_parameter : Yields extended_parameter IsUsual
  unfolding extended_parameter
  Yields-extended_parameter =
      Yields-alt _ _
        (Yields-map _ IsUsual
          (Yields-separated_pair _ _ _ (anything extended_initial_name)
            Yields-extended_initial_value)
          _ (λ nv h. initial-IsKept nv.1 nv.0.section h.1))
        (Yields-map _ IsUsual
          (Yields-separated_pair _ _ _ Yields-extended_other_names (anything extended_other_values))
          _ (λ nv h. other-IsKept nv.1 nv.0.section h.0))

  module _ ⦃ext : External⦄ where
    Yields-parameter : Yields parameter IsUsual
    unfolding parameter regular_parameter
    Yields-parameter =
        Yields-alt _ _ (Yields-map _ IsUsual (anything _) _ (λ a _. tt)) Yields-extended_parameter

    Yields-parameter_list : Yields parameter_list (AllOf IsUsual)
    unfolding parameter_list
    Yields-parameter_list =
        Yields-terminated _ _ (Yields-many0 _ (Yields-preceded _ _ Yields-parameter))

    add-some :
        (m : Maps) (name : Bytes) (section : Option ℕ) (v : Value)
        → IsKept v section
        → (m' : Maps) × (add m name section v ≡ some m')
    unfolding add
    add-some m name none (regular v) h = (_, refl)
    add-some m name none (extended (initial o l v)) h = (_, refl)
    add-some m name none (extended (other v)) h = absurd h
    add-some m name (some n) (regular v) h = (_, refl)
    add-some m name (some n) (extended (initial o l v)) h = (_, refl)
    add-some m name (some n) (extended (other v)) h = (_, refl)

    add_all-some :
        (ps : List Parameter) (m : Maps) → AllOf IsUsual ps → (m' : Maps) × (add_all m ps ≡ some m')
    unfolding add_all
    add_all-some [] m h = (m, refl)
    add_all-some (p ∷ ps) m h =
        let (m', e) = add-some m (lowercase p.name.name) p.name.section p.value h.0 in
        rw (add_all, e) (add_all-some ps m' h.1)

    -- The parameters that the parser returns are decoded without an error, to a map that
    -- gives each name its meaning.
    pub decode_parameter_list-parameter_list :
        (i r : Bytes) (ps : List Parameter)
        → parameter_list i ≡ ok r ps
        → (out : List (Bytes × Bytes)) × (decode_parameter_list ps ≡ some out)
          × ((k : Bytes) → get k out ≡ meaning k ps)
    unfolding decode_parameter_list
    decode_parameter_list-parameter_list i r ps e =
        let (m, h) = add_all-some ps no_maps (Yields-parameter_list i r ps e) in
        let decoded : decode_parameter_list ps ≡ some (merge_maps m) =
          rw (decode_parameter_list, h) refl in
        (merge_maps m, decoded, λ k. get-decode_parameter_list k ps (merge_maps m) decoded)
