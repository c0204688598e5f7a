-- ===== src/Rfc5321/Policy/Labels.antt =====
-- src/rfc5321.rs: what `ldh_str` reads.
use rustyknife.Nom.Rules.{
  Stops, take_while-append, take_while-append-skip_while, take_while-Every, skip_while-Stops,
}
use rustyknife.Nom.{
  Nom, IResult, ok, err, error, and_then, take_while, skip_while, non_empty, is_alphanumeric,
}
use rustyknife.Prelude.{
  ℕ, ◌≡◌, ◌↔◌, ◌⊎◌, refl, ap, sym, ◌∙◌, Bool, true, false, ◌||◌, [], ◌∷◌, ◌++◌, Bytes, ◌==◌, length,
  drop, Every, append_assoc, drop-append, if◌then◌else◌, Bool-cases, inl, inr,
}
use rustyknife.Rfc5321.Policy.{is_ldh, trim_dashes, ldh_str}

-- There is a last byte, and it is not a dash.
abbrev pub EndsPlain : Bytes → Type 0
EndsPlain [] = ⊥
EndsPlain (c ∷ []) = (c == b'-') ≡ false
EndsPlain (c ∷ d ∷ ds) = EndsPlain (d ∷ ds)

abbrev pub is_dash : ℕ → Bool
is_dash c = c == b'-'

trim_dashes-dashes : (ds : Bytes) → Every is_dash ds → trim_dashes ds ≡ []
unfolding trim_dashes
trim_dashes-dashes [] h = refl
trim_dashes-dashes (d ∷ ds) h = rw (trim_dashes-dashes ds h.1, h.0) refl

trim_dashes-append : (a ds : Bytes) → EndsPlain a → Every is_dash ds → trim_dashes (a ++ ds) ≡ a
unfolding trim_dashes
trim_dashes-append [] ds e h = absurd e
trim_dashes-append (c ∷ []) ds e h = rw (trim_dashes-dashes ds h, e) refl
trim_dashes-append (c ∷ d ∷ a) ds e h = rw (trim_dashes-append (d ∷ a) ds e h) refl

-- What stands behind what is left of a run.
record Trimmed (run kept : Bytes) : Type 0 where
  dashes : Bytes
  splits : run ≡ kept ++ dashes
  all_dashes : Every is_dash dashes
  ends : (kept ≡ []) ⊎ EndsPlain kept

trim_dashes-Trimmed : (run : Bytes) → Trimmed run (trim_dashes run)
unfolding trim_dashes
trim_dashes-Trimmed [] = record { dashes = []; splits = refl; all_dashes = tt; ends = inl refl }
trim_dashes-Trimmed (c ∷ cs) = go (trim_dashes cs) (trim_dashes-Trimmed cs)
  where
    go :
        (kept : Bytes)
        → Trimmed cs kept
        → Trimmed
            (c ∷ cs)
            (elim kept [ [] ↦ if c == b'-' then [] else c ∷ [] | d ∷ ds ↦ c ∷ d ∷ ds ])
    go (d ∷ ds) t = record {
      dashes = t.dashes;
      splits = ap (◌∷◌ c) t.splits;
      all_dashes = t.all_dashes;
      ends = inr (elim t.ends [ inl e ↦ absurd (cc e) | inr e ↦ e ]);
    }
    go [] t = elim (Bool-cases (c == b'-')) [
      | inl y ↦
          rw (y, if◌then◌else◌)
            (record {
              dashes = c ∷ t.dashes;
              splits = ap (◌∷◌ c) t.splits;
              all_dashes = (y, t.all_dashes);
              ends = inl refl;
            })
      | inr n ↦
          rw (n, if◌then◌else◌)
            (record {
              dashes = t.dashes;
              splits = ap (◌∷◌ c) t.splits;
              all_dashes = t.all_dashes;
              ends = inr n;
            })
    ]

or_true : (b : Bool) → b || true ≡ true
or_true true = refl
or_true false = refl

Every-append : (f : ℕ → Bool) (xs ys : Bytes) → Every f xs → Every f ys → Every f (xs ++ ys)
Every-append f [] ys h k = k
Every-append f (x ∷ xs) ys h k = (h.0, Every-append f xs ys h.1 k)

Every-left : (f : ℕ → Bool) (xs ys : Bytes) → Every f (xs ++ ys) → Every f xs
Every-left f [] ys h = tt
Every-left f (x ∷ xs) ys h = (h.0, Every-left f xs ys h.1)

-- What `ldh_str` makes of what is left of the run.
abbrev pub from_kept : Bytes → Bytes → IResult Bytes
from_kept i [] = err error
from_kept i (c ∷ cs) = ok (drop (length (c ∷ cs)) i) (c ∷ cs)

module _ ⦃nom : Nom⦄ where
  -- `i` splits in the label `a` and `r`: letters, digits and dashes, the last one not a dash; behind it dashes, and
  -- then the end of the run.
  pub record Label (i r a : Bytes) : Type 0 where
    pub label_splits : i ≡ a ++ r
    pub label_ldh : Every is_ldh a
    pub label_ends : EndsPlain a
    pub trail : Bytes
    pub behind : Bytes
    pub rest_splits : r ≡ trail ++ behind
    pub trail_dashes : Every is_dash trail
    pub behind_stops : Stops is_ldh behind

  dash-is_ldh : (ds : Bytes) → Every is_dash ds → Every is_ldh ds
  unfolding is_ldh
  dash-is_ldh [] h = tt
  dash-is_ldh (d ∷ ds) h = (rw h.0 (or_true (is_alphanumeric d)), dash-is_ldh ds h.1)

  pub ldh_str-from_kept : (i : Bytes) → ldh_str i ≡ from_kept i (trim_dashes (take_while is_ldh i))
  unfolding ldh_str
  ldh_str-from_kept i = rw nom.take_while1_law (go (take_while is_ldh i))
    where
      go :
          (run : Bytes)
          → and_then (non_empty (skip_while is_ldh i) run) (λ _ run. from_kept i (trim_dashes run))
            ≡ from_kept i (trim_dashes run)
      go [] = refl
      go (c ∷ cs) = refl

  pub ldh_str-Label : (i r a : Bytes) → Label i r a → ldh_str i ≡ ok r a
  ldh_str-Label i r a l =
      let whole : i ≡ (a ++ l.trail) ++ l.behind =
        l.label_splits ∙ ap (◌++◌ a) l.rest_splits ∙ sym (append_assoc a l.trail l.behind) in
      let run : take_while is_ldh i ≡ a ++ l.trail =
        ap (take_while is_ldh) whole
        ∙ take_while-append is_ldh (a ++ l.trail) l.behind
            (Every-append is_ldh a l.trail l.label_ldh (dash-is_ldh l.trail l.trail_dashes))
            l.behind_stops in
      ldh_str-from_kept i
      ∙ rw (run, trim_dashes-append a l.trail l.label_ends l.trail_dashes, l.label_splits)
          (kept a l.label_ends)
    where
      kept : (a : Bytes) → EndsPlain a → from_kept (a ++ r) a ≡ ok r a
      kept [] e = absurd e
      kept (c ∷ cs) e = ap (λ x. ok x (c ∷ cs)) (drop-append (c ∷ cs) r)

  Label-ldh_str : (i r a : Bytes) → ldh_str i ≡ ok r a → Label i r a
  Label-ldh_str i r a e =
      go (trim_dashes (take_while is_ldh i)) (trim_dashes-Trimmed (take_while is_ldh i))
        (sym (ldh_str-from_kept i) ∙ e)
    where
      go :
          (kept : Bytes)
          → Trimmed (take_while is_ldh i) kept
          → from_kept i kept ≡ ok r a
          → Label i r a
      go [] t h = absurd (cc h)
      go (c ∷ cs) t h =
          let behind = skip_while is_ldh i in
          let whole : i ≡ (c ∷ cs) ++ (t.dashes ++ behind) =
            sym (take_while-append-skip_while is_ldh i)
            ∙ ap (λ x. x ++ behind) t.splits
            ∙ append_assoc (c ∷ cs) t.dashes behind in
          let rest : r ≡ t.dashes ++ behind =
            cc (h, ap (drop (length (c ∷ cs))) whole, drop-append (c ∷ cs) (t.dashes ++ behind)) in
          let same : a ≡ c ∷ cs = cc h in
          record {
            label_splits = whole ∙ cc (rest, same);
            label_ldh =
                rw same (
                  Every-left is_ldh (c ∷ cs) t.dashes (rw t.splits at (take_while-Every is_ldh i)));
            label_ends = rw same (elim t.ends [ inl e ↦ absurd (cc e) | inr ends ↦ ends ]);
            trail = t.dashes;
            behind = behind;
            rest_splits = rest;
            trail_dashes = t.all_dashes;
            behind_stops = skip_while-Stops is_ldh i;
          }

  -- A label is read exactly where letters, digits and dashes come first that are not all dashes. It
  -- is the run of these bytes without the dashes at its end, which are left over.
  pub ldh_str-Label_iff : (i r a : Bytes) → (ldh_str i ≡ ok r a) ↔ Label i r a
  ldh_str-Label_iff i r a = (Label-ldh_str i r a, ldh_str-Label i r a)
