-- ===== src/Rfc3461/MailParams/Accepts.antt =====
-- src/rfc3461.rs: `dsn_mail_params` against a description without a loop.
use rustyknife.External.{External}
use rustyknife.Nom.{Nom}
use rustyknife.Prelude.{
  List, [], ◌∷◌, ◌++◌, Option, none, some, Bytes, if◌then◌else◌, ◌≡◌, refl, sym, ap, ◌∙◌, ◌↔◌, ◌⊎◌,
  inl, inr, arith, append-nil, append_assoc, Bool-cases,
}
use rustyknife.Rfc3461.MailParams.{
  DsnMailParams, Param, Outcome, success, Vars, is_name, parse_ret, parse_envid, step, steps, start,
  dsn_mail_params,
}
use rustyknife.Rfc3461.MailParams.Step.{
  ret-not-envid, Outcome-cases, Moves, set_ret, set_envid, keep, step-Moves, Moves-step,
}

-- The values given to RET and ENVID, in order, and the parameters of other names.
abbrev pub rets : List Param → List (Option Bytes)
rets [] = []
rets ((name, value) ∷ ps) = if is_name "ret" name then value ∷ rets ps else rets ps

abbrev pub envids : List Param → List (Option Bytes)
envids [] = []
envids ((name, value) ∷ ps) = if is_name "envid" name then value ∷ envids ps else envids ps

abbrev pub others : List Param → List Param
others [] = []
others ((name, value) ∷ ps) =
    if is_name "ret" name
    then others ps
    else if is_name "envid" name
    then others ps
    else (name, value) ∷ others ps

-- No value is given and none results, or one value is given and its parse results.
abbrev pub AtMostOnce : {A : Type 0} → (Bytes → Outcome A) → List (Option Bytes) → Option A → Type 0
AtMostOnce {A} parse vs o =
    ((vs ≡ []) × (o ≡ none))
    ⊎ ((v : Bytes) × (a : A) × (vs ≡ some v ∷ []) × (parse v ≡ success a) × (o ≡ some a))

-- The same from a variable that may be set already.
abbrev pub Slot :
    {A : Type 0} → (Bytes → Outcome A) → Option A → List (Option Bytes) → Option A → Type 0
Slot parse o [] o' = o ≡ o'
Slot parse o (none ∷ vs) o' = ⊥
Slot parse (some a) (some v ∷ vs) o' = ⊥
Slot {A} parse none (some v ∷ vs) o' = (a : A) × (parse v ≡ success a) × Slot parse (some a) vs o'

Slot-AtMostOnce :
    {A : Type 0} (parse : Bytes → Outcome A) (vs : List (Option Bytes)) (o : Option A)
    → Slot parse none vs o
    → AtMostOnce parse vs o
Slot-AtMostOnce parse [] o h = inl (refl, sym h)
Slot-AtMostOnce parse (none ∷ vs) o h = absurd h
Slot-AtMostOnce parse (some v ∷ []) o (a, e, h) = inr (v, a, refl, e, sym h)
Slot-AtMostOnce parse (some v ∷ none ∷ vs) o (a, e, h) = absurd h
Slot-AtMostOnce parse (some v ∷ some w ∷ vs) o (a, e, h) = absurd h

AtMostOnce-Slot :
    {A : Type 0} (parse : Bytes → Outcome A) (vs : List (Option Bytes)) (o : Option A)
    → AtMostOnce parse vs o
    → Slot parse none vs o
AtMostOnce-Slot parse vs o (inl (e, e')) = rw (e, e') refl
AtMostOnce-Slot parse vs o (inr (v, a, e, p, e')) = rw (e, e') (a, p, refl)

module _ ⦃nom : Nom⦄ ⦃ext : External⦄ where
  -- The variables after the loop, described by those before it and the list.
  pub record Final (v : Vars) (ps : List Param) (w : Vars) : Type 0 where
    pub out_is : w.out ≡ v.out ++ others ps
    pub ret_slot : Slot parse_ret v.ret_val (rets ps) w.ret_val
    pub envid_slot : Slot parse_envid v.envid_val (envids ps) w.envid_val

  Final-nil : (v w : Vars) → v ≡ w → Final v [] w
  Final-nil v w e = record {
    out_is = ap (λ x. x.out) (sym e) ∙ sym (append-nil v.out);
    ret_slot = ap (λ x. x.ret_val) e;
    envid_slot = ap (λ x. x.envid_val) e;
  }

  Final-Moves :
      {v u w : Vars} (name : Bytes) (value : Option Bytes) (ps : List Param)
      → Moves v (name, value) u
      → Final u ps w
      → Final v ((name, value) ∷ ps) w
  Final-Moves name value ps (set_ret r a b c e) f = record {
    out_is = rw (a, if◌then◌else◌) (f.out_is ∙ rw e);
    ret_slot = rw (a, if◌then◌else◌) (rw b (r, c, rw e at (f.ret_slot)));
    envid_slot = rw (ret-not-envid name a, if◌then◌else◌) (rw e at (f.envid_slot));
  }
  Final-Moves name value ps (set_envid x a b c d e) f = record {
    out_is = rw (a, b, if◌then◌else◌) (f.out_is ∙ rw e);
    ret_slot = rw (a, if◌then◌else◌) (rw e at (f.ret_slot));
    envid_slot = rw (b, if◌then◌else◌) (rw c (x, d, rw e at (f.envid_slot)));
  }
  Final-Moves {v} name value ps (keep a b e) f = record {
    out_is =
        rw (a, b, if◌then◌else◌)
          (f.out_is ∙ rw e (append_assoc v.out ((name, value) ∷ []) (others ps)));
    ret_slot = rw (a, if◌then◌else◌) (rw e at (f.ret_slot));
    envid_slot = rw (b, if◌then◌else◌) (rw e at (f.envid_slot));
  }

  -- A slot that takes one more value was empty, and the value parses.
  Slot-cons :
      {A : Type 0} (parse : Bytes → Outcome A) (o : Option A) (value : Option Bytes)
      (vs : List (Option Bytes)) (o' : Option A)
      → Slot parse o (value ∷ vs) o'
      → (v : Bytes) × (a : A) × (o ≡ none)
        × (value ≡ some v)
        × (parse v ≡ success a)
        × Slot parse (some a) vs o'
  Slot-cons parse none none vs o' h = absurd h
  Slot-cons parse (some _) none vs o' h = absurd h
  Slot-cons parse (some _) (some v) vs o' h = absurd h
  Slot-cons parse none (some v) vs o' (a, e, h) = (v, a, refl, refl, e, h)

  Moves-Final :
      (v w : Vars) (name : Bytes) (value : Option Bytes) (ps : List Param)
      → Final v ((name, value) ∷ ps) w
      → (u : Vars) × Moves v (name, value) u × Final u ps w
  Moves-Final v w name value ps f = elim (Bool-cases (is_name "ret" name)) [
    | inl a ↦
        let (text, r, unset, is, parsed, later) =
          Slot-cons parse_ret v.ret_val value (rets ps) w.ret_val
            (rw (a, if◌then◌else◌) at (f.ret_slot)) in
        (
          record v { ret_val = some r },
          rw is (set_ret r a unset parsed refl),
          record {
            out_is = rw (a, if◌then◌else◌) at (f.out_is);
            ret_slot = later;
            envid_slot = rw (ret-not-envid name a, if◌then◌else◌) at (f.envid_slot);
          },
        )
    | inr a ↦ elim (Bool-cases (is_name "envid" name)) [
      | inl b ↦
          let (text, x, unset, is, parsed, later) =
            Slot-cons parse_envid v.envid_val value (envids ps) w.envid_val
              (rw (b, if◌then◌else◌) at (f.envid_slot)) in
          (
            record v { envid_val = some x },
            rw is (set_envid x a b unset parsed refl),
            record {
              out_is = rw (a, b, if◌then◌else◌) at (f.out_is);
              ret_slot = rw (a, if◌then◌else◌) at (f.ret_slot);
              envid_slot = later;
            },
          )
      | inr b ↦ (
        record v { out = v.out ++ (name, value) ∷ [] },
        keep a b refl,
        record {
          out_is =
              (rw (a, b, if◌then◌else◌) at (f.out_is))
              ∙ sym (append_assoc v.out ((name, value) ∷ []) (others ps));
          ret_slot = rw (a, if◌then◌else◌) at (f.ret_slot);
          envid_slot = rw (b, if◌then◌else◌) at (f.envid_slot);
        },
      )
    ]
  ]

  pub steps-Final : (ps : List Param) (v w : Vars) → steps v ps ≡ success w → Final v ps w
  unfolding steps
  steps-Final [] v w h = Final-nil v w (cc h)
  steps-Final ((name, value) ∷ ps) v w h = elim (Outcome-cases (step v (name, value))) [
    | inl (u, e) ↦
        Final-Moves name value ps (step-Moves v name value u e)
          (steps-Final ps u w (rw (e, steps) at h))
    | inr (why, e) ↦ absurd (cc (rw (e, steps) at h))
  ]

  Vars-eq : {u w : Vars} → u.out ≡ w.out → u.ret_val ≡ w.ret_val → u.envid_val ≡ w.envid_val → u ≡ w
  Vars-eq o r x = λ i. record { out = o i; envid_val = x i; ret_val = r i }

  Final-steps : (ps : List Param) (v w : Vars) → Final v ps w → steps v ps ≡ success w
  unfolding steps
  Final-steps [] v w f =
      ap success (Vars-eq (sym (append-nil v.out) ∙ sym (f.out_is)) (f.ret_slot) (f.envid_slot))
  Final-steps ((name, value) ∷ ps) v w f =
      let (u, m, g) = Moves-Final v w name value ps f in
      rw (Moves-step (name, value) m, steps) (Final-steps ps u w g)

  -- `dsn_mail_params` succeeds exactly where RET and ENVID are each given at most once, with a value
  -- that parses; it returns the parsed values, and all other parameters in their order.
  pub dsn_mail_params-eq-success_iff :
      (ps : List Param) (d : DsnMailParams) (out : List Param)
      → (dsn_mail_params ps ≡ success (d, out)) ↔ (
          (out ≡ others ps)
          × AtMostOnce parse_ret (rets ps) d.ret
          × AtMostOnce parse_envid (envids ps) d.envid)
  unfolding dsn_mail_params
  dsn_mail_params-eq-success_iff ps d out = (to, from)
    where
      vars : Vars
      vars = record { out = out; envid_val = d.envid; ret_val = d.ret }

      ends :
          (w : Vars)
          → ◌≡◌ {A = Outcome (DsnMailParams × List Param)}
              (success (record { envid = w.envid_val; ret = w.ret_val }, w.out))
              (success (d, out))
          → (w.out ≡ out) × (w.ret_val ≡ d.ret) × (w.envid_val ≡ d.envid)
      ends w h = ground arith

      to :
          dsn_mail_params ps ≡ success (d, out)
          → (out ≡ others ps)
            × AtMostOnce parse_ret (rets ps) d.ret
            × AtMostOnce parse_envid (envids ps) d.envid
      to h = elim (Outcome-cases (steps start ps)) [
        | inl (w, e) ↦
            let f = steps-Final ps start w e in
            let (same_out, same_ret, same_envid) = ends w (rw (e, dsn_mail_params) at h) in
            (
              sym same_out ∙ f.out_is,
              rw (← same_ret) (Slot-AtMostOnce _ _ _ f.ret_slot),
              rw (← same_envid) (Slot-AtMostOnce _ _ _ f.envid_slot),
            )
        | inr (why, e) ↦ absurd (cc (rw (e, dsn_mail_params) at h))
      ]

      from :
          (out ≡ others ps)
            × AtMostOnce parse_ret (rets ps) d.ret
            × AtMostOnce parse_envid (envids ps) d.envid
          → dsn_mail_params ps ≡ success (d, out)
      from (o, r, x) =
          let e = Final-steps ps start vars (record {
            out_is = o;
            ret_slot = AtMostOnce-Slot parse_ret (rets ps) d.ret r;
            envid_slot = AtMostOnce-Slot parse_envid (envids ps) d.envid x;
          }) in
          rw (e, dsn_mail_params)
