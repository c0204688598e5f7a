-- ===== src/Rfc3461/MailParams/Step.antt =====
-- src/rfc3461.rs: what one round of the loop of `dsn_mail_params` does.
use rustyknife.External.{External}
use rustyknife.Nom.{Nom}
use rustyknife.Prelude.{
  true, false, [], ◌∷◌, ◌++◌, Option, none, some, Bytes, codes, equal→eq, lowercase, if◌then◌else◌,
  ◌≡◌, refl, ◌⊎◌, inl, inr, arith, Bool-cases, Option-cases,
}
use rustyknife.Rfc3461.MailParams.{
  DsnRet, Param, Outcome, Reason, success, failed, Vars, is_name, parse_ret, parse_envid, step,
}

-- No name is both.
pub ret-not-envid : (n : Bytes) → is_name "ret" n ≡ true → is_name "envid" n ≡ false
ret-not-envid n h = rw (equal→eq (lowercase n) (codes "ret") h)

pub Outcome-cases :
    {A : Type 0} (o : Outcome A) → ((a : A) × (o ≡ success a)) ⊎ ((why : Reason) × (o ≡ failed why))
Outcome-cases (success a) = inl (a, refl)
Outcome-cases (failed why) = inr (why, refl)

module _ ⦃nom : Nom⦄ ⦃ext : External⦄ where
  -- What one parameter does to the variables, where it is accepted.
  pub data Moves (v : Vars) : Param → Vars → Type 0 where
    set_ret :
        {name value : Bytes} {w : Vars} (r : DsnRet)
        → is_name "ret" name ≡ true
        → v.ret_val ≡ none
        → parse_ret value ≡ success r
        → w ≡ record v { ret_val = some r }
        → Moves v (name, some value) w
    set_envid :
        {name value : Bytes} {w : Vars} (x : Bytes)
        → is_name "ret" name ≡ false
        → is_name "envid" name ≡ true
        → v.envid_val ≡ none
        → parse_envid value ≡ success x
        → w ≡ record v { envid_val = some x }
        → Moves v (name, some value) w
    keep :
        {name : Bytes} {value : Option Bytes} {w : Vars}
        → is_name "ret" name ≡ false
        → is_name "envid" name ≡ false
        → w ≡ record v { out = v.out ++ (name, value) ∷ [] }
        → Moves v (name, value) w

  pub step-Moves :
      (v : Vars) (name : Bytes) (value : Option Bytes) (w : Vars)
      → step v (name, value) ≡ success w
      → Moves v (name, value) w
  unfolding step
  step-Moves v name none w h = elim (Bool-cases (is_name "ret" name)) [
    | inl a ↦ absurd (cc (rw (a, if◌then◌else◌) at h))
    | inr a ↦ elim (Bool-cases (is_name "envid" name)) [
      | inl b ↦ absurd (cc (rw (a, b, if◌then◌else◌) at h))
      | inr b ↦ keep a b (ground arith)
    ]
  ]
  step-Moves v name (some value) w h = elim (Bool-cases (is_name "ret" name)) [
    | inl a ↦ elim (Option-cases v.ret_val) [
      | inr (r, b) ↦ absurd (ground arith)
      | inl b ↦ elim (Outcome-cases (parse_ret value)) [
        | inl (r, c) ↦ set_ret r a b c (ground arith)
        | inr (why, c) ↦ absurd (ground arith)
      ]
    ]
    | inr a ↦ elim (Bool-cases (is_name "envid" name)) [
      | inl b ↦ elim (Option-cases v.envid_val) [
        | inr (r, c) ↦ absurd (ground arith)
        | inl c ↦ elim (Outcome-cases (parse_envid value)) [
          | inl (x, d) ↦ set_envid x a b c d (ground arith)
          | inr (why, d) ↦ absurd (ground arith)
        ]
      ]
      | inr b ↦ keep a b (ground arith)
    ]
  ]

  pub Moves-step : {v w : Vars} (p : Param) → Moves v p w → step v p ≡ success w
  unfolding step
  Moves-step p (set_ret r a b c e) = ground arith
  Moves-step p (set_envid x a b c d e) = ground arith
  Moves-step (name, none) (keep a b e) = ground arith
  Moves-step (name, some value) (keep a b e) = ground arith
