-- ===== src/Rfc3461/MailParams/FirstOffence.antt =====
-- src/rfc3461.rs: `dsn_mail_params` stops at the first offence.
use rustyknife.External.{External}
use rustyknife.Nom.{Nom}
use rustyknife.Prelude.{
  List, [], ◌∷◌, ◌++◌, Option, none, some, Bytes, ◌≡◌, refl, sym, ap, ◌∙◌, ◌↔◌, inl, inr,
}
use rustyknife.Rfc3461.MailParams.Accepts.{rets, envids, steps-Final, Slot}
use rustyknife.Rfc3461.MailParams.Rejects.{Offence, Offence-iff, step-Refused, Refused-step}
use rustyknife.Rfc3461.MailParams.Step.{Outcome-cases}
use rustyknife.Rfc3461.MailParams.{
  DsnMailParams, Param, Outcome, Reason, success, failed, Vars, parse_ret, parse_envid, step, steps,
  start, dsn_mail_params,
}

-- A variable is unset exactly where no value was given.
Slot-unset :
    {A : Type 0} (parse : Bytes → Outcome A) (vs : List (Option Bytes)) (o : Option A)
    → Slot parse none vs o
    → (o ≡ none) ↔ (vs ≡ [])
Slot-unset parse [] o h = (λ _. refl, λ _. sym h)
Slot-unset parse (none ∷ vs) o h = absurd h
Slot-unset parse (some v ∷ []) o (a, e, h) = (λ u. absurd (cc (h, u)), λ u. absurd (cc u))
Slot-unset parse (some v ∷ none ∷ vs) o (a, e, h) = absurd h
Slot-unset parse (some v ∷ some w ∷ vs) o (a, e, h) = absurd h

module _ ⦃nom : Nom⦄ ⦃ext : External⦄ where
  -- The first part of the list is accepted, and the parameter behind it is an offence.
  abbrev pub FirstOffence : List Param → Reason → Type 0
  FirstOffence ps why =
      (before after : List Param) × (p : Param) × (d : DsnMailParams) × (out : List Param) × (ps
        ≡ before ++ p ∷ after)
      × (dsn_mail_params before ≡ success (d, out))
      × Offence (rets before ≡ []) (envids before ≡ []) p why

  abbrev Stopped : Vars → List Param → Reason → Type 0
  Stopped v ps why =
      (before after : List Param) × (p : Param) × (w : Vars) × (ps ≡ before ++ p ∷ after)
      × (steps v before ≡ success w)
      × (step w p ≡ failed why)

  steps-Stopped :
      (ps : List Param) (v : Vars) (why : Reason) → steps v ps ≡ failed why → Stopped v ps why
  unfolding steps
  steps-Stopped [] v why h = absurd (cc h)
  steps-Stopped (p ∷ ps) v why h = elim (Outcome-cases (step v p)) [
    | inl (u, e) ↦
        let (before, after, q, w, split, done, stop) =
          steps-Stopped ps u why (rw (e, steps) at h) in
        (p ∷ before, after, q, w, ap (λ x. p ∷ x) split, rw (e, steps) done, stop)
    | inr (reason, e) ↦ ([], ps, p, v, refl, refl, e ∙ (rw (e, steps) at h))
  ]

  step_fails :
      (after : List Param) (p : Param) (w : Vars) (why : Reason)
      → step w p ≡ failed why
      → steps w (p ∷ after) ≡ failed why
  unfolding steps
  step_fails after p w why stop = rw (stop, steps) refl

  Stopped-steps :
      (before after : List Param) (p : Param) (v w : Vars) (why : Reason)
      → steps v before ≡ success w
      → step w p ≡ failed why
      → steps v (before ++ p ∷ after) ≡ failed why
  unfolding steps
  Stopped-steps [] after p v w why h stop =
      let same : v ≡ w = cc h in rw same (step_fails after p w why stop)
  Stopped-steps (q ∷ before) after p v w why h stop = elim (Outcome-cases (step v q)) [
    | inl (u, e) ↦ rw (e, steps) (Stopped-steps before after p u w why (rw (e, steps) at h) stop)
    | inr (reason, e) ↦ absurd (cc (rw (e, steps) at h))
  ]

  given :
      (before : List Param) (w : Vars)
      → steps start before ≡ success w
      → ((w.ret_val ≡ none) ↔ (rets before ≡ [])) × ((w.envid_val ≡ none) ↔ (envids before ≡ []))
  given before w h =
      let f = steps-Final before start w h in
      (
        Slot-unset parse_ret (rets before) w.ret_val f.ret_slot,
        Slot-unset parse_envid (envids before) w.envid_val f.envid_slot,
      )

  -- `dsn_mail_params` fails for a reason exactly where a part of the list is accepted and the
  -- parameter behind that part is an offence for that reason: RET or ENVID without a value, again
  -- after it was given, or with a value that is neither FULL nor HDRS, longer than 100 bytes or not
  -- printable xtext.
  pub dsn_mail_params-failed_iff :
      (ps : List Param) (why : Reason) → (dsn_mail_params ps ≡ failed why) ↔ FirstOffence ps why
  unfolding dsn_mail_params
  dsn_mail_params-failed_iff ps why = (to, from)
    where
      same_reason :
          {reason : Reason}
          → ◌≡◌ {A = Outcome (DsnMailParams × List Param)} (failed reason) (failed why)
          → ◌≡◌ {A = Outcome Vars} (failed reason) (failed why)
      same_reason h = ap failed (cc h)

      to : dsn_mail_params ps ≡ failed why → FirstOffence ps why
      to h = elim (Outcome-cases (steps start ps)) [
        | inl (w, e) ↦ absurd (cc (rw (e, dsn_mail_params) at h))
        | inr (reason, e) ↦
            let (before, after, p, w, split, done, stop) =
              steps-Stopped ps start why (e ∙ same_reason (rw (e, dsn_mail_params) at h)) in
            let (r, x) = given before w done in
            (
              before,
              after,
              p,
              record { envid = w.envid_val; ret = w.ret_val },
              w.out,
              split,
              rw (done, dsn_mail_params) refl,
              Offence-iff r x (step-Refused w p.0 p.1 why stop),
            )
      ]

      from : FirstOffence ps why → dsn_mail_params ps ≡ failed why
      from (before, after, p, d, out, split, done, offence) =
          elim (Outcome-cases (steps start before)) [
            | inl (w, e) ↦
                let (r, x) = given before w e in
                let stop = Refused-step w p why (Offence-iff (r.1, r.0) (x.1, x.0) offence) in
                rw (split, dsn_mail_params, Stopped-steps before after p start w why e stop) refl
            | inr (reason, e) ↦ absurd (cc (rw (e, dsn_mail_params) at done))
          ]
