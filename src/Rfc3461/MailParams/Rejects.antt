-- ===== src/Rfc3461/MailParams/Rejects.antt =====
-- src/rfc3461.rs: the errors of `dsn_mail_params`.
use rustyknife.External.{External}
use rustyknife.Nom.Rules.{IResult-cases}
use rustyknife.Nom.{Nom, exact, err, Err}
use rustyknife.Prelude.{
  Option, none, some, Bytes, if◌then◌else◌, ◌≡◌, ◌≤◌, ◌<◌, refl, sym, subst, ◌↔◌, ◌⊎◌, inl, inr,
  true, false, arith, length, ltb, Bool-cases, Option-cases,
}
use rustyknife.Rfc3461.MailParams.Step.{ret-not-envid, Outcome-cases}
use rustyknife.Rfc3461.MailParams.{
  Param, Reason, failed, duplicate_ret, invalid_ret, duplicate_envid, envid_too_long, invalid_envid,
  ret_without_value, envid_without_value, Vars, is_name, parse_ret, parse_envid, step,
}
use rustyknife.Rfc3461.Xtext.{printable_xtext}

module _ ⦃nom : Nom⦄ ⦃ext : External⦄ where
  -- Why a parameter is refused, where RET and ENVID may have been given already.
  pub data Offence (NoRet NoEnvid : Type 0) : Param → Reason → Type 0 where
    no_ret_value :
        {n : Bytes} → is_name "ret" n ≡ true → Offence NoRet NoEnvid (n, none) ret_without_value
    no_envid_value :
        {n : Bytes} → is_name "envid" n ≡ true → Offence NoRet NoEnvid (n, none) envid_without_value
    ret_again :
        {n v : Bytes}
        → is_name "ret" n ≡ true
        → ¬ NoRet
        → Offence NoRet NoEnvid (n, some v) duplicate_ret
    ret_unknown :
        {n v : Bytes}
        → is_name "ret" n ≡ true
        → NoRet
        → is_name "full" v ≡ false
        → is_name "hdrs" v ≡ false
        → Offence NoRet NoEnvid (n, some v) invalid_ret
    envid_again :
        {n v : Bytes}
        → is_name "envid" n ≡ true
        → ¬ NoEnvid
        → Offence NoRet NoEnvid (n, some v) duplicate_envid
    envid_long :
        {n v : Bytes}
        → is_name "envid" n ≡ true
        → NoEnvid
        → 100 < length v
        → Offence NoRet NoEnvid (n, some v) envid_too_long
    envid_unreadable :
        {n v : Bytes}
        → is_name "envid" n ≡ true
        → NoEnvid
        → length v ≤ 100
        → (e : Err) → exact printable_xtext v ≡ err e
        → Offence NoRet NoEnvid (n, some v) invalid_envid

  pub Offence-iff :
      {A B C D : Type 0} {p : Param} {why : Reason}
      → A ↔ C
      → B ↔ D
      → Offence A B p why
      → Offence C D p why
  Offence-iff f g (no_ret_value a) = no_ret_value a
  Offence-iff f g (no_envid_value a) = no_envid_value a
  Offence-iff f g (ret_again a b) = ret_again a (λ c. b (f.1 c))
  Offence-iff f g (ret_unknown a b c d) = ret_unknown a (f.0 b) c d
  Offence-iff f g (envid_again a b) = envid_again a (λ d. b (g.1 d))
  Offence-iff f g (envid_long a b c) = envid_long a (g.0 b) c
  Offence-iff f g (envid_unreadable a b c e d) = envid_unreadable a (g.0 b) c e d

  parse_ret-failed :
      (v : Bytes) (why : Reason)
      → parse_ret v ≡ failed why
      → (why ≡ invalid_ret) × (is_name "full" v ≡ false) × (is_name "hdrs" v ≡ false)
  unfolding parse_ret
  parse_ret-failed v why h = elim (Bool-cases (is_name "full" v)) [
    | inl a ↦ absurd (cc (rw (a, if◌then◌else◌) at h))
    | inr a ↦ elim (Bool-cases (is_name "hdrs" v)) [
      | inl b ↦ absurd (cc (rw (a, b, if◌then◌else◌) at h))
      | inr b ↦ (cc (rw (a, b, if◌then◌else◌) at h), a, b)
    ]
  ]

  parse_envid-failed :
      (v : Bytes) (why : Reason)
      → parse_envid v ≡ failed why
      → ((why ≡ envid_too_long) × (100 < length v))
        ⊎ ((why ≡ invalid_envid)
            × (length v ≤ 100)
            × ((e : Err) × (exact printable_xtext v ≡ err e)))
  unfolding parse_envid
  parse_envid-failed v why h = elim (Bool-cases (ltb 100 (length v))) [
    | inl c ↦ inl (cc (rw (c, if◌then◌else◌) at h), ground (arith, c))
    | inr c ↦ elim (IResult-cases (exact printable_xtext v)) [
      | inl (r, a, e) ↦ absurd (cc (rw (c, if◌then◌else◌, e) at h))
      | inr (x, e) ↦ inr (cc (rw (c, if◌then◌else◌, e) at h), ground (arith, c), (x, e))
    ]
  ]

  abbrev pub Refused : Vars → Param → Reason → Type 0
  Refused w p why = Offence (w.ret_val ≡ none) (w.envid_val ≡ none) p why

  bad_ret :
      (w : Vars) (n v : Bytes) (why : Reason)
      → is_name "ret" n ≡ true
      → w.ret_val ≡ none
      → parse_ret v ≡ failed why
      → Refused w (n, some v) why
  bad_ret w n v why a b h =
      let (e, x, y) = parse_ret-failed v why h in
      subst (Refused w (n, some v)) (sym e) (ret_unknown a b x y)

  bad_envid :
      (w : Vars) (n v : Bytes) (why : Reason)
      → is_name "envid" n ≡ true
      → w.envid_val ≡ none
      → parse_envid v ≡ failed why
      → Refused w (n, some v) why
  bad_envid w n v why a b h = elim (parse_envid-failed v why h) [
    | inl (e, x) ↦ subst (Refused w (n, some v)) (sym e) (envid_long a b x)
    | inr (e, x, (bad, y)) ↦ subst (Refused w (n, some v)) (sym e) (envid_unreadable a b x bad y)
  ]

  set_not_unset : {A : Type 0} {o : Option A} {a : A} → o ≡ some a → ¬ (o ≡ none)
  set_not_unset e h = absurd (cc (e, h))

  pub step-Refused :
      (w : Vars) (n : Bytes) (value : Option Bytes) (why : Reason)
      → step w (n, value) ≡ failed why
      → Refused w (n, value) why
  unfolding step
  step-Refused w n none why h = elim (Bool-cases (is_name "ret" n)) [
    | inl a ↦ subst (Refused w (n, none)) (cc (rw (a, if◌then◌else◌) at h)) (no_ret_value a)
    | inr a ↦ elim (Bool-cases (is_name "envid" n)) [
      | inl b ↦ subst (Refused w (n, none)) (cc (rw (a, b, if◌then◌else◌) at h)) (no_envid_value b)
      | inr b ↦ absurd (cc (rw (a, b, if◌then◌else◌) at h))
    ]
  ]
  step-Refused w n (some v) why h = elim (Bool-cases (is_name "ret" n)) [
    | inl a ↦ elim (Option-cases w.ret_val) [
      | inr (r, b) ↦ subst (Refused w (n, some v)) (ground arith) (ret_again a (set_not_unset b))
      | inl b ↦ elim (Outcome-cases (parse_ret v)) [
        | inl (r, c) ↦ absurd (ground arith)
        | inr (reason, c) ↦
            subst (Refused w (n, some v)) (ground arith) (bad_ret w n v reason a b c)
      ]
    ]
    | inr a ↦ elim (Bool-cases (is_name "envid" n)) [
      | inl b ↦ elim (Option-cases w.envid_val) [
        | inr (r, c) ↦
            subst (Refused w (n, some v)) (ground arith) (envid_again b (set_not_unset c))
        | inl c ↦ elim (Outcome-cases (parse_envid v)) [
          | inl (x, d) ↦ absurd (ground arith)
          | inr (reason, d) ↦
              subst (Refused w (n, some v)) (ground arith) (bad_envid w n v reason b c d)
        ]
      ]
      | inr b ↦ absurd (ground arith)
    ]
  ]

  pub set_value : {A : Type 0} (o : Option A) → ¬ (o ≡ none) → (a : A) × (o ≡ some a)
  set_value none h = absurd (h refl)
  set_value (some a) h = (a, refl)

  envid-not-ret : (n : Bytes) → is_name "envid" n ≡ true → is_name "ret" n ≡ false
  envid-not-ret n h = elim (Bool-cases (is_name "ret" n)) [
    | inl a ↦ absurd (cc (ret-not-envid n a, h))
    | inr a ↦ a
  ]

  pub Refused-step : (w : Vars) (p : Param) (why : Reason) → Refused w p why → step w p ≡ failed why
  unfolding step
  Refused-step w p why (no_ret_value a) = rw (a, if◌then◌else◌) refl
  Refused-step w p why (no_envid_value {n} b) = rw (envid-not-ret n b, b, if◌then◌else◌) refl
  Refused-step w p why (ret_again a b) =
      let (r, e) = set_value w.ret_val b in rw (a, e, if◌then◌else◌) refl
  Refused-step w p why (ret_unknown a b x y) = rw (a, b, parse_ret, x, y, if◌then◌else◌) refl
  Refused-step w p why (envid_again {n} b c) =
      let (r, e) = set_value w.envid_val c in rw (envid-not-ret n b, b, e, if◌then◌else◌) refl
  Refused-step w p why (envid_long {n} {v} b c x) =
      let long : ltb 100 (length v) ≡ true = ground (arith, x) in
      rw (envid-not-ret n b, b, c, parse_envid, long, if◌then◌else◌) refl
  Refused-step w p why (envid_unreadable {n} {v} b c x bad y) =
      let short : ltb 100 (length v) ≡ false = ground (arith, x) in
      rw (envid-not-ret n b, b, c, parse_envid, short, if◌then◌else◌, y) refl
