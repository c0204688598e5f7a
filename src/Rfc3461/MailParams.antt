-- ===== src/Rfc3461/MailParams.antt =====
-- src/rfc3461.rs: the parameters of the MAIL command. Names and values are compared in lower case
-- with ASCII words that hold no `k`, so that lower-casing ASCII letters alone decides the same.
pub mod Step
pub mod Accepts
pub mod Rejects
pub mod FirstOffence
use rustyknife.External.{External}
use rustyknife.Nom.{Nom, exact, ok, err}
use rustyknife.Prelude.{
  Bool, List, [], ◌∷◌, ◌++◌, Option, none, some, Bytes, String, codes, equal, lowercase, ltb,
  length, if◌then◌else◌,
}
use rustyknife.Rfc3461.Xtext.{printable_xtext}
use rustyknife.Util.{ascii_to_string}

pub data DsnRet : Type 0 where
  full hdrs : DsnRet

pub record DsnMailParams : Type 0 where
  pub envid : Option Bytes
  pub ret : Option DsnRet

-- `type Param`: a name and perhaps a value
abbrev pub Param : Type 0
Param = Bytes × Option Bytes

-- the `&'static str` errors
pub data Reason : Type 0 where
  duplicate_ret invalid_ret duplicate_envid envid_too_long invalid_envid : Reason
  ret_without_value envid_without_value : Reason

pub data Outcome (A : Type 0) : Type 0 where
  success : A → Outcome A
  failed : Reason → Outcome A

-- the loop's variables
pub record Vars : Type 0 where
  pub out : List Param
  pub envid_val : Option Bytes
  pub ret_val : Option DsnRet

abbrev pub is_name : String → Bytes → Bool
is_name s name = equal (lowercase name) (codes s)

unfoldable pub parse_ret : Bytes → Outcome DsnRet
parse_ret value =
    if is_name "full" value
    then success full
    else if is_name "hdrs" value
    then success hdrs
    else failed invalid_ret

module _ ⦃nom : Nom⦄ ⦃ext : External⦄ where
  unfoldable pub parse_envid : Bytes → Outcome Bytes
  unfolding printable_xtext ascii_to_string
  parse_envid value =
      if ltb 100 (length value) then failed envid_too_long else elim (exact printable_xtext value) [
        | ok _ parsed ↦ success (ascii_to_string parsed)
        | err _ ↦ failed invalid_envid
      ]

  -- one parameter
  unfoldable pub step : Vars → Param → Outcome Vars
  unfolding parse_ret parse_envid
  step v (name, some value) =
      if is_name "ret" name
      then elim v.ret_val [
        | some _ ↦ failed duplicate_ret
        | none ↦ elim (parse_ret value) [
          | success r ↦ success (record v { ret_val = some r })
          | failed why ↦ failed why
        ]
      ]
      else if is_name "envid" name
      then elim v.envid_val [
        | some _ ↦ failed duplicate_envid
        | none ↦ elim (parse_envid value) [
          | success e ↦ success (record v { envid_val = some e })
          | failed why ↦ failed why
        ]
      ]
      else success (record v { out = v.out ++ (name, some value) ∷ [] })
  step v (name, none) =
      if is_name "ret" name
      then failed ret_without_value
      else if is_name "envid" name
      then failed envid_without_value
      else success (record v { out = v.out ++ (name, none) ∷ [] })

  unfoldable pub steps : Vars → List Param → Outcome Vars
  unfolding step
  steps v [] = success v
  steps v (p ∷ ps) = elim (step v p) [ failed why ↦ failed why | success w ↦ steps w ps ]

  abbrev pub start : Vars
  start = record { out = []; envid_val = none; ret_val = none }

  unfoldable pub dsn_mail_params : List Param → Outcome (DsnMailParams × List Param)
  unfolding steps
  dsn_mail_params input = elim (steps start input) [
    | failed why ↦ failed why
    | success v ↦ success (record { envid = v.envid_val; ret = v.ret_val }, v.out)
  ]
