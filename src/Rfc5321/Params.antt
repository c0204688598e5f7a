-- ===== src/Rfc5321/Params.antt =====
-- src/rfc5321.rs: ESMTP parameters, their parsers and their display forms.
pub mod Complete
pub mod Sound
use rustyknife.Nom.{
  Nom, Parser, IResult, ok, err, map, opt, pair, preceded, recognize, tag, many1, exact,
  is_alphanumeric,
}
use rustyknife.Prelude.{List, [], ◌∷◌, ◌++◌, Option, none, some, Bytes, codes}
use rustyknife.Rfc5234.{wsp}
use rustyknife.Rfc5321.Policy.{Utf8Policy, is_ldh}
use rustyknife.Util.{take1_filter, recognize_many0, recognize_many1, fold_prefix0}

abbrev pub Keyword : Type 0
Keyword = Bytes

abbrev pub Value : Type 0
Value = Bytes

-- `struct Param(pub Keyword, pub Option<Value>)`
pub record Param : Type 0 where
  pub keyword : Keyword
  pub value : Option Value

-- `Result::ok` of a parse with the remaining input dropped
abbrev pub value_of : {A : Type 0} → IResult A → Option A
value_of (ok r a) = some a
value_of (err e) = none

module _ ⦃nom : Nom⦄ where
  unfoldable pub esmtp_keyword : Parser Keyword
  unfolding take1_filter recognize_many0 is_ldh
  esmtp_keyword =
      map (recognize (pair (take1_filter is_alphanumeric) (recognize_many0 (take1_filter is_ldh))))
        (λ x. x)

  -- `Keyword::try_from`
  unfoldable pub keyword_try_from : Bytes → Option Keyword
  unfolding esmtp_keyword
  keyword_try_from s = value_of (exact esmtp_keyword s)

  module _ (P : Utf8Policy) where
    unfoldable pub esmtp_value : Parser Value
    unfolding recognize_many1
    esmtp_value = map (recognize_many1 P.esmtp_value_char) (λ x. x)

    unfoldable pub esmtp_param : Parser Param
    unfolding esmtp_keyword esmtp_value
    esmtp_param =
        map (pair esmtp_keyword (opt (preceded (tag (codes "=")) esmtp_value)))
          (λ (n, v). record { keyword = n; value = v })

    unfoldable pub esmtp_params : Parser (List Param)
    unfolding fold_prefix0 esmtp_param wsp
    esmtp_params = fold_prefix0 esmtp_param (preceded (many1 wsp) esmtp_param)

    -- `Value::try_from`; the source takes the policy `Intl`
    unfoldable pub value_try_from : Bytes → Option Value
    unfolding esmtp_value
    value_try_from s = value_of (exact esmtp_value s)

    -- `Param::new`
    unfoldable pub param_new : Bytes → Option Bytes → Option Param
    unfolding keyword_try_from value_try_from
    param_new keyword (some v) = elim (value_try_from v) [
      | none ↦ none
      | some value ↦ elim (keyword_try_from keyword) [
        | none ↦ none
        | some k ↦ some (record { keyword = k; value = some value })
      ]
    ]
    param_new keyword none = elim (keyword_try_from keyword) [
      | none ↦ none
      | some k ↦ some (record { keyword = k; value = none })
    ]

-- `Display` of `Param`
abbrev display_value : Option Value → Bytes
display_value none = []
display_value (some v) = b'=' ∷ v

unfoldable pub display_param : Param → Bytes
display_param p = p.keyword ++ display_value p.value

-- `Display` of `Params`: a space behind each parameter but the last
unfoldable pub display_params : List Param → Bytes
unfolding display_param
display_params [] = []
display_params (p ∷ []) = display_param p
display_params (p ∷ q ∷ ps) = display_param p ++ (b' ' ∷ display_params (q ∷ ps))
