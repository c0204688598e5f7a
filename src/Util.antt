-- ===== src/Util.antt =====
-- src/util.rs: combinators built on nom's.
pub mod Ascii
use rustyknife.External.{External}
use rustyknife.Nom.{
  Nom, Parser, and_then, map, verify, recognize, take_bytes, fold_many0, fold_many1,
}
use rustyknife.Prelude.{ℕ, Bool, List, [], ◌∷◌, ◌++◌, Bytes, all, ltb, if◌then◌else◌}

-- `c[0]`; the parsers apply it to one byte
abbrev pub first : Bytes → ℕ
first [] = 0
first (c ∷ cs) = c

abbrev pub is_ascii : Bytes → Bool
is_ascii = all (λ c. ltb c 0x80)

unfoldable pub ascii_to_string : ⦃ext : External⦄ → Bytes → Bytes
ascii_to_string ⦃ext⦄ i = if is_ascii i then i else ext.decode ext.ascii i

module _ ⦃nom : Nom⦄ where
  unfoldable pub fold_prefix0 : {A : Type 0} → Parser A → Parser A → Parser (List A)
  fold_prefix0 prefix cont input =
      and_then (prefix input)
        (λ rem v1. fold_many0 cont (v1 ∷ []) (λ acc value. acc ++ value ∷ []) rem)

  unfoldable pub recognize_many0 : {A : Type 0} → Parser A → Parser Bytes
  recognize_many0 f = recognize (fold_many0 {B = Unit {0}} f tt (λ _ _. tt))

  unfoldable pub recognize_many1 : {A : Type 0} → Parser A → Parser Bytes
  recognize_many1 f = recognize (fold_many1 {B = Unit {0}} f tt (λ _ _. tt))

  unfoldable pub take1_filter : (ℕ → Bool) → Parser ℕ
  take1_filter pred = verify (map (take_bytes 1) first) pred
