-- ===== src/Nom/Interface.antt =====
-- The operations of nom that the parsers call, as an interface with their documented behaviour.
-- Only the error kinds are kept: the crate's error type is `()` in this program.
use rustyknife.Nom.Result.{
  Parser, ok, err, error, incomplete, and_then, or_else, from_option, take_while, skip_while, strip,
  no_case, stream_strip, before, non_empty, round,
}
use rustyknife.Prelude.{
  ℕ, zero, suc, ◌-◌, ◌≡◌, Bool, List, [], ◌∷◌, foldl, Option, none, some, Bytes, length, take, drop,
  ltb, ◌==◌, within, ◌||◌, if◌then◌else◌,
}

-- The bytes that lie between an input and what a parser left of it.
abbrev pub consumed : Bytes → Bytes → Bytes
consumed i r = take (length i - length r) i

pub record Nom : Type 1 where
  -- `bytes::complete`
  pub tag : Bytes → Parser Bytes
  pub tag_no_case : Bytes → Parser Bytes
  pub take_bytes : ℕ → Parser Bytes
  pub take_while1 : (ℕ → Bool) → Parser Bytes
  pub take_while_m_n : ℕ → ℕ → (ℕ → Bool) → Parser Bytes
  -- `bytes::streaming`
  pub streaming_tag : Bytes → Parser Bytes
  pub streaming_take_while1 : (ℕ → Bool) → Parser Bytes
  pub streaming_take_until : Bytes → Parser Bytes
  -- `combinator`, `branch`, `sequence`, `multi`
  pub map : {A B : Type 0} → Parser A → (A → B) → Parser B
  pub map_opt : {A B : Type 0} → Parser A → (A → Option B) → Parser B
  pub opt : {A : Type 0} → Parser A → Parser (Option A)
  pub recognize : {A : Type 0} → Parser A → Parser Bytes
  pub verify : {A : Type 0} → Parser A → (A → Bool) → Parser A
  pub exact : {A : Type 0} → Parser A → Parser A
  pub alt : {A : Type 0} → Parser A → Parser A → Parser A
  pub pair : {A B : Type 0} → Parser A → Parser B → Parser (A × B)
  pub map_res : {A B : Type 0} → Parser A → (A → Option B) → Parser B
  pub preceded : {A B : Type 0} → Parser A → Parser B → Parser B
  pub terminated : {A B : Type 0} → Parser A → Parser B → Parser A
  pub delimited : {A B C : Type 0} → Parser A → Parser B → Parser C → Parser B
  pub separated_pair : {A B C : Type 0} → Parser A → Parser B → Parser C → Parser (A × C)
  pub many0 : {A : Type 0} → Parser A → Parser (List A)
  pub many1 : {A : Type 0} → Parser A → Parser (List A)
  pub many_m_n : {A : Type 0} → ℕ → ℕ → Parser A → Parser (List A)
  pub fold_many0 : {A B : Type 0} → Parser A → B → (B → A → B) → Parser B
  pub fold_many1 : {A B : Type 0} → Parser A → B → (B → A → B) → Parser B
  -- `character`
  pub is_digit : ℕ → Bool
  pub is_alphanumeric : ℕ → Bool
  pub is_hex_digit : ℕ → Bool
  -- the documented behaviour
  pub tag_law :
      (t i : Bytes) → tag t i ≡ elim (strip ◌==◌ t i) [ none ↦ err error | some r ↦ ok r t ]
  pub tag_no_case_law :
      (t i : Bytes)
      → tag_no_case t i
        ≡ elim (strip no_case t i) [ none ↦ err error | some r ↦ ok r (take (length t) i) ]
  pub take_bytes_law :
      (n : ℕ) (i : Bytes)
      → take_bytes n i ≡ (if ltb (length i) n then err error else ok (drop n i) (take n i))
  pub take_while1_law :
      (f : ℕ → Bool) (i : Bytes) → take_while1 f i ≡ non_empty (skip_while f i) (take_while f i)
  pub take_while_m_n_law :
      (m n : ℕ) (f : ℕ → Bool) (i : Bytes)
      → take_while_m_n m n f i ≡ (
          let run = take n (take_while f i) in
          if ltb (length run) m then err error else ok (drop (length run) i) run)
  pub streaming_tag_law :
      (t i : Bytes) → streaming_tag t i ≡ and_then (stream_strip t i) (λ r _. ok r t)
  pub streaming_take_while1_law :
      (f : ℕ → Bool) (i : Bytes)
      → streaming_take_while1 f i ≡ elim (skip_while f i) [
        | [] ↦ err incomplete
        | c ∷ cs ↦ non_empty (c ∷ cs) (take_while f i)
      ]
  pub streaming_take_until_law :
      (t i : Bytes)
      → streaming_take_until t i
        ≡ elim (before t i) [ none ↦ err incomplete | some b ↦ ok (drop (length b) i) b ]
  pub map_law :
      {A B : Type 0} (p : Parser A) (f : A → B) (i : Bytes)
      → map p f i ≡ and_then (p i) (λ r a. ok r (f a))
  pub map_opt_law :
      {A B : Type 0} (p : Parser A) (f : A → Option B) (i : Bytes)
      → map_opt p f i ≡ and_then (p i) (λ r a. from_option r (f a))
  pub opt_law :
      {A : Type 0} (p : Parser A) (i : Bytes)
      → opt p i ≡ or_else (and_then (p i) (λ r a. ok r (some a))) (ok i none)
  pub recognize_law :
      {A : Type 0} (p : Parser A) (i : Bytes)
      → recognize p i ≡ and_then (p i) (λ r _. ok r (consumed i r))
  pub verify_law :
      {A : Type 0} (p : Parser A) (f : A → Bool) (i : Bytes)
      → verify p f i ≡ and_then (p i) (λ r a. if f a then ok r a else err error)
  pub exact_law :
      {A : Type 0} (p : Parser A) (i : Bytes)
      → exact p i ≡ and_then (p i) (λ r a. elim r [ [] ↦ ok [] a | _ ∷ _ ↦ err error ])
  pub alt_law : {A : Type 0} (p q : Parser A) (i : Bytes) → alt p q i ≡ or_else (p i) (q i)
  pub pair_law :
      {A B : Type 0} (p : Parser A) (q : Parser B) (i : Bytes)
      → pair p q i ≡ and_then (p i) (λ r a. and_then (q r) (λ s b. ok s (a, b)))
  -- The results of fallible functions carry no error value here.
  pub map_res_law :
      {A B : Type 0} (p : Parser A) (f : A → Option B) (i : Bytes)
      → map_res p f i ≡ and_then (p i) (λ r a. from_option r (f a))
  pub preceded_law :
      {A B : Type 0} (p : Parser A) (q : Parser B) (i : Bytes)
      → preceded p q i ≡ and_then (p i) (λ r _. q r)
  pub terminated_law :
      {A B : Type 0} (p : Parser A) (q : Parser B) (i : Bytes)
      → terminated p q i ≡ and_then (p i) (λ r a. and_then (q r) (λ s _. ok s a))
  pub delimited_law :
      {A B C : Type 0} (p : Parser A) (q : Parser B) (t : Parser C) (i : Bytes)
      → delimited p q t i
        ≡ and_then (p i) (λ r _. and_then (q r) (λ s b. and_then (t s) (λ u _. ok u b)))
  pub separated_pair_law :
      {A B C : Type 0} (p : Parser A) (q : Parser B) (t : Parser C) (i : Bytes)
      → separated_pair p q t i
        ≡ and_then (p i) (λ r a. and_then (q r) (λ s _. and_then (t s) (λ u c. ok u (a, c))))
  pub many0_law : {A : Type 0} (p : Parser A) (i : Bytes) → many0 p i ≡ round i (p i) (many0 p)
  pub many1_law :
      {A : Type 0} (p : Parser A) (i : Bytes)
      → many1 p i ≡ and_then (p i) (λ r a. and_then (many0 p r) (λ s bs. ok s (a ∷ bs)))
  pub many_m_n_zero : {A : Type 0} (p : Parser A) (i : Bytes) → many_m_n zero zero p i ≡ ok i []
  pub many_m_n_suc :
      {A : Type 0} (m n : ℕ) (p : Parser A) (i : Bytes)
      → many_m_n (suc m) (suc n) p i
        ≡ and_then (p i) (λ r a.
          if ltb (length r) (length i)
          then and_then (many_m_n m n p r) (λ s bs. ok s (a ∷ bs))
          else err error)
  pub fold_many0_law :
      {A B : Type 0} (p : Parser A) (b : B) (f : B → A → B) (i : Bytes)
      → fold_many0 p b f i ≡ and_then (many0 p i) (λ r bs. ok r (foldl f b bs))
  pub fold_many1_law :
      {A B : Type 0} (p : Parser A) (b : B) (f : B → A → B) (i : Bytes)
      → fold_many1 p b f i ≡ and_then (many1 p i) (λ r bs. ok r (foldl f b bs))
  pub is_digit_law : (c : ℕ) → is_digit c ≡ within b'0' b'9' c
  pub is_alphanumeric_law :
      (c : ℕ) → is_alphanumeric c ≡ (within b'A' b'Z' c || within b'a' b'z' c || within b'0' b'9' c)
  pub is_hex_digit_law :
      (c : ℕ) → is_hex_digit c ≡ (within b'0' b'9' c || within b'A' b'F' c || within b'a' b'f' c)

-- The operations of the instance in scope, as the source names them.
module _ ⦃nom : Nom⦄ where
  abbrev pub tag : Bytes → Parser Bytes
  tag = nom.tag

  abbrev pub tag_no_case : Bytes → Parser Bytes
  tag_no_case = nom.tag_no_case

  abbrev pub take_bytes : ℕ → Parser Bytes
  take_bytes = nom.take_bytes

  abbrev pub take_while1 : (ℕ → Bool) → Parser Bytes
  take_while1 = nom.take_while1

  abbrev pub take_while_m_n : ℕ → ℕ → (ℕ → Bool) → Parser Bytes
  take_while_m_n = nom.take_while_m_n

  abbrev pub is_digit : ℕ → Bool
  is_digit = nom.is_digit

  abbrev pub is_alphanumeric : ℕ → Bool
  is_alphanumeric = nom.is_alphanumeric

  abbrev pub is_hex_digit : ℕ → Bool
  is_hex_digit = nom.is_hex_digit

module _ ⦃nom : Nom⦄ {A B : Type 0} where
  abbrev pub map : Parser A → (A → B) → Parser B
  map = nom.map

  abbrev pub map_opt : Parser A → (A → Option B) → Parser B
  map_opt = nom.map_opt

  abbrev pub map_res : Parser A → (A → Option B) → Parser B
  map_res = nom.map_res

  abbrev pub pair : Parser A → Parser B → Parser (A × B)
  pair = nom.pair

  abbrev pub preceded : Parser A → Parser B → Parser B
  preceded = nom.preceded

  abbrev pub terminated : Parser A → Parser B → Parser A
  terminated = nom.terminated

  abbrev pub fold_many0 : Parser A → B → (B → A → B) → Parser B
  fold_many0 = nom.fold_many0

  abbrev pub fold_many1 : Parser A → B → (B → A → B) → Parser B
  fold_many1 = nom.fold_many1

module _ ⦃nom : Nom⦄ {A : Type 0} where
  abbrev pub opt : Parser A → Parser (Option A)
  opt = nom.opt

  abbrev pub recognize : Parser A → Parser Bytes
  recognize = nom.recognize

  abbrev pub verify : Parser A → (A → Bool) → Parser A
  verify = nom.verify

  abbrev pub exact : Parser A → Parser A
  exact = nom.exact

  abbrev pub alt : Parser A → Parser A → Parser A
  alt = nom.alt

  abbrev pub many0 : Parser A → Parser (List A)
  many0 = nom.many0

  abbrev pub many1 : Parser A → Parser (List A)
  many1 = nom.many1

  abbrev pub many_m_n : ℕ → ℕ → Parser A → Parser (List A)
  many_m_n = nom.many_m_n

module _ ⦃nom : Nom⦄ {A B C : Type 0} where
  abbrev pub delimited : Parser A → Parser B → Parser C → Parser B
  delimited = nom.delimited

  abbrev pub separated_pair : Parser A → Parser B → Parser C → Parser (A × C)
  separated_pair = nom.separated_pair
