-- ===== src/Nom/Reference.antt =====
-- A value of the interface: its laws can be met together. The concrete examples run on it.
use rustyknife.Nom.Result.{
  Parser, ok, err, error, incomplete, and_then, or_else, from_option, take_while, skip_while, strip,
  no_case, stream_strip, before, non_empty, round, round_cong,
}
use rustyknife.Nom.Interface.{Nom, consumed}
use rustyknife.Prelude.{
  ℕ, zero, suc, ◌<◌, ◌≡◌, refl, true, false, List, [], ◌∷◌, foldl, none, some, Bytes, length, take,
  drop, ltb, to_ascii_lowercase, ◌==◌, within, ◌||◌, if◌then◌else◌, arith,
}

pub many : {A : Type 0} → ℕ → Parser A → Parser (List A)
many zero p i = err error
many (suc f) p i = round i (p i) (many f p)

abbrev many0 : {A : Type 0} → Parser A → Parser (List A)
many0 p i = many (suc (length i)) p i

many_fuel :
    {A : Type 0} (p : Parser A) (f g : ℕ) (i : Bytes)
    → length i < f
    → length i < g
    → many f p i ≡ many g p i
unfolding many
many_fuel p zero g i h k = absurd (omega arith)
many_fuel p (suc f) zero i h k = absurd (omega arith)
many_fuel p (suc f) (suc g) i h k =
    round_cong i (p i) (many f p) (many g p) (λ s lt. many_fuel p f g s (omega arith) (omega arith))

pub many0-round : {A : Type 0} (p : Parser A) (i : Bytes) → many0 p i ≡ round i (p i) (many0 p)
unfolding many
many0-round p i =
    round_cong i (p i) (many (length i) p) (many0 p)
      (λ s lt. many_fuel p (length i) (suc (length s)) s lt (omega arith))

pub many_m_n : {A : Type 0} → ℕ → ℕ → Parser A → Parser (List A)
many_m_n m zero p i = ok i []
many_m_n zero (suc n) p i = elim (p i) [
  | ok r a ↦ elim (ltb (length r) (length i)) [
    | true ↦ and_then (many_m_n zero n p r) (λ s as'. ok s (a ∷ as'))
    | false ↦ err error
  ]
  | err e ↦ or_else (err e) (ok i [])
]
many_m_n (suc m) (suc n) p i = elim (p i) [
  | ok r a ↦ elim (ltb (length r) (length i)) [
    | true ↦ and_then (many_m_n m n p r) (λ s as'. ok s (a ∷ as'))
    | false ↦ err error
  ]
  | err e ↦ err e
]

pub many_m_n-zero : {A : Type 0} (p : Parser A) (i : Bytes) → many_m_n zero zero p i ≡ ok i []
unfolding many_m_n
many_m_n-zero p i = refl

pub many_m_n-suc :
    {A : Type 0} (m n : ℕ) (p : Parser A) (i : Bytes)
    → many_m_n (suc m) (suc n) p i
      ≡ and_then (p i) (λ r a.
        if ltb (length r) (length i)
        then and_then (many_m_n m n p r) (λ s bs. ok s (a ∷ bs))
        else err error)
unfolding many_m_n
many_m_n-suc m n p i = ground arith

instance unfoldable pub reference : Nom
unfolding many many_m_n to_ascii_lowercase
reference = record {
  tag = λ t i. elim (strip ◌==◌ t i) [ none ↦ err error | some r ↦ ok r t ];
  tag_no_case =
      λ t i. elim (strip no_case t i) [ none ↦ err error | some r ↦ ok r (take (length t) i) ];
  take_bytes = λ n i. if ltb (length i) n then err error else ok (drop n i) (take n i);
  take_while1 = λ f i. non_empty (skip_while f i) (take_while f i);
  take_while_m_n = λ m n f i.
      let run = take n (take_while f i) in
      if ltb (length run) m then err error else ok (drop (length run) i) run;
  streaming_tag = λ t i. and_then (stream_strip t i) (λ r _. ok r t);
  streaming_take_while1 = λ f i. elim (skip_while f i) [
    | [] ↦ err incomplete
    | c ∷ cs ↦ non_empty (c ∷ cs) (take_while f i)
  ];
  streaming_take_until =
      λ t i. elim (before t i) [ none ↦ err incomplete | some b ↦ ok (drop (length b) i) b ];
  map = λ p f i. and_then (p i) (λ r a. ok r (f a));
  map_opt = λ p f i. and_then (p i) (λ r a. from_option r (f a));
  opt = λ p i. or_else (and_then (p i) (λ r a. ok r (some a))) (ok i none);
  recognize = λ p i. and_then (p i) (λ r _. ok r (consumed i r));
  verify = λ p f i. and_then (p i) (λ r a. if f a then ok r a else err error);
  exact = λ p i. and_then (p i) (λ r a. elim r [ [] ↦ ok [] a | _ ∷ _ ↦ err error ]);
  alt = λ p q i. or_else (p i) (q i);
  pair = λ p q i. and_then (p i) (λ r a. and_then (q r) (λ s b. ok s (a, b)));
  map_res = λ p f i. and_then (p i) (λ r a. from_option r (f a));
  preceded = λ p q i. and_then (p i) (λ r _. q r);
  terminated = λ p q i. and_then (p i) (λ r a. and_then (q r) (λ s _. ok s a));
  delimited =
      λ p q t i. and_then (p i) (λ r _. and_then (q r) (λ s b. and_then (t s) (λ u _. ok u b)));
  separated_pair = λ p q t i.
      and_then (p i) (λ r a. and_then (q r) (λ s _. and_then (t s) (λ u c. ok u (a, c))));
  many0 = many0;
  many1 = λ p i. and_then (p i) (λ r a. and_then (many0 p r) (λ s bs. ok s (a ∷ bs)));
  many_m_n = many_m_n;
  fold_many0 = λ p b f i. and_then (many0 p i) (λ r bs. ok r (foldl f b bs));
  fold_many1 = λ p b f i.
      and_then (and_then (p i) (λ r a. and_then (many0 p r) (λ s bs. ok s (a ∷ bs))))
        (λ r bs. ok r (foldl f b bs));
  is_digit = λ c. within b'0' b'9' c;
  is_alphanumeric = λ c. within b'A' b'Z' c || within b'a' b'z' c || within b'0' b'9' c;
  is_hex_digit = λ c. within b'0' b'9' c || within b'A' b'F' c || within b'a' b'f' c;
  tag_law = λ t i. refl;
  tag_no_case_law = λ t i. refl;
  take_bytes_law = λ n i. refl;
  take_while1_law = λ f i. refl;
  take_while_m_n_law = λ m n f i. refl;
  streaming_tag_law = λ t i. refl;
  streaming_take_while1_law = λ f i. refl;
  streaming_take_until_law = λ t i. refl;
  map_law = λ p f i. refl;
  map_opt_law = λ p f i. refl;
  opt_law = λ p i. refl;
  recognize_law = λ p i. refl;
  verify_law = λ p f i. refl;
  exact_law = λ p i. refl;
  alt_law = λ p q i. refl;
  pair_law = λ p q i. refl;
  map_res_law = λ p f i. refl;
  preceded_law = λ p q i. refl;
  terminated_law = λ p q i. refl;
  delimited_law = λ p q t i. refl;
  separated_pair_law = λ p q t i. refl;
  many0_law = many0-round;
  many1_law = λ p i. refl;
  many_m_n_zero = many_m_n-zero;
  many_m_n_suc = many_m_n-suc;
  fold_many0_law = λ p b f i. refl;
  fold_many1_law = λ p b f i. refl;
  is_digit_law = λ c. refl;
  is_alphanumeric_law = λ c. refl;
  is_hex_digit_law = λ c. refl;
}
