-- ===== src/Nom/Result.antt =====
-- Results of nom's parsers (`nom::IResult`), and what its documentation says of byte strings.
use rustyknife.Prelude.{
  ℕ, ◌<◌, ◌≡◌, Bool, true, false, ltb, List, [], ◌∷◌, Option, none, some, Bytes, length, ◌==◌,
  if◌then◌else◌, refl, Bool-cases, inl, inr, arith, to_ascii_lowercase,
}

-- `nom::Err`; the error value is `()` everywhere
pub data Err : Type 0 where
  incomplete error failure : Err

-- `NomResult`: the remaining input and the value, or an error
pub data IResult (A : Type 0) : Type 0 where
  ok : Bytes → A → IResult A
  err : Err → IResult A

abbrev pub Parser : Type 0 → Type 0
Parser A = Bytes → IResult A

abbrev pub and_then : {A B : Type 0} → IResult A → (Bytes → A → IResult B) → IResult B
and_then (ok r a) f = f r a
and_then (err e) f = err e

-- Recovery from `Err::Error`; the other errors pass.
abbrev pub or_else : {A : Type 0} → IResult A → IResult A → IResult A
or_else (ok r a) q = ok r a
or_else (err error) q = q
or_else (err incomplete) q = err incomplete
or_else (err failure) q = err failure

abbrev pub from_option : {A : Type 0} → Bytes → Option A → IResult A
from_option r none = err error
from_option r (some a) = ok r a

-- The longest prefix whose bytes meet the test, and the rest.
abbrev pub take_while : (ℕ → Bool) → Bytes → Bytes
take_while f [] = []
take_while f (c ∷ cs) = if f c then c ∷ take_while f cs else []

abbrev pub skip_while : (ℕ → Bool) → Bytes → Bytes
skip_while f [] = []
skip_while f (c ∷ cs) = if f c then skip_while f cs else c ∷ cs

-- The input behind a prefix that compares equal byte by byte.
abbrev pub strip : (ℕ → ℕ → Bool) → Bytes → Bytes → Option Bytes
strip same [] i = some i
strip same (t ∷ ts) [] = none
strip same (t ∷ ts) (c ∷ cs) = if same t c then strip same ts cs else none

abbrev pub no_case : ℕ → ℕ → Bool
no_case a b = to_ascii_lowercase a == to_ascii_lowercase b

-- Streaming `tag`: an input that ends inside the tag asks for more.
abbrev pub stream_strip : Bytes → Bytes → IResult (Unit {0})
stream_strip [] i = ok i tt
stream_strip (t ∷ ts) [] = err incomplete
stream_strip (t ∷ ts) (c ∷ cs) = if t == c then stream_strip ts cs else err error

-- What stands in front of the first occurrence of a byte string.
abbrev pub before : Bytes → Bytes → Option Bytes
before t [] = none
before t (c ∷ cs) = elim (strip ◌==◌ t (c ∷ cs)) [
  | some _ ↦ some []
  | none ↦ elim (before t cs) [ none ↦ none | some b ↦ some (c ∷ b) ]
]

abbrev pub non_empty : Bytes → Bytes → IResult Bytes
non_empty r [] = err error
non_empty r (c ∷ cs) = ok r (c ∷ cs)

-- The parser succeeds with the listed values, consuming input each time, and then fails.
pub data Many {A : Type 0} (p : Parser A) : Bytes → List A → Bytes → Type 0 where
  stop : {i : Bytes} → p i ≡ err error → Many p i [] i
  more :
      {i r last : Bytes} {a : A} {as' : List A}
      → p i ≡ ok r a
      → length r < length i
      → Many p r as' last
      → Many p i (a ∷ as') last

-- One round of `many0`: the parser's result, and what the later rounds give. A round that reads
-- nothing is an error.
abbrev pub round : {A : Type 0} → Bytes → IResult A → (Bytes → IResult (List A)) → IResult (List A)
round i (ok r a) rest = elim (ltb (length r) (length i)) [
  | true ↦ and_then (rest r) (λ s as'. ok s (a ∷ as'))
  | false ↦ err error
]
round i (err error) rest = ok i []
round i (err incomplete) rest = err incomplete
round i (err failure) rest = err failure

-- The later rounds matter at shorter inputs only.
pub round_cong :
    {A : Type 0} (i : Bytes) (x : IResult A) (rest rest' : Bytes → IResult (List A))
    → ((s : Bytes) → length s < length i → rest s ≡ rest' s)
    → round i x rest ≡ round i x rest'
round_cong i (ok r a) rest rest' h = elim (Bool-cases (ltb (length r) (length i))) [
  | inl lt ↦ rw (lt, round, h r (ground (arith, lt))) refl
  | inr no_progress ↦ rw (no_progress, round) refl
]
round_cong i (err error) rest rest' h = refl
round_cong i (err incomplete) rest rest' h = refl
round_cong i (err failure) rest rest' h = refl
