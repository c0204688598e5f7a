-- ===== src/Rfc5321/Commands/ChunkSize.antt =====
-- src/rfc5321.rs: the size in a BDAT command.
use rustyknife.Nom.Rules.{Stops, take_while_m_n-run, Every-is_digit}
use rustyknife.Nom.{Nom, ok, err, error, is_digit, from_option}
use rustyknife.Prelude.{
  ℕ, ◌^◌, ◌*◌, ◌+◌, ◌-◌, ◌≡◌, ◌≤◌, ◌<◌, [], ◌∷◌, ◌++◌, some, none, Bytes, length, within, ltb,
  Every, arith, if◌then◌else◌, Bool-cases, inl, inr,
}
use rustyknife.Prelude.Utf8.{parse_uint, parse_digits}
use rustyknife.Rfc5321.Commands.{bdat_chunk_size}

-- The number that the digits mean, `acc` standing in front of them.
abbrev pub value_from : ℕ → Bytes → ℕ
value_from acc [] = acc
value_from acc (c ∷ cs) = value_from (acc * 10 + (c - b'0')) cs

value_from-grows : (acc : ℕ) (cs : Bytes) → acc ≤ value_from acc cs
value_from-grows acc [] = omega arith
value_from-grows acc (c ∷ cs) = omega (arith, value_from-grows (acc * 10 + (c - b'0')) cs)

-- Some digits in front of the last overflow only if the number does.
parse_digits-value_from :
    (limit : ℕ) (cs : Bytes) (acc : ℕ)
    → acc < limit
    → parse_digits limit acc cs
      ≡ (if ltb (value_from acc cs) limit then some (value_from acc cs) else none)
unfolding parse_digits
parse_digits-value_from limit [] acc h = ground (arith, h)
parse_digits-value_from limit (c ∷ cs) acc h =
    elim (Bool-cases (ltb (acc * 10 + (c - b'0')) limit)) [
      | inl y ↦
          rw (y, if◌then◌else◌)
            (parse_digits-value_from limit cs (acc * 10 + (c - b'0')) (ground (arith, y)))
      | inr n ↦
          rw (n, if◌then◌else◌) (ground (arith, n, value_from-grows (acc * 10 + (c - b'0')) cs))
    ]

parse_uint-value_from :
    (ds : Bytes)
    → 1 ≤ length ds
    → parse_uint (2 ^ 64) ds
      ≡ (if ltb (value_from 0 ds) (2 ^ 64) then some (value_from 0 ds) else none)
unfolding parse_uint
parse_uint-value_from [] h = absurd (omega (arith, h))
parse_uint-value_from (d ∷ ds) h = parse_digits-value_from (2 ^ 64) (d ∷ ds) 0 (omega arith)

from_option-guarded :
    (r : Bytes) (b n : ℕ)
    → from_option r (if ltb n b then some n else none) ≡ (if ltb n b then ok r n else err error)
from_option-guarded r b n = ground arith

-- One digit and at most 20.
abbrev pub IsSize : Bytes → Type 0
IsSize ds = Every (within b'0' b'9') ds × (1 ≤ length ds) × (length ds ≤ 20)

module _ ⦃nom : Nom⦄ where
  -- The digits of a chunk size, one at the least and at most twenty, are read as the number that
  -- they mean if it is below 2 ^ 64, and are an error if it is not. No digit follows them.
  pub bdat_chunk_size-value_from :
      (ds r : Bytes)
      → IsSize ds
      → Stops is_digit r
      → bdat_chunk_size (ds ++ r)
        ≡ (if ltb (value_from 0 ds) (2 ^ 64) then ok r (value_from 0 ds) else err error)
  unfolding bdat_chunk_size parse_uint
  bdat_chunk_size-value_from ds r h st =
      rw
        (
          nom.map_res_law,
          take_while_m_n-run is_digit 1 20 ds r (Every-is_digit ds h.0) st h.1 h.2,
          parse_uint-value_from ds h.1,
        )
        (from_option-guarded r (2 ^ 64) (value_from 0 ds))
