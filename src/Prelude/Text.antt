-- ===== src/Prelude/Text.antt =====
-- Byte strings, and what the standard library does with them. A `String` of the source is the list
-- of its UTF-8 bytes.
use Prim.Native.Char.{code}
use Prim.Native.Nat.{ℕ, ◌+◌}
use Prim.Native.String.{String}
use mathlib.Core.Bool.{Bool, true, false, ◌&&◌}
use mathlib.Core.List.{List, [], ◌∷◌}
use mathlib.Core.Path.{◌≡◌, refl}
use native.Mathlib.Omega.{arith}
use rustyknife.Prelude.Tests.{◌==◌, within, if◌then◌else◌}

abbrev pub Bytes : Type 0
Bytes = List ℕ

-- The bytes of an ASCII literal.
abbrev pub codes : String → Bytes
codes String.[] = []
codes (String.◌∷◌ c s) = code c ∷ codes s

-- `u8::to_ascii_lowercase`
unfoldable pub to_ascii_lowercase : ℕ → ℕ
to_ascii_lowercase c = if within b'A' b'Z' c then c + 32 else c

abbrev pub lowercase : Bytes → Bytes
lowercase [] = []
lowercase (c ∷ cs) = to_ascii_lowercase c ∷ lowercase cs

-- `==` on byte strings
abbrev pub equal : Bytes → Bytes → Bool
equal [] [] = true
equal (x ∷ xs) (y ∷ ys) = x == y && equal xs ys
equal _ _ = false

-- `eq_ignore_ascii_case`
abbrev pub eq_ignore_ascii_case : Bytes → Bytes → Bool
eq_ignore_ascii_case a b = equal (lowercase a) (lowercase b)

-- `slice.contains(&c)`
abbrev pub contains : ℕ → Bytes → Bool
contains c [] = false
contains c (x ∷ xs) = if c == x then true else contains c xs

pub equal→eq : (a b : Bytes) → equal a b ≡ true → a ≡ b
equal→eq [] [] h = refl
equal→eq (x ∷ a) (y ∷ b) h = ground (arith, equal→eq a b)
equal→eq [] (y ∷ b) h = absurd (cc h)
equal→eq (x ∷ a) [] h = absurd (cc h)

pub equal_refl : (a : Bytes) → equal a a ≡ true
equal_refl [] = refl
equal_refl (x ∷ a) = ground (arith, equal_refl a)
