-- ===== src/Prelude/Utf8.antt =====
-- UTF-8 of single characters, and numbers in text, as the standard library reads and writes them.
-- A `char` is its code point.
use rustyknife.Prelude.Tests.{ltb, ◌==◌, within, if◌then◌else◌}
use rustyknife.Prelude.Text.{Bytes}
use Prim.Native.Nat.{ℕ, ◌+◌, ◌-◌, ◌*◌, ◌/◌, ◌%◌}
use mathlib.Core.Bool.{Bool, ◌&&◌}
use mathlib.Core.List.{List, [], ◌∷◌, ◌++◌}
use mathlib.Core.Option.{Option, none, some}

-- A continuation byte.
abbrev pub is_continuation : ℕ → Bool
is_continuation = within 0x80 0xbf

-- The second byte of a sequence of three or four: no overlong form, no surrogate, no value above
-- 0x10ffff.
abbrev pub second_of_3 : ℕ → ℕ → Bool
second_of_3 a b =
    if a == 0xe0
    then within 0xa0 0xbf b
    else if a == 0xed
    then within 0x80 0x9f b
    else within 0x80 0xbf b

abbrev pub second_of_4 : ℕ → ℕ → Bool
second_of_4 a b =
    if a == 0xf0
    then within 0x90 0xbf b
    else if a == 0xf4
    then within 0x80 0x8f b
    else within 0x80 0xbf b

abbrev pub guarded : Bool → ℕ → Option ℕ
guarded b n = if b then some n else none

-- `str::from_utf8(c).ok()`, where it holds exactly one character, and then that character.
unfoldable pub only_char : Bytes → Option ℕ
only_char (a ∷ []) = guarded (ltb a 0x80) a
only_char (a ∷ b ∷ []) =
    guarded (within 0xc2 0xdf a && is_continuation b) ((a - 0xc0) * 64 + (b - 0x80))
only_char (a ∷ b ∷ c ∷ []) =
    guarded (within 0xe0 0xef a && (second_of_3 a b && is_continuation c))
      ((a - 0xe0) * 4096 + (b - 0x80) * 64 + (c - 0x80))
only_char (a ∷ b ∷ c ∷ d ∷ []) =
    guarded (within 0xf0 0xf4 a && (second_of_4 a b && (is_continuation c && is_continuation d)))
      ((a - 0xf0) * 262144 + (b - 0x80) * 4096 + (c - 0x80) * 64 + (d - 0x80))
only_char _ = none

-- `char::encode_utf8`: what `String::push` appends.
unfoldable pub encode_utf8 : ℕ → Bytes
encode_utf8 c =
    if ltb c 0x80
    then c ∷ []
    else if ltb c 0x800
    then (c / 64 + 0xc0) ∷ (c % 64 + 0x80) ∷ []
    else if ltb c 0x1_0000
    then (c / 4096 + 0xe0) ∷ (c / 64 % 64 + 0x80) ∷ (c % 64 + 0x80) ∷ []
    else (c / 262144 + 0xf0) ∷ (c / 4096 % 64 + 0x80) ∷ (c / 64 % 64 + 0x80) ∷ (c % 64 + 0x80) ∷ []

-- `chars.into_iter().collect::<String>()`
abbrev pub collect : List ℕ → Bytes
collect [] = []
collect (c ∷ cs) = encode_utf8 c ++ collect cs

-- The loop of `str::parse` for an unsigned type: none on overflow.
unfoldable pub parse_digits : ℕ → ℕ → Bytes → Option ℕ
parse_digits limit acc [] = some acc
parse_digits limit acc (c ∷ cs) =
    let next = acc * 10 + (c - b'0') in
    let rest = parse_digits limit next cs in if ltb next limit then rest else none

-- `str::parse` on ASCII digits, for the unsigned type of the values below `limit`.
unfoldable pub parse_uint : ℕ → Bytes → Option ℕ
unfolding parse_digits
parse_uint limit [] = none
parse_uint limit (c ∷ cs) = parse_digits limit 0 (c ∷ cs)

-- The value of a hexadecimal digit.
unfoldable pub hex_value : ℕ → ℕ
hex_value c =
    if within b'0' b'9' c
    then c - b'0'
    else if within b'a' b'f' c
    then c - b'a' + 10
    else c - b'A' + 10

-- `u8::from_str_radix(_, 16)` on two hexadecimal digits.
unfoldable pub from_hex : Bytes → Option ℕ
unfolding hex_value
from_hex (a ∷ b ∷ []) = some (hex_value a * 16 + hex_value b)
from_hex _ = none

-- A number below 1000 in decimal, as `u8` is displayed.
unfoldable pub decimal : ℕ → Bytes
decimal n =
    if ltb n 10
    then (n + b'0') ∷ []
    else if ltb n 100
    then (n / 10 + b'0') ∷ (n % 10 + b'0') ∷ []
    else (n / 100 + b'0') ∷ (n / 10 % 10 + b'0') ∷ (n % 10 + b'0') ∷ []
