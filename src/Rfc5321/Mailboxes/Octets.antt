-- ===== src/Rfc5321/Mailboxes/Octets.antt =====
-- src/rfc5321.rs and src/types.rs: IPv4 literals are read back as they are displayed.
use rustyknife.External.{External}
use rustyknife.Nom.{Nom, and_then, ok, take_while_m_n, is_digit, many_m_n, preceded, tag}
use rustyknife.Nom.Rules.{Stops, take_while_m_n-run, Every-is_digit}
use rustyknife.Prelude.{
  ℕ, ◌≡◌, ◌<◌, refl, true, false, [], ◌∷◌, ◌++◌, Bytes, some, codes, within, ltb, Every, length,
  suc, ◌≤◌, append_assoc, arith, length-append,
}
use rustyknife.Prelude.Utf8.{decimal, parse_uint, parse_digits}
use rustyknife.Rfc5321.Mailboxes.{ip_int, ipv4_literal, inner_address_literal, address_literal}
use rustyknife.Types.{ip, v4, display_ipv4, display_address_literal}

-- No digit comes first.
abbrev pub NoDigit : Bytes → Type 0
NoDigit [] = Unit {0}
NoDigit (c ∷ cs) = within b'0' b'9' c ≡ false

parse_uint-decimal : (n : ℕ) → n < 256 → parse_uint 256 (decimal n) ≡ some n
unfolding parse_uint parse_digits decimal
parse_uint-decimal n h = ground (arith, h)

-- One to three digits.
abbrev Digits : Bytes → Type 0
Digits ds = Every (within b'0' b'9') ds × (1 ≤ length ds) × (length ds ≤ 3)

decimal-Digits : (n : ℕ) → n < 256 → Digits (decimal n)
unfolding decimal
decimal-Digits n h = ground (arith, h)

module _ ⦃nom : Nom⦄ where
  octet_text :
      (ds r : Bytes)
      → Digits ds
      → Stops is_digit r
      → take_while_m_n 1 3 is_digit (ds ++ r) ≡ ok r ds
  octet_text ds r h st = take_while_m_n-run is_digit 1 3 ds r (Every-is_digit ds h.0) st h.1 h.2

  ip_int-decimal :
      (n : ℕ) (r : Bytes) → n < 256 → Stops is_digit r → ip_int (decimal n ++ r) ≡ ok r n
  unfolding ip_int
  ip_int-decimal n r h e =
      rw (nom.map_res_law, octet_text (decimal n) r (decimal-Digits n h) e, parse_uint-decimal n h)
        refl

  dot-Stops : is_digit b'.' ≡ false
  dot-Stops = nom.is_digit_law b'.'

  shorter : (b : ℕ) (s : Bytes) → ltb (length s) (length (b'.' ∷ (decimal b ++ s))) ≡ true
  shorter b s = ground (arith, length-append (decimal b) s)

  next_octet :
      (m b : ℕ) (s : Bytes)
      → b < 256
      → Stops is_digit s
      → many_m_n (suc m) (suc m) (preceded (tag (codes ".")) ip_int) (b'.' ∷ (decimal b ++ s))
        ≡ and_then (many_m_n m m (preceded (tag (codes ".")) ip_int) s) (λ u bs. ok u (b ∷ bs))
  next_octet m b s h e =
      rw (nom.many_m_n_suc, nom.preceded_law, nom.tag_law, ip_int-decimal b s h e, shorter b s) refl

  ipv4_literal-display_ipv4 :
      (a b c d : ℕ) (r : Bytes)
      → a < 256
      → b < 256
      → c < 256
      → d < 256
      → Stops is_digit r
      → ipv4_literal (display_ipv4 a b c d ++ r) ≡ ok r (ip (v4 a b c d))
  unfolding ipv4_literal display_ipv4
  ipv4_literal-display_ipv4 a b c d r ha hb hc hd e =
      rw
        (
          append_assoc,
          append_assoc,
          append_assoc,
          nom.map_law,
          nom.pair_law,
          ip_int-decimal a _ ha dot-Stops,
          next_octet 2 b _ hb dot-Stops,
          next_octet 1 c _ hc dot-Stops,
          next_octet 0 d _ hd e,
          nom.many_m_n_zero,
        )
        refl

  -- The literal of an IPv4 address of four octets is read back from its display form, whatever
  -- follows the closing bracket.
  pub address_literal-display_address_literal :
      ⦃ext : External⦄
      → (a b c d : ℕ) (r : Bytes) → a < 256
      → b < 256
      → c < 256
      → d < 256
      → address_literal (display_address_literal (ip (v4 a b c d)) ++ r) ≡ ok r (ip (v4 a b c d))
  unfolding address_literal inner_address_literal display_address_literal
  address_literal-display_address_literal a b c d r ha hb hc hd =
      rw
        (
          append_assoc,
          nom.delimited_law,
          nom.tag_law,
          nom.alt_law,
          ipv4_literal-display_ipv4 a b c d _ ha hb hc hd (nom.is_digit_law b']'),
          nom.tag_law,
        )
        refl
