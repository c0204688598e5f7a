-- ===== src/Rfc5321/Mailboxes/LiteralsRead.antt =====
-- src/rfc5321.rs: what the parsers of address literals and mailboxes return.
use rustyknife.External.{External}
use rustyknife.Nom.Rules.{
  AllOf, Yields, Yields-alt, Yields-map, Yields-map_res, Yields-pair, Yields-preceded,
  Yields-delimited, Yields-many_m_n, Yields-separated_pair,
}
use rustyknife.Nom.{Nom, ok}
use rustyknife.Prelude.{
  ℕ, zero, suc, ◌+◌, ◌*◌, ◌-◌, ◌≡◌, ◌<◌, ◌⊎◌, inl, inr, sym, subst, List, [], ◌∷◌, Bytes, some,
  arith, ltb, Bool-cases, Option, none,
}
use rustyknife.Prelude.Utf8.{parse_uint, parse_digits}
use rustyknife.Rfc5321.Mailboxes.IntlRead.{domain-Parts, local_part-IsLocal}
use rustyknife.Rfc5321.Mailboxes.IntlTexts.{intl_texts}
use rustyknife.Rfc5321.Mailboxes.RoundTrip.{IsLocal, IsDomainPart, labels, octets}
use rustyknife.Rfc5321.Mailboxes.{
  nth, ip_int, ipv4_literal, ipv6_literal, general_address_literal, inner_address_literal,
  address_literal, domain_part, mailbox,
}
use rustyknife.Rfc5321.Policy.{intl}
use rustyknife.Types.{AddressLiteral, ip, v6, tagged, DomainPart, address, Mailbox}

-- An address literal that is no IPv4 address.
pub data Other : DomainPart → Type 0 where
  of_ipv6 : (s : List ℕ) → Other (address (ip (v6 s)))
  of_tag : (t v : Bytes) → Other (address (tagged t v))

parse_digits-below :
    (limit acc : ℕ) (ds : Bytes) (n : ℕ)
    → acc < limit
    → parse_digits limit acc ds ≡ some n
    → n < limit
unfolding parse_digits
parse_digits-below limit acc [] n h e = subst (λ x. x < limit) (cc e) h
parse_digits-below limit acc (d ∷ ds) n h e =
    elim (Bool-cases (ltb (acc * 10 + (d - b'0')) limit)) [
      | inl y ↦
          parse_digits-below limit (acc * 10 + (d - b'0')) ds n (ground (arith, y)) (rw y at e)
      | inr y ↦ absurd (cc (rw y at e))
    ]

octet-below : (ds : Bytes) (n : ℕ) → parse_uint 0x100 ds ≡ some n → n < 256
unfolding parse_uint
octet-below [] n e = absurd (cc e)
octet-below (d ∷ ds) n e = parse_digits-below 256 0 (d ∷ ds) n (omega arith) e

abbrev Octet : ℕ → Type 0
Octet n = n < 256

nth-Octet : (bs : List ℕ) (i : ℕ) → AllOf Octet bs → Octet (nth bs i)
nth-Octet [] i h = omega arith
nth-Octet (b ∷ bs) zero h = h.0
nth-Octet (b ∷ bs) (suc i) h = nth-Octet bs i h.1

module _ ⦃nom : Nom⦄ where
  ip_int-Octet : Yields ip_int Octet
  unfolding ip_int
  ip_int-Octet = Yields-map_res _ Octet (parse_uint 0x100) octet-below

  module _ ⦃ext : External⦄ where
    abbrev pub Known : DomainPart → Type 0
    Known dp = IsDomainPart intl_texts dp ⊎ Other dp

    abbrev KnownLiteral : AddressLiteral → Type 0
    KnownLiteral l = Known (address l)

    ipv4_literal-Known : Yields ipv4_literal KnownLiteral
    unfolding ipv4_literal
    ipv4_literal-Known =
        Yields-map _ KnownLiteral
          (Yields-pair _ _ ip_int-Octet (Yields-many_m_n _ 3 (Yields-preceded _ _ ip_int-Octet))) _
          (λ (a, bs) (ha, h). inl (
            octets a (nth bs 0) (nth bs 1) (nth bs 2) ha (nth-Octet bs 0 h) (nth-Octet bs 1 h)
              (nth-Octet bs 2 h)))

    some_ipv6 :
        (o : Option (List ℕ)) (l : AddressLiteral)
        → elim o [ none ↦ none | some s ↦ some (ip (v6 s)) ] ≡ some l
        → KnownLiteral l
    some_ipv6 none l e = absurd (cc e)
    some_ipv6 (some s) l e =
        let same : ip (v6 s) ≡ l = cc e in subst KnownLiteral same (inr (of_ipv6 s))

    ipv6_literal-Known : Yields ipv6_literal KnownLiteral
    unfolding ipv6_literal
    ipv6_literal-Known =
        Yields-map_res _ KnownLiteral _ (λ text l e. some_ipv6 (ext.ipv6_from_str text) l e)

    general_address_literal-Known : Yields general_address_literal KnownLiteral
    unfolding general_address_literal
    general_address_literal-Known =
        Yields-map _ {P = λ _. Unit {0}} KnownLiteral (λ _ _ _ _. tt) _
          (λ (t, v) h. inr (of_tag t v))

    domain_part-Known : Yields (domain_part intl) Known
    unfolding domain_part address_literal inner_address_literal
    domain_part-Known =
        Yields-alt _ _
          (Yields-map _ Known domain-Parts DomainPart.domain (λ d (l, ls, e, hl, h). inl (
            subst (λ d. IsDomainPart intl_texts (DomainPart.domain d)) (sym e) (labels l ls hl h))))
          (Yields-map _ Known
            (Yields-delimited _ _ _ (
              Yields-alt _ _ ipv4_literal-Known
                (Yields-alt _ _ ipv6_literal-Known general_address_literal-Known)))
            address (λ l h. h))

    -- A mailbox with a well-formed local part and domain, or with an address literal.
    abbrev pub WellFormed : Mailbox → Type 0
    WellFormed m = IsLocal intl_texts m.local_part × Known m.domain_part

    -- Every mailbox that is read in the behaviour `Intl` is well formed: its local part is atoms with
    -- dots between them or printable ASCII and characters beyond ASCII in quotes, its domain part
    -- labels that the crate `idna` takes with dots between them, or an address literal, of octets
    -- below 256 where it is an IPv4 address.
    pub mailbox-WellFormed : (i r : Bytes) (m : Mailbox) → mailbox intl i ≡ ok r m → WellFormed m
    unfolding mailbox
    mailbox-WellFormed =
        Yields-map _ WellFormed (Yields-separated_pair _ _ _ local_part-IsLocal domain_part-Known) _
          (λ lpdp h. h)
