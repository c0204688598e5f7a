-- ===== src/Tests/AddressLists.antt =====
-- The lists of addresses of src/rfc5322.rs at inputs.
use rustyknife.Nom.Reference.{reference}
use rustyknife.Nom.Rules.{AllOf, Star, none_left, one_more}
use rustyknife.Nom.{ok}
use rustyknife.Prelude.{
  ◌≡◌, ◌<◌, refl, ap, sym, ◌∙◌, inl, List, [], ◌∷◌, ◌++◌, none, some, Bytes, codes, Every,
  Every-all, arith,
}
use rustyknife.Prelude.Utf8.{collect}
use rustyknife.Rfc5322.Addresses.Lists.{from-AddressText}
use rustyknife.Rfc5322.Addresses.Texts.{
  IsAtom, IsWord, one_atom, dotted, last_word, next_word, AddrText, addr_text, bare_text,
  angle_text, named_text, CommaText, comma_text, AddressText, single_text, empty_group, full_group,
  line_end,
}
use rustyknife.Rfc5322.Addresses.{Mailbox, Address, mailbox_address, group_address, from}
use rustyknife.Rfc5322.Policy.Chars.{CharOf, encode_utf8-ascii}
use rustyknife.Rfc5322.Policy.{is_atext, intl}
use rustyknife.Tests.Samples.{plain}
use rustyknife.Types
use rustyknife.Types.{LocalPart, DomainPart}

collect-atext : (x : Bytes) → Every is_atext x → (x ≡ collect x) × AllOf (CharOf is_atext) x
collect-atext [] h = (refl, tt)
collect-atext (c ∷ x) h =
    let low : c < 0x80 = ground (arith, h.0) in
    let (e, all) = collect-atext x h.1 in
    (
      ap (λ z. c ∷ z) e ∙ ap (λ z. z ++ collect x) (sym (encode_utf8-ascii c low)),
      (inl (low, h.0), all),
    )

-- Bytes of the class make an atom.
ascii-IsAtom : (c : _) (x : Bytes) → Every is_atext (c ∷ x) → IsAtom (c ∷ x)
ascii-IsAtom c x h = let (e, all) = collect-atext (c ∷ x) h in (c, x, e, all)

abbrev bob_at_x : Types.Mailbox
bob_at_x = record {
  local_part = LocalPart.dot_atom (codes "bob");
  domain_part = DomainPart.domain (codes "x.org");
}

bob_text : AddrText (codes "bob@x.org") bob_at_x
bob_text =
    addr_text (codes "bob") (codes "x.org")
      (one_atom (ascii-IsAtom b'b' (codes "ob") (Every-all is_atext (codes "bob") refl))) refl
      (dotted (codes "x") (codes "org") (ascii-IsAtom b'x' [] (refl, tt))
        (one_atom (ascii-IsAtom b'o' (codes "rg") (Every-all is_atext (codes "org") refl))))

bob-IsWord : IsWord (codes "Bob")
bob-IsWord = (ascii-IsAtom b'B' (codes "ob") (Every-all is_atext (codes "Bob") refl), refl)

smith-IsWord : IsWord (codes "Smith")
smith-IsWord = (ascii-IsAtom b'S' (codes "mith") (Every-all is_atext (codes "Smith") refl), refl)

abbrev named : Mailbox
named = record { dname = some (codes "Bob Smith"); address = bob_at_x }

abbrev unnamed : Mailbox
unnamed = record { dname = none; address = bob_at_x }

named_bob : AddressText (codes "Bob\t Smith <bob@x.org>") (mailbox_address named)
named_bob = single_text (codes "Bob\t Smith <bob@x.org>") (
    named_text [] (codes "Bob\t Smith ") (codes "bob@x.org") tt
      (next_word (codes "Bob") (codes "\t ") bob-IsWord (refl, (refl, tt)) (λ no. cc no)
        (last_word (codes "Smith") (codes " ") smith-IsWord (refl, tt)))
      bob_text)

nobody :
    AddressText (codes " Smith: ;") (group_address (record { dname = codes "Smith"; members = [] }))
nobody =
    empty_group (codes " ") (codes "Smith") (codes " ") (refl, tt)
      (last_word (codes "Smith") [] smith-IsWord tt) (refl, tt)

two_bobs :
    AddressText
      (codes "Bob:bob@x.org, <bob@x.org>;")
      (group_address (record { dname = codes "Bob"; members = unnamed ∷ unnamed ∷ [] }))
two_bobs =
    full_group [] (codes "Bob") (codes "bob@x.org") (codes ", <bob@x.org>") tt
      (last_word (codes "Bob") [] bob-IsWord tt) (bare_text [] (codes "bob@x.org") tt bob_text)
      (one_more {c = codes ", <bob@x.org>"}
        (comma_text (codes " <bob@x.org>")
          (angle_text (codes " ") (codes "bob@x.org") (refl, tt) bob_text))
        none_left)

abbrev others : List Address
others =
    group_address (record { dname = codes "Smith"; members = [] })
    ∷ group_address (record { dname = codes "Bob"; members = unnamed ∷ unnamed ∷ [] })
    ∷ []

others_text : Star (CommaText AddressText) (codes ", Smith: ;,Bob:bob@x.org, <bob@x.org>;") others
others_text = one_more {c = codes ", Smith: ;"} (comma_text (codes " Smith: ;") nobody) (
    one_more {c = codes ",Bob:bob@x.org, <bob@x.org>;"}
      (comma_text (codes "Bob:bob@x.org, <bob@x.org>;") two_bobs) none_left)

from-AddressText_example :
    from intl (
      codes "Bob\t Smith <bob@x.org>"
      ++ (codes ", Smith: ;,Bob:bob@x.org, <bob@x.org>;" ++ codes "\r\nX"))
    ≡ ok (codes "X") (mailbox_address named ∷ others)
from-AddressText_example =
    from-AddressText (codes "Bob\t Smith <bob@x.org>")
      (codes ", Smith: ;,Bob:bob@x.org, <bob@x.org>;") (codes "\r\nX") (codes "X")
      (mailbox_address named) others named_bob others_text (line_end (codes "X") refl)
