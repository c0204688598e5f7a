-- ===== src/Rfc5322/Addresses/Lists.antt =====
-- src/rfc5322.rs: the address lists of headers are read, in the behaviour `Intl`.
use rustyknife.External.{External}
use rustyknife.Nom.Rules.{Star, fold_prefix0-Many, tag-append}
use rustyknife.Nom.{Nom, ok, err, error, tag, opt, preceded}
use rustyknife.Prelude.{◌≡◌, refl, List, [], ◌∷◌, ◌++◌, Option, none, some, Bytes, codes, arith}
use rustyknife.Rfc5234.{crlf}
use rustyknife.Rfc5322.Addresses.Specs.{DotEnd}
use rustyknife.Rfc5322.Addresses.Groups.{address-run}
use rustyknife.Rfc5322.Addresses.Members.{DotEnd-commas, Many-commas}
use rustyknife.Rfc5322.Addresses.Texts.{AddressText, CommaText, HeaderEnd, input_end, line_end}
use rustyknife.Rfc5322.Addresses.{Address, address, address_list, address_list_crlf, from}
use rustyknife.Rfc5322.Comments.Gaps.{opt_cfws-blanks, opt_cfws-line_end}
use rustyknife.Rfc5322.Policy.{intl}

module _ ⦃nom : Nom⦄ where
  DotEnd-HeaderEnd : {i r : Bytes} → HeaderEnd i r → DotEnd i
  DotEnd-HeaderEnd input_end = (tt, tt, opt_cfws-blanks intl [] [] tt tt)
  DotEnd-HeaderEnd (line_end r n) =
      ((omega arith, refl), λ no. omega (arith, no), opt_cfws-line_end intl r n)

  no_comma : {i r : Bytes} → HeaderEnd i r → tag (codes ",") i ≡ err error
  no_comma input_end = rw nom.tag_law refl
  no_comma (line_end r n) = rw nom.tag_law refl

  line_end-run : {i r : Bytes} → HeaderEnd i r → (o : Option Bytes) × (opt crlf i ≡ ok r o)
  unfolding crlf
  line_end-run input_end = (none, rw (nom.opt_law, nom.tag_law) refl)
  line_end-run (line_end r n) =
      (some (codes "\r\n"), rw (nom.opt_law, tag-append (codes "\r\n") r) refl)

  module _ ⦃ext : External⦄ where
    address_list-run :
        {c cs i r : Bytes} {a : Address} {as' : List Address}
        → AddressText c a
        → Star (CommaText AddressText) cs as'
        → HeaderEnd i r
        → address_list intl (c ++ (cs ++ i)) ≡ ok i (a ∷ as')
    unfolding address_list
    address_list-run {c} {cs} {i} t ts e =
        let end = DotEnd-HeaderEnd e in
        fold_prefix0-Many (address intl) (preceded (tag (codes ",")) (address intl))
          {i = c ++ (cs ++ i)}
          (address-run (cs ++ i) t (DotEnd-commas (address intl) reads i ts end))
          (Many-commas (address intl) reads i ts end (no_comma e))
      where
        reads :
            (s c : Bytes) (a : Address)
            → AddressText c a
            → DotEnd s
            → address intl (c ++ s) ≡ ok s a
        reads s c a t e = address-run s t e

    -- The addresses of a header are read from their texts, with commas between them, in the
    -- international behaviour, and what is behind the end of the input or a line end that is not folded is left. An address is a mailbox or
    -- a group: a display name, a colon, mailboxes with commas between them or blanks only, and a
    -- semicolon. A mailbox is an address, or one in angle brackets, perhaps behind a display name;
    -- blanks may stand in front. Its two parts are atoms with dots between them, of the characters of
    -- an atom and those beyond ASCII, and the local part does not start as an encoded word does. A
    -- display name is such atoms, none of which starts as an encoded word does, with blanks between
    -- them and perhaps behind, and is returned with one space between two.
    pub from-AddressText :
        (c cs i r : Bytes) (a : Address) (as' : List Address)
        → AddressText c a
        → Star (CommaText AddressText) cs as'
        → HeaderEnd i r
        → from intl (c ++ (cs ++ i)) ≡ ok r (a ∷ as')
    unfolding from address_list_crlf
    from-AddressText c cs i r a as' t ts e =
        let (o, ended) = line_end-run e in
        rw (nom.terminated_law, address_list-run t ts e, ended) refl
