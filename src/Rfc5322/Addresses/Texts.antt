-- ===== src/Rfc5322/Addresses/Texts.antt =====
-- src/rfc5322.rs: texts of addresses, without quoted strings, encoded words, literals and comments.
use rustyknife.Nom.Rules.{Star, AllOf}
use rustyknife.Nom.{strip}
use rustyknife.Prelude.{ℕ, ◌≡◌, ◌≢◌, ◌==◌, List, [], ◌∷◌, ◌++◌, none, some, Bytes, codes, Every}
use rustyknife.Prelude.Utf8.{collect}
use rustyknife.Rfc5234.Blanks.{is_blank, NoBlank}
use rustyknife.Rfc5322.Addresses.{Mailbox, Address, mailbox_address, group_address}
use rustyknife.Rfc5322.Policy.Chars.{CharOf}
use rustyknife.Rfc5322.Policy.{is_atext}
use rustyknife.Types
use rustyknife.Types.{LocalPart, DomainPart}

-- Characters of an atom, one at the least: ASCII ones of the class, and all others.
abbrev pub IsAtom : Bytes → Type 0
IsAtom x = (c : ℕ) × (cs : List ℕ) × (x ≡ collect (c ∷ cs)) × AllOf (CharOf is_atext) (c ∷ cs)

-- No encoded word starts here.
abbrev pub NotEncoded : Bytes → Type 0
NotEncoded x = strip ◌==◌ (codes "=?") x ≡ none

abbrev pub IsWord : Bytes → Type 0
IsWord x = IsAtom x × NotEncoded x

-- Atoms with dots between them.
pub data Dotted : Bytes → Type 0 where
  one_atom : {a : Bytes} → IsAtom a → Dotted a
  dotted : (a d : Bytes) → IsAtom a → Dotted d → Dotted (a ++ (b'.' ∷ d))

-- The words of a display name, with blanks between them and perhaps behind.
pub data NameText : Bytes → List Bytes → Type 0 where
  last_word : (a w : Bytes) → IsWord a → Every is_blank w → NameText (a ++ w) (a ∷ [])
  next_word :
      (a w : Bytes) {c : Bytes} {as' : List Bytes}
      → IsWord a
      → Every is_blank w
      → w ≢ []
      → NameText c as'
      → NameText (a ++ (w ++ c)) (a ∷ as')

-- The words with one space between them.
abbrev pub joined : List Bytes → Bytes
joined [] = []
joined (a ∷ []) = a
joined (a ∷ b ∷ as') = a ++ (b' ' ∷ joined (b ∷ as'))

pub data AddrText : Bytes → Types.Mailbox → Type 0 where
  addr_text :
      (l d : Bytes)
      → Dotted l
      → NotEncoded l
      → Dotted d
      → AddrText
          (l ++ (b'@' ∷ d))
          (record { local_part = LocalPart.dot_atom l; domain_part = DomainPart.domain d })

-- An address, perhaps in angle brackets, then perhaps behind a display name.
pub data MailboxText : Bytes → Mailbox → Type 0 where
  bare_text :
      (w c : Bytes) {m : Types.Mailbox}
      → Every is_blank w
      → AddrText c m
      → MailboxText (w ++ c) (record { dname = none; address = m })
  angle_text :
      (w c : Bytes) {m : Types.Mailbox}
      → Every is_blank w
      → AddrText c m
      → MailboxText (w ++ (b'<' ∷ (c ++ codes ">"))) (record { dname = none; address = m })
  named_text :
      (w n c : Bytes) {ns : List Bytes} {m : Types.Mailbox}
      → Every is_blank w
      → NameText n ns
      → AddrText c m
      → MailboxText
          (w ++ (n ++ (b'<' ∷ (c ++ codes ">"))))
          (record { dname = some (joined ns); address = m })

-- A comma and a text.
pub data CommaText {A : Type 0} (G : Bytes → A → Type 0) : Bytes → A → Type 0 where
  comma_text : (c : Bytes) {a : A} → G c a → CommaText G (b',' ∷ c) a

-- A mailbox, or a group without members or with some.
pub data AddressText : Bytes → Address → Type 0 where
  single_text : (c : Bytes) {m : Mailbox} → MailboxText c m → AddressText c (mailbox_address m)
  empty_group :
      (w n w' : Bytes) {ns : List Bytes}
      → Every is_blank w
      → NameText n ns
      → Every is_blank w'
      → AddressText
          (w ++ (n ++ (b':' ∷ (w' ++ codes ";"))))
          (group_address (record { dname = joined ns; members = [] }))
  full_group :
      (w n c cs : Bytes) {ns : List Bytes} {m : Mailbox} {ms : List Mailbox}
      → Every is_blank w
      → NameText n ns
      → MailboxText c m
      → Star (CommaText MailboxText) cs ms
      → AddressText
          (w ++ (n ++ (b':' ∷ (c ++ (cs ++ codes ";")))))
          (group_address (record { dname = joined ns; members = m ∷ ms }))

-- The end of the header: of the input, or a line end that is not folded, and what is behind it.
pub data HeaderEnd : Bytes → Bytes → Type 0 where
  input_end : HeaderEnd [] []
  line_end : (r : Bytes) → NoBlank r → HeaderEnd (codes "\r\n" ++ r) r
