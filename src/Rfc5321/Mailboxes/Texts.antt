-- ===== src/Rfc5321/Mailboxes/Texts.antt =====
-- src/rfc5321.rs: what the round trip of mailboxes takes from a behaviour.
use rustyknife.Nom.{Nom, ok, err, error, tag}
use rustyknife.Prelude.{◌≡◌, ◌∷◌, ◌++◌, Bytes, codes}
use rustyknife.Rfc5321.Mailboxes.{atom, quoted_string}
use rustyknife.Rfc5321.Policy.{Utf8Policy}
use rustyknife.Types.{quoted_form}

-- The atoms, labels and quoted contents that a policy reads, and the texts at which it stops.
pub record Texts ⦃nom : Nom⦄ (P : Utf8Policy) : Type 1 where
  pub IsAtom : Bytes → Type 0
  pub AtomStops : Bytes → Type 0
  pub atom_run : (x r : Bytes) → IsAtom x → AtomStops r → atom P (x ++ r) ≡ ok r x
  pub atom_before_dot : (s : Bytes) → AtomStops (b'.' ∷ s)
  pub atom_before_at : (s : Bytes) → AtomStops (b'@' ∷ s)
  pub no_atom : (s : Bytes) → atom P (b'"' ∷ s) ≡ err error
  pub no_atom_close : (s : Bytes) → atom P (b'>' ∷ s) ≡ err error
  pub atom_not_at : (x s : Bytes) → IsAtom x → tag (codes "@") (x ++ s) ≡ err error
  pub IsLabel : Bytes → Type 0
  pub LabelStops : Bytes → Type 0
  pub label_run : (x r : Bytes) → IsLabel x → LabelStops r → P.sub_domain (x ++ r) ≡ ok r x
  pub label_before_dot : (s : Bytes) → LabelStops (b'.' ∷ s)
  pub label_before_close : (s : Bytes) → LabelStops (b'>' ∷ s)
  pub no_label : (s : Bytes) → P.sub_domain (b'[' ∷ s) ≡ err error
  pub IsQuoted : Bytes → Type 0
  pub quoted_run : (q r : Bytes) → IsQuoted q → quoted_string P (quoted_form q ++ r) ≡ ok r q
