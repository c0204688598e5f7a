-- ===== src/Rfc5321/Mailboxes/Unquote.antt =====
-- src/rfc5321.rs: taking the quotes off a local part.
use rustyknife.Nom.{Nom, Parser, IResult, ok, err, consumed, recognize}
use rustyknife.Prelude.{◌≡◌, ◌≢◌, refl, ap, ◌⊎◌, inl, inr, [], ◌∷◌, Bytes, take-all, arith}
use rustyknife.Nom.Rules.{and_then-ok}
use rustyknife.Rfc5321.Mailboxes.{dot_string, smtp_try_unquote}
use rustyknife.Rfc5321.Policy.{Utf8Policy}
use rustyknife.Types.{DotAtom, QuotedString, dot_atom, quoted}

module _ ⦃nom : Nom⦄ (P : Utf8Policy) where
  recognize-ok :
      {A : Type 0} {p : Parser A} (i r a : Bytes)
      → recognize p i ≡ ok r a
      → (t : Bytes) × (c : A) × (p i ≡ ok t c) × (ok t (consumed i t) ≡ ok r a)
  recognize-ok {p} i r a e =
      and_then-ok (p i) (λ r _. ok r (consumed i r)) (rw nom.recognize_law at e)

  -- The parser of dot strings returns all of an input that it reads to the end.
  dot_string-whole : (i a : Bytes) → dot_string P i ≡ ok [] a → a ≡ i
  unfolding dot_string
  dot_string-whole i a e =
      let (s, b, e', h) = and_then-ok (recognize _ i) _ (rw nom.map_law at e) in
      let (t, c, e'', h') = recognize-ok i s b e' in
      let here : ok t (consumed i t) ≡ ok s b = h' in
      let nothing_left : t ≡ [] = cc (h, here) in
      let all_of_it : consumed i t ≡ i = rw nothing_left (take-all _ i (omega arith)) in
      cc (h, here, all_of_it)

  -- A quoted local part loses its quotes exactly where all of its content is a dot string; it then
  -- is that content, and it stays as it is everywhere else.
  pub smtp_try_unquote-quoted :
      (q : QuotedString)
      → ((dot_string P q ≡ ok [] q) × (smtp_try_unquote P (quoted q) ≡ dot_atom q))
        ⊎ ((dot_string P q ≢ ok [] q) × (smtp_try_unquote P (quoted q) ≡ quoted q))
  unfolding smtp_try_unquote
  smtp_try_unquote-quoted q = go (dot_string P q) refl
    where
      go :
          (x : IResult DotAtom)
          → dot_string P q ≡ x
          → ((dot_string P q ≡ ok [] q) × (smtp_try_unquote P (quoted q) ≡ dot_atom q))
            ⊎ ((dot_string P q ≢ ok [] q) × (smtp_try_unquote P (quoted q) ≡ quoted q))
      go (ok [] a) e =
          let same = dot_string-whole q a e in
          inl (rw same at e, rw (smtp_try_unquote, e) (ap dot_atom same))
      go (ok (c ∷ r) a) e = inr (λ x. absurd (cc (x, e)), rw (smtp_try_unquote, e) refl)
      go (err f) e = inr (λ x. absurd (cc (x, e)), rw (smtp_try_unquote, e) refl)
