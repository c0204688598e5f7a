-- ===== src/Rfc5322/Addresses/Complete.antt =====
-- src/rfc5322.rs: addresses are read from their texts, in the behaviour `Intl`.
use rustyknife.External.{External}
use rustyknife.Nom.Rules.{strip-weaken}
use rustyknife.Nom.{Nom, ok, err, error}
use rustyknife.Prelude.{
  ℕ, ◌≡◌, ◌≢◌, refl, ap, sym, ◌∙◌, true, List, [], ◌∷◌, ◌++◌, Bytes, codes, Every, arith,
  append_assoc, append-nil, subst,
}
use rustyknife.Rfc5234.Blanks.{is_blank}
use rustyknife.Rfc5322.Addresses.Texts.{
  NotEncoded, Dotted, one_atom, dotted, NameText, last_word, addr_text, MailboxText, bare_text,
  angle_text, named_text,
}
use rustyknife.Rfc5322.Addresses.Words.{NoWord, no_word, display_name-run}
use rustyknife.Rfc5322.Addresses.{Mailbox, angle_addr, name_addr, mailbox}
use rustyknife.Rfc5322.Comments.Gaps.{opt_cfws-blanks}
use rustyknife.Rfc5322.Policy.{intl}
use rustyknife.Rfc5322.Words.{display_name}
use rustyknife.Rfc5322.Addresses.Specs.{is_mark, DotEnd, no_tag, addr_spec-run, angle_addr-run}

module _ ⦃nom : Nom⦄ where
  module _ ⦃ext : External⦄ where
    -- No angle bracket comes.
    pub no_angle :
        (w : Bytes) (c : ℕ) (s : Bytes)
        → Every is_blank w
        → is_mark c ≡ true
        → c ≢ b'<'
        → angle_addr intl (w ++ (c ∷ s)) ≡ err error
    unfolding angle_addr
    no_angle w c s h y n =
        let (o, before) =
          opt_cfws-blanks intl w (c ∷ s) h
            (ground (arith, y), ground (arith, y), ground (arith, y)) in
        rw (nom.delimited_law, nom.pair_law, before, no_tag b'<' s c (λ e. n (sym e))) refl

    pub NoWord-sign : (c : ℕ) (s : Bytes) → is_mark c ≡ true → NoWord (c ∷ s)
    NoWord-sign c s y = (
      (ground (arith, y), ground (arith, y), ground (arith, y)),
      (ground (arith, y), ground (arith, y)),
      ground (arith, y),
    )

    -- A display name that is followed by no angle bracket is none.
    pub no_name_addr :
        (w : Bytes) {n : Bytes} {ns : List Bytes} (c : ℕ) (s : Bytes)
        → Every is_blank w
        → NameText n ns
        → is_mark c ≡ true
        → c ≢ b'<'
        → name_addr intl (w ++ (n ++ (c ∷ s))) ≡ err error
    unfolding name_addr
    no_name_addr w c s h t y n =
        rw
          (
            nom.map_law,
            nom.pair_law,
            nom.opt_law,
            display_name-run w (c ∷ s) h t (NoWord-sign c s y),
            no_angle [] c s tt y n,
          )
          refl

    -- An address without brackets is not taken for a display name.
    no_name :
        (w l d : Bytes)
        → Every is_blank w
        → Dotted l
        → NotEncoded l
        → name_addr intl (w ++ (l ++ (b'@' ∷ d))) ≡ err error
    no_name w l d h (one_atom k) n =
        subst (λ x. name_addr intl (w ++ (x ++ (b'@' ∷ d))) ≡ err error) (append-nil l)
          (no_name_addr w b'@' d h (last_word l [] (k, n) tt) refl (λ no. omega (arith, no)))
    no_name w _ d h (dotted a d' k _) n =
        subst (λ x. name_addr intl (w ++ x) ≡ err error)
          (ap (λ x. x ++ (b'.' ∷ (d' ++ (b'@' ∷ d)))) (append-nil a)
            ∙ sym (append_assoc a (b'.' ∷ d') (b'@' ∷ d)))
          (no_name_addr w b'.' (d' ++ (b'@' ∷ d)) h
            (last_word a [] (k, strip-weaken (codes "=?") a (b'.' ∷ d') n) tt) refl
            (λ no. omega (arith, no)))

    pub no_display_name :
        (w : Bytes) (c : ℕ) (s : Bytes)
        → Every is_blank w
        → is_mark c ≡ true
        → display_name intl (w ++ (c ∷ s)) ≡ err error
    unfolding display_name
    no_display_name w c s h y =
        rw (nom.map_law, nom.many1_law, no_word w (c ∷ s) h (NoWord-sign c s y)) refl

    bracketed :
        (w n c s : Bytes)
        → (w ++ (n ++ (b'<' ∷ (c ++ codes ">")))) ++ s ≡ w ++ (n ++ (b'<' ∷ (c ++ (b'>' ∷ s))))
    bracketed w n c s = rw (append_assoc, append_assoc, append_assoc) refl

    pub mailbox-run :
        (s : Bytes) {c : Bytes} {m : Mailbox}
        → MailboxText c m
        → DotEnd s
        → mailbox intl (c ++ s) ≡ ok s m
    unfolding mailbox name_addr
    mailbox-run s (bare_text w _ h (addr_text l d tl n td)) e =
        let none_named : name_addr intl (w ++ ((l ++ (b'@' ∷ d)) ++ s)) ≡ err error =
          ap (λ x. name_addr intl (w ++ x)) (append_assoc l (b'@' ∷ d) s)
          ∙ no_name w l (d ++ s) h tl n in
        rw (append_assoc w (l ++ (b'@' ∷ d)) s, nom.alt_law)
          (rw
            (
              none_named,
              nom.map_law,
              addr_spec-run w (l ++ (b'@' ∷ d)) s h (addr_text l d tl n td) e,
            )
            refl)
    mailbox-run s (angle_text w c h t) e =
        let inside = c ++ (b'>' ∷ s) in
        let no_words : display_name intl (w ++ (b'<' ∷ inside)) ≡ err error =
          no_display_name w b'<' inside h refl in
        rw
          (
            bracketed w [] c s,
            nom.alt_law,
            nom.map_law,
            nom.pair_law,
            nom.opt_law,
            no_words,
            angle_addr-run w c s h t e,
          )
          refl
    mailbox-run s (named_text w n c h t t') e =
        let inside = c ++ (b'>' ∷ s) in
        rw
          (
            bracketed w n c s,
            nom.alt_law,
            nom.map_law,
            nom.pair_law,
            nom.opt_law,
            display_name-run w (b'<' ∷ inside) h t (NoWord-sign b'<' inside refl),
            angle_addr-run [] c s tt t' e,
          )
          refl
