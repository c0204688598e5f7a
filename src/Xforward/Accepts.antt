-- ===== src/Xforward/Accepts.antt =====
-- src/xforward.rs: what the command accepts.
use rustyknife.External.{External}
use rustyknife.Nom.Rules.{
  Grammar, Sound, Maybe, Plus, Star, Sound-weaken, Sound-map, Sound-alt, Sound-opt, Sound-preceded,
  Sound-delimited, Sound-separated_pair, Sound-tag, Sound-tag_no_case, Sound-many1,
  Sound-fold_prefix0, or_else-ok, OneOf,
}
use rustyknife.Nom.{
  Nom, Parser, ok, err, error, strip, no_case, tag_no_case, alt, map, many1, preceded, opt,
}
use rustyknife.Prelude.{
  ℕ, ◌≡◌, ◌≢◌, ◌↔◌, inl, inr, refl, ap, sym, ◌∙◌, List, [], ◌∷◌, ◌++◌, Option, none, some, Bytes,
  codes, lowercase, to_ascii_lowercase, append_assoc, Option-cases, arith, Every,
}
use rustyknife.Rfc3461.Xtext.Spelt.{Sound-xtext, XtextByte}
use rustyknife.Rfc3461.Xtext.{xtext}
use rustyknife.Rfc5234.Blanks.{is_blank, Sound-wsp, Star-blanks}
use rustyknife.Rfc5234.{wsp, crlf}
use rustyknife.Util.{ascii_to_string}
use rustyknife.Xforward.Complete.{command-CommandText}
use rustyknife.Xforward.Texts.{
  IsName, is_addr, is_helo, is_ident, is_name, is_port, is_proto, is_source, ValueText, ParamText,
  SpacedText, CommandText,
}
use rustyknife.Xforward.{Param, command_name, unavailable, value, param, xforward_params, command}

strip_less : (t v s : Bytes) → strip no_case t (v ++ s) ≡ none → strip no_case t v ≡ none
strip_less [] v s h = absurd (cc h)
strip_less (a ∷ t) [] s h = refl
strip_less (a ∷ t) (c ∷ v) s h = ground (arith, strip_less t v s)

Plus-blanks : (c ns : Bytes) → Plus (OneOf is_blank) c ns → Every is_blank c × (c ≢ [])
Plus-blanks c ns (s, filled) = let (e, h) = Star-blanks s in (rw e h, λ no. filled (sym e ∙ no))

abbrev Named : Grammar Bytes
Named c n = (lowercase c ≡ n) × IsName n

-- The first parameter may stand behind blanks.
abbrev FirstText : ⦃ext : External⦄ → Grammar Param
FirstText c p = (w t : Bytes) × (c ≡ w ++ t) × Every is_blank w × ParamText t p

module _ ⦃nom : Nom⦄ where
  Sound-word : (t : Bytes) → lowercase t ≡ t → IsName t → Sound (map (tag_no_case t) (λ _. t)) Named
  Sound-word t same known =
      Sound-weaken _ (Sound-map _ (Sound-tag_no_case t) (λ _. t))
        (λ c n (a, lit, e). rw e (lit.1 ∙ same, known))

  Sound-either :
      {A : Type 0} {G : Grammar A} (p q : Parser A) → Sound p G → Sound q G → Sound (alt p q) G
  Sound-either p q sp sq =
      Sound-weaken _ (Sound-alt p q sp sq) (λ c a g. elim g [ inl x ↦ x | inr x ↦ x ])

  Sound-command_name : Sound command_name Named
  unfolding command_name to_ascii_lowercase
  Sound-command_name = Sound-either _ _ (Sound-word (codes "addr") refl is_addr) (
      Sound-either _ _ (Sound-word (codes "helo") refl is_helo) (
        Sound-either _ _ (Sound-word (codes "ident") refl is_ident) (
          Sound-either _ _ (Sound-word (codes "name") refl is_name) (
            Sound-either _ _ (Sound-word (codes "port") refl is_port) (
              Sound-either _ _ (Sound-word (codes "proto") refl is_proto)
                (Sound-word (codes "source") refl is_source))))))

  module _ ⦃ext : External⦄ where
    Sound-value : Sound value ValueText
    unfolding value unavailable to_ascii_lowercase
    Sound-value i r o e =
        elim (or_else-ok (unavailable i) (map xtext shown i) (rw nom.alt_law at e)) [
          | inl h ↦
              let g =
                Sound-map (tag_no_case (codes "[unavailable]"))
                  (Sound-tag_no_case (codes "[unavailable]")) (λ _. none) i r o h in
              record {
                text = g.text;
                splits = g.splits;
                spells = no_value g.text g.spells.1.1 g.spells.2;
              }
          | inr (other, h) ↦
              let g = Sound-map xtext Sound-xtext shown i r o h in
              record {
                text = g.text;
                splits = g.splits;
                spells =
                    some_value g.text g.spells.0 g.spells.1
                      (strip_less (codes "[unavailable]") g.text r (
                        ap (strip no_case (codes "[unavailable]")) (sym g.splits)
                        ∙ no_word i other))
                      g.spells.2;
              }
        ]
      where
        shown : Bytes → Option Bytes
        shown x = some (ascii_to_string x)

        no_value :
            {o : Option Bytes} (c : Bytes)
            → lowercase c ≡ codes "[unavailable]"
            → o ≡ none
            → ValueText c o
        no_value c h same = rw same h

        some_value :
            {o : Option Bytes} (c bs : Bytes)
            → Star XtextByte c bs
            → strip no_case (codes "[unavailable]") c ≡ none
            → o ≡ some (ascii_to_string bs)
            → ValueText c o
        some_value c bs h away same = rw same (bs, h, away, refl)

        no_word :
            (i : Bytes) → unavailable i ≡ err error → strip no_case (codes "[unavailable]") i ≡ none
        no_word i h = elim (Option-cases (strip no_case (codes "[unavailable]") i)) [
          | inl away ↦ away
          | inr (s, found) ↦ absurd (cc (rw (nom.map_law, nom.tag_no_case_law, found) at h))
        ]

    Sound-param : Sound param ParamText
    unfolding param
    Sound-param =
        Sound-weaken _
          (Sound-map _
            (Sound-separated_pair _ _ _ Sound-command_name (Sound-tag (codes "=")) Sound-value) _)
          (λ c p (cv, (b, three), e). rw e (
            let (k, m, v, joined, named, eq, valued) = three in
            record {
              keyword = k;
              value_text = v;
              splits = joined ∙ rw (eq.0) refl;
              names = named.0;
              known = named.1;
              valued = valued;
            }))

    Sound-first : Sound (preceded (opt (many1 wsp)) param) FirstText
    Sound-first =
        Sound-weaken _ (Sound-preceded _ _ (Sound-opt _ (Sound-many1 wsp Sound-wsp)) Sound-param)
          (λ c p (o, b). (b.left, b.right, b.joined, blank o b.left b.left_spells, b.right_spells))
      where
        blank :
            (o : Option (List ℕ)) (w : Bytes) → Maybe (Plus (OneOf is_blank)) w o → Every is_blank w
        blank none w h = rw h tt
        blank (some ns) w h = (Plus-blanks w ns h).0

    Sound-spaced : Sound (preceded (many1 wsp) param) SpacedText
    Sound-spaced =
        Sound-weaken _ (Sound-preceded _ _ (Sound-many1 wsp Sound-wsp) Sound-param) (λ c p (ns, b).
          let (blank, filled) = Plus-blanks b.left ns b.left_spells in
          record {
            blanks = b.left;
            param_text = b.right;
            splits = b.joined;
            blank = blank;
            some_blank = filled;
            spells = b.right_spells;
          })

    CommandText-command : (i r : Bytes) (ps : List Param) → command i ≡ ok r ps → CommandText i r ps
    unfolding command xforward_params crlf to_ascii_lowercase
    CommandText-command i r ps e =
        let g =
          Sound-delimited _ _ _ (Sound-tag_no_case (codes "XFORWARD "))
            (Sound-fold_prefix0 _ _ Sound-first Sound-spaced) (Sound-tag (codes "\r\n")) i r ps e in
        let (w, (d, three)) = g.spells in
        let (x, m, t, joined, word, (p, qs, params, b), lf) = three in
        let (blanks, head, first, blank, spelt) = b.left_spells in
        record {
          word = x;
          blanks = blanks;
          head_text = head;
          tail_text = b.right;
          head = p;
          tail = qs;
          splits =
              g.splits
              ∙ rw (joined, lf.0, b.joined, first)
                  (rw (append_assoc, append_assoc, append_assoc, append_assoc) refl);
          params = params;
          xforward = word.1;
          blank = blank;
          head_spells = spelt;
          tail_spells = b.right_spells;
        }

    -- `command` succeeds exactly on the texts of the command, and what is behind the line end is left:
    -- the word XFORWARD in any case and a space, blanks or none, one parameter or more with blanks
    -- between them, and a line end. A parameter is one of the seven names in any case, returned in
    -- lower case, an equals sign, and either [UNAVAILABLE] in any case, for no value, or xtext that
    -- does not start with that word, for the text of the bytes that it stands for.
    pub command-CommandText_iff :
        (i r : Bytes) (ps : List Param) → (command i ≡ ok r ps) ↔ CommandText i r ps
    command-CommandText_iff i r ps = (CommandText-command i r ps, command-CommandText i r ps)
