-- ===== src/Rfc2231/Syntax/Complete.antt =====
-- src/rfc2231.rs: lists of parameters are read from their texts.
use rustyknife.External.{External}
use rustyknife.Nom.Rules.{Star, none_left, one_more, many0_ok, tag-append, Stops}
use rustyknife.Nom.{Nom, ok, err, error, Many, stop, more, tag, opt, pair, preceded}
use rustyknife.Prelude.{
  ◌≡◌, ◌<◌, refl, List, [], ◌∷◌, ◌++◌, Option, none, some, Bytes, codes, arith, append_assoc,
  length, length-append,
}
use rustyknife.Rfc2231.Syntax.Names.{Behind, nothing, semicolon, line_end}
use rustyknife.Rfc2231.Syntax.Texts.{
  ItemText, EndText, at_end, at_line_end, semicolon_at_end, semicolon_at_line_end,
}
use rustyknife.Rfc2231.Syntax.{
  Parameter, is_attribute_char, regular_parameter_name, extended_initial_name, extended_other_names,
  regular_parameter, extended_parameter, parameter, parameter_list,
}
use rustyknife.Rfc5234.{crlf}
use rustyknife.Rfc5322.Comments.Gaps.{ofws-blanks, ofws-line_end}
use rustyknife.Rfc5322.Comments.{ofws}
use rustyknife.Rfc2231.Syntax.Parameters.{Solid-parameter, attribute-Stops, parameter-run}

module _ ⦃nom : Nom⦄ where
  module _ ⦃ext : External⦄ where
    pub EndText-Behind : {i r : Bytes} → EndText i r → Behind i
    EndText-Behind at_end = nothing
    EndText-Behind (at_line_end n) = line_end n
    EndText-Behind semicolon_at_end = semicolon
    EndText-Behind (semicolon_at_line_end n) = semicolon

    pub items-Behind :
        {c : Bytes} {ps : List Parameter} (s : Bytes)
        → Star ItemText c ps
        → Behind s
        → Behind (c ++ s)
    items-Behind s none_left b = b
    items-Behind s (one_more {cs} g _) b = rw g.splits semicolon

    no_parameter-start : (s : Bytes) → Stops is_attribute_char s → parameter s ≡ err error
    unfolding parameter regular_parameter extended_parameter regular_parameter_name
        extended_initial_name extended_other_names
    no_parameter-start s st =
        let none_here = attribute-Stops s st in
        rw
          (
            nom.alt_law, nom.map_law, nom.separated_pair_law, nom.map_law, nom.pair_law, none_here,
            nom.alt_law, nom.map_law, nom.separated_pair_law, nom.map_law, nom.terminated_law,
            nom.pair_law, none_here, nom.map_law, nom.separated_pair_law, nom.map_law,
            nom.terminated_law, nom.pair_law, none_here,
          )
          refl

    no_item :
        (s : Bytes)
        → ofws s ≡ ok s []
        → parameter s ≡ err error
        → preceded (pair (tag (codes ";")) ofws) parameter (b';' ∷ s) ≡ err error
    no_item s e e' = rw (nom.preceded_law, nom.pair_law, tag-append (codes ";") s, e, e') refl

    item-run :
        (c s : Bytes) (p : Parameter)
        → ItemText c p
        → Behind s
        → preceded (pair (tag (codes ";")) ofws) parameter (c ++ s) ≡ ok s p
    item-run c s p g b =
        let t = g.parameter_text ++ s in
        rw
          (
            g.splits,
            append_assoc,
            nom.preceded_law,
            nom.pair_law,
            tag-append (codes ";") (g.blanks ++ t),
            ofws-blanks g.blanks t g.blank (Solid-parameter s g.spells),
          )
          (parameter-run s g.spells b)

    item_end :
        {i r : Bytes} → EndText i r → preceded (pair (tag (codes ";")) ofws) parameter i ≡ err error
    item_end at_end = rw (nom.preceded_law, nom.pair_law, nom.tag_law) refl
    item_end (at_line_end n) = rw (nom.preceded_law, nom.pair_law, nom.tag_law) refl
    item_end semicolon_at_end = no_item [] (ofws-blanks [] [] tt tt) (no_parameter-start [] tt)
    item_end (semicolon_at_line_end {r} n) =
        no_item (codes "\r\n" ++ r) (ofws-line_end r n)
          (no_parameter-start (codes "\r\n" ++ r) refl)

    Many-items :
        {c : Bytes} {ps : List Parameter} (i r : Bytes)
        → Star ItemText c ps
        → EndText i r
        → Many (preceded (pair (tag (codes ";")) ofws) parameter) (c ++ i) ps i
    Many-items i r none_left e = stop (item_end e)
    Many-items i r (one_more {c} {cs} {a = p} g s) e = rw append_assoc (
        more (item-run c (cs ++ i) p g (items-Behind i s (EndText-Behind e)))
          (shorter c (cs ++ i) (g.blanks ++ g.parameter_text) g.splits) (Many-items i r s e))
      where
        shorter : (c s t : Bytes) → c ≡ b';' ∷ t → length s < length (c ++ s)
        shorter c s t e = rw e (omega (arith, length-append t s))

    list_end :
        {i r : Bytes}
        → EndText i r
        → (o : Option Bytes × Option Bytes) × (pair (opt (tag (codes ";"))) (opt crlf) i ≡ ok r o)
    unfolding crlf
    list_end at_end =
        ((none, none), rw (nom.pair_law, nom.opt_law, nom.tag_law, nom.opt_law, nom.tag_law) refl)
    list_end (at_line_end n) = (
      (none, some (codes "\r\n")),
      rw (nom.pair_law, nom.opt_law, nom.tag_law, nom.opt_law, nom.tag_law) refl,
    )
    list_end semicolon_at_end = (
      (some (codes ";"), none),
      rw (nom.pair_law, nom.opt_law, nom.tag_law, nom.opt_law, nom.tag_law) refl,
    )
    list_end (semicolon_at_line_end n) = (
      (some (codes ";"), some (codes "\r\n")),
      rw (nom.pair_law, nom.opt_law, nom.tag_law, nom.opt_law, nom.tag_law) refl,
    )

    pub parameter_list-run :
        {c : Bytes} {ps : List Parameter} (i r : Bytes)
        → Star ItemText c ps
        → EndText i r
        → parameter_list (c ++ i) ≡ ok r ps
    unfolding parameter_list
    parameter_list-run i r s e =
        let (o, ends) = list_end e in
        let ended : pair (opt (tag (codes ";"))) (opt crlf) i ≡ ok r o = ends in
        rw (nom.terminated_law, many0_ok _ _ (Many-items i r s e), ended) refl
