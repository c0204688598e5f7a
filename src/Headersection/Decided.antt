-- ===== src/Headersection/Decided.antt =====
-- src/headersection.rs: a message with an empty line in it has a header section.
use rustyknife.Headersection.Complete.{no_field}
use rustyknife.Headersection.Lossless.{Sound-field, Sound-invalid_field, line_of}
use rustyknife.Headersection.OneLine.{skip_while-line_end, wsp-cons, crlf-line_end}
use rustyknife.Headersection.Streaming.{header_section-more}
use rustyknife.Headersection.Words.{round_of}
use rustyknife.Headersection.{
  HeaderField, valid, invalid, wsp, vchar, crlf, fws, ofws, until_crlf, unstructured, field_name,
  field, invalid_field, header_section, is_field_name, not_empty, text_or_empty, fws_text,
}
use rustyknife.Nom.Rules.{
  Answer, Finds, Answers, Answers-any, Finds-Answers, Answers-map, Answers-map_opt, Answers-pair,
  Answers-terminated, Answers-separated_pair, Answers-recognize, Answers-alt, Finds-opt,
  Answers-many0, Finds-many0, Answers-recognize_many0, Answers-many1, Answers-recognize_many1,
  Sound-alt, Found-and_then, take1_filter-cons,
}
use rustyknife.Nom.{
  Nom, ok, err, error, incomplete, alt, many0, opt, before, and_then, non_empty, strip,
}
use rustyknife.Prelude.{
  ◌≡◌, ◌<◌, refl, ap, sym, ◌∙◌, ◌⊎◌, inl, inr, true, false, List, [], ◌∷◌, ◌++◌, Bytes, codes,
  length, drop, arith, Option-cases, some, length-append, append_assoc, if◌then◌else◌, ◌==◌,
}

-- Two line ends behind some text.
abbrev Open : Bytes → Type 0
Open i = (v : Bytes) × (i ≡ v ++ codes "\r\n\r\n")

-- One line end is left at the least.
abbrev Left : Bytes → Type 0
Left i = Open i ⊎ (i ≡ codes "\r\n")

abbrev end : Bytes
end = codes "\r\n\r\n"

-- The first line end is found; it and what is behind it are left.
first_line_end :
    (v : Bytes)
    → (b : Bytes) × (before (codes "\r\n") (v ++ end) ≡ some b) × Open (drop (length b) (v ++ end))
first_line_end [] = ([], refl, ([], refl))
first_line_end (x ∷ v) =
    let (b, e, o) = first_line_end v in
    elim (Option-cases (strip ◌==◌ (codes "\r\n") (x ∷ (v ++ end)))) [
      | inl other ↦ (x ∷ b, rw (before, other, e) refl, o)
      | inr (s, found) ↦ ([], rw (before, found) refl, (x ∷ v, refl))
    ]

Answer-non_empty : (v t : Bytes) → Answer Open (non_empty (v ++ end) t)
Answer-non_empty v [] = inl refl
Answer-non_empty v (c ∷ t) = inr (v ++ end, c ∷ t, refl, (v, refl))

module _ ⦃nom : Nom⦄ where
  wsp-Answers : Answers wsp Left Open
  wsp-Answers i (inl ([], e)) = inl (rw (e, wsp-cons) refl)
  wsp-Answers i (inl (x ∷ v, e)) = rw (e, wsp-cons x (v ++ end)) (go _)
    where
      go : (b : _) → Answer Open (if b then ok (v ++ end) x else err error)
      go true = inr (v ++ end, x, refl, (v, refl))
      go false = inl refl
  wsp-Answers i (inr e) = inl (rw (e, wsp-cons) refl)

  crlf-Answers : Answers crlf Open Left
  unfolding crlf
  crlf-Answers i ([], e) = rw (e, nom.streaming_tag_law) (inr (codes "\r\n", _, refl, inr refl))
  crlf-Answers i (x ∷ [], e) = rw (e, nom.streaming_tag_law) (go _)
    where
      go :
          (b : _)
          → Answer Left (
              and_then {A = Unit {0}}
                (if b then err error else err error)
                (λ r _. ok r (codes "\r\n")))
      go true = inl refl
      go false = inl refl
  crlf-Answers i (x ∷ y ∷ v, e) = rw (e, nom.streaming_tag_law) (go _ _)
    where
      go :
          (b c : _)
          → Answer Left (
              and_then {A = Unit {0}}
                (if b then (if c then ok (v ++ end) tt else err error) else err error)
                (λ r _. ok r (codes "\r\n")))
      go true true = inr (v ++ end, codes "\r\n", refl, inl (v, refl))
      go true false = inl refl
      go false c = inl refl

  colon-Answers : Answers (nom.streaming_tag (codes ":")) Open Open
  colon-Answers i ([], e) = inl (rw (e, nom.streaming_tag_law) refl)
  colon-Answers i (x ∷ v, e) = rw (e, nom.streaming_tag_law) (go _)
    where
      go :
          (b : _)
          → Answer Open (
              and_then {A = Unit {0}}
                (if b then ok (v ++ end) tt else err error)
                (λ r _. ok r (codes ":")))
      go true = inr (v ++ end, codes ":", refl, (v, refl))
      go false = inl refl

  ofws-Finds : Finds ofws Open Open
  unfolding ofws fws
  ofws-Finds i h = rw nom.map_law (
      Found-and_then (opt fws i) _ (Finds-opt fws (λ i h. h) white i h)
        (λ r t k. (r, text_or_empty t, refl, k)))
    where
      white : Answers fws Open Open
      white =
          Answers-map _
            (Answers-pair _ _
              (Finds-Answers _ (
                Finds-opt _ (λ i h. inl h)
                  (Answers-terminated _ _
                    (Answers-recognize_many0 wsp (λ i h. wsp-Answers i (inl h))) crlf-Answers)))
              (Answers-recognize_many1 wsp (λ i h. inl h) wsp-Answers))
            fws_text

  until_crlf-Answers : Answers until_crlf Open Open
  unfolding until_crlf
  until_crlf-Answers = Answers-map_opt _ upto not_empty
    where
      upto : Answers (nom.streaming_take_until (codes "\r\n")) Open Open
      upto i (v, e) =
          let (b, found, o) = first_line_end v in
          rw (e, nom.streaming_take_until_law, found) (inr (_, b, refl, o))

  vchar-Answers : Answers vchar Open Open
  unfolding vchar
  vchar-Answers i ([], e) = inl (rw (e, take1_filter-cons) refl)
  vchar-Answers i (x ∷ v, e) = rw (e, take1_filter-cons) (go _)
    where
      go : (b : _) → Answer Open (if b then ok (v ++ end) x else err error)
      go true = inr (v ++ end, x, refl, (v, refl))
      go false = inl refl

  field_name-Answers : Answers field_name Open Open
  unfolding field_name
  field_name-Answers i (v, e) =
      rw
        (
          e,
          nom.streaming_take_while1_law,
          skip_while-line_end is_field_name v (b'\n' ∷ b'\r' ∷ b'\n' ∷ []) refl,
        )
        (go _ _)
    where
      go :
          (s t : Bytes)
          → Answer Open (elim (s ++ end) [ [] ↦ err incomplete | c ∷ cs ↦ non_empty (c ∷ cs) t ])
      go [] t = Answer-non_empty [] t
      go (c ∷ s) t = Answer-non_empty (c ∷ s) t

  unstructured-Answers : Answers unstructured Open Open
  unfolding unstructured
  unstructured-Answers = Answers-recognize _ (
      Answers-pair _ _
        (Answers-many0 round_of (
          Answers-pair _ _ (Finds-Answers ofws ofws-Finds) (
            Answers-alt _ _ (Answers-recognize _ (Answers-many1 vchar (λ i h. h) vchar-Answers))
              until_crlf-Answers)))
        (Answers-many0 wsp (λ i h. wsp-Answers i (inl h))))

  field-Answers : Answers field Open Left
  unfolding field
  field-Answers =
      Answers-map _
        (Answers-terminated _ _
          (Answers-separated_pair _ _ _ field_name-Answers colon-Answers unstructured-Answers)
          crlf-Answers)
        _

  invalid_field-Answers : Answers invalid_field Open Left
  unfolding invalid_field
  invalid_field-Answers = Answers-map _ (Answers-terminated _ _ until_crlf-Answers crlf-Answers) _

  line-Answers : Answers (alt field invalid_field) Left Left
  line-Answers i (inl h) = Answers-alt field invalid_field field-Answers invalid_field-Answers i h
  line-Answers i (inr e) = inl (rw e (no_field []))

  line_taken :
      (i r : Bytes) (f : HeaderField) → alt field invalid_field i ≡ ok r f → length r < length i
  line_taken i r f e =
      let g = Sound-alt field invalid_field Sound-field Sound-invalid_field i r f e in
      shorter g.text (line_filled f) g.splits (elim g.spells [ inl x ↦ x.0 | inr x ↦ x.0 ])
    where
      line_filled : (f : HeaderField) → 0 < length (line_of f)
      line_filled (valid name value) =
          omega (arith, length-append name (b':' ∷ (value ++ codes "\r\n")))
      line_filled (invalid line) = omega (arith, length-append line (codes "\r\n"))

      shorter :
          (c : Bytes) → 0 < length (line_of f) → i ≡ c ++ r → c ≡ line_of f → length r < length i
      shorter c filled splits e =
          rw (splits, e) (omega (arith, filled, length-append (line_of f) r))

  lines-Finds : Finds (many0 (alt field invalid_field)) Left Left
  lines-Finds = Finds-many0 _ line-Answers line_taken

  opt_crlf-Finds : Finds (opt crlf) Left (λ _. Unit {0})
  opt_crlf-Finds i (inl h) = Finds-opt crlf (λ _ _. tt) (Answers-any crlf crlf-Answers) i h
  opt_crlf-Finds i (inr e) =
      ([], some (codes "\r\n"), rw (e, nom.opt_law, crlf-line_end []) refl, tt)

  -- A message with an empty line in it is always split, whatever stands in front of the first empty
  -- line and behind it: `header_section` neither fails nor asks for more input, and all that is
  -- behind that line is at the end of the body.
  pub header_section-decides :
      (v more : Bytes)
      → (fs : List HeaderField) × (body : Bytes) × (header_section (v ++ (codes "\r\n\r\n" ++ more))
          ≡ ok (body ++ more) fs)
  unfolding header_section
  header_section-decides v more =
      let (body, fs, e, _) =
        Found-and_then (many0 (alt field invalid_field) (v ++ end)) _
          (lines-Finds (v ++ end) (inl (v, refl)))
          (λ r fs h.
            Found-and_then (opt crlf r) _ (opt_crlf-Finds r h) (λ s _ _. (s, fs, refl, tt))) in
      (
        fs,
        body,
        ap header_section (sym (append_assoc v end more))
            ∙ header_section-more (v ++ end) more body fs (rw nom.terminated_law e),
      )
