-- ===== src/Headersection/Lossless.antt =====
-- src/headersection.rs: the fields and the body are the input, cut up.
use rustyknife.Headersection.{
  HeaderField, valid, invalid, is_field_name, not_empty, crlf, until_crlf, field_name, unstructured,
  field, invalid_field, header_section, wsp, vchar, ofws, fws, fws_text, text_or_empty,
}
use rustyknife.Nom.Rules.{
  Sound, Star, none_left, one_more, Literal, Maybe, Sound-map, Sound-map_opt, Sound-alt, Sound-opt,
  Sound-pair, Sound-recognize, Sound-terminated, Sound-separated_pair, Sound-many0, Sound-many1,
  Sound-streaming_tag, Sound-streaming_take_until, Sound-streaming_take_while1, Sound-weaken,
  Sound-recognize_many0, Sound-recognize_many1, Sound-take1_filter, Takes, Takes-Sound,
}
use rustyknife.Nom.{Nom, ok, alt, before, many0}
use rustyknife.Util.{first}
use rustyknife.Prelude.{
  within, ◌≡◌, ◌≢◌, refl, ◌⊎◌, inl, inr, List, [], ◌∷◌, ◌++◌, Bytes, codes, none, some, Option,
  append-nil, Every, append_assoc, ap, sym, ◌∙◌,
}

-- The line that a field was read from, its line end included.
abbrev pub line_of : HeaderField → Bytes
line_of (valid name value) = name ++ (b':' ∷ (value ++ codes "\r\n"))
line_of (invalid line) = line ++ codes "\r\n"

abbrev pub lines_of : List HeaderField → Bytes
lines_of [] = []
lines_of (f ∷ fs) = line_of f ++ lines_of fs

-- A name is one or more name bytes; an invalid line is not empty and holds no line end.
abbrev pub IsField : HeaderField → Type 0
IsField (valid name value) = Every is_field_name name × (name ≢ [])
IsField (invalid line) = (line ≢ []) × (before (codes "\r\n") line ≡ none)

abbrev pub AreFields : List HeaderField → Type 0
AreFields [] = Unit {0}
AreFields (f ∷ fs) = IsField f × AreFields fs

abbrev Spelt : Bytes → HeaderField → Type 0
Spelt c f = (c ≡ line_of f) × IsField f

not_empty-some : (c a : Bytes) → not_empty c ≡ some a → (a ≡ c) × (c ≢ [])
not_empty-some [] a h = absurd (cc h)
not_empty-some (x ∷ c) a h = (cc h, λ no. cc no)

lines_of-Star :
    {c : Bytes} {fs : List HeaderField} → Star Spelt c fs → (c ≡ lines_of fs) × AreFields fs
lines_of-Star none_left = (refl, tt)
lines_of-Star (one_more (e, h) s) = let (e', hs) = lines_of-Star s in (rw (e, e'), (h, hs))

-- The line end behind the fields is there or not.
last_line :
    {i : Bytes} (l c body lines : Bytes) (end : Option Bytes)
    → l ≡ lines
    → Maybe (Literal (codes "\r\n")) c end
    → i ≡ (l ++ c) ++ body
    → (i ≡ lines ++ body) ⊎ (i ≡ lines ++ (codes "\r\n" ++ body))
last_line l c body lines none same g e =
    inl (e ∙ ap (λ x. x ++ body) (rw (same, g) (append-nil lines)))
last_line l c body lines (some _) same g e =
    inr (e ∙ rw (same, g.0) (append_assoc lines (codes "\r\n") body))

module _ ⦃nom : Nom⦄ where
  Sound-until_crlf : Sound until_crlf (λ c a. (a ≡ c) × (c ≢ []) × (before (codes "\r\n") c ≡ none))
  unfolding until_crlf
  Sound-until_crlf =
      Sound-weaken until_crlf
        (Sound-map_opt (nom.streaming_take_until (codes "\r\n"))
          (Sound-streaming_take_until (codes "\r\n")) not_empty)
        (λ c a g.
          let (e, ne) = not_empty-some g.0 a g.2 in (e ∙ g.1.0, λ no. ne (g.1.0 ∙ no), g.1.1))

  pub Sound-invalid_field : Sound invalid_field Spelt
  unfolding invalid_field crlf
  Sound-invalid_field =
      Sound-weaken invalid_field
        (Sound-map _
          (Sound-terminated until_crlf crlf Sound-until_crlf (Sound-streaming_tag (codes "\r\n")))
          invalid)
        (λ c f (line, (t, both), e).
          let same : line ≡ both.left = both.left_spells.0 in
          rw e (
            cc (both.joined, same, both.right_spells.0),
            (
              λ no. both.left_spells.1 (sym same ∙ no),
              ap (before (codes "\r\n")) same ∙ both.left_spells.2,
            ),
          ))

  Takes-wsp : Takes wsp
  unfolding wsp
  Takes-wsp = Takes-Sound wsp (
      Sound-map _
        (Sound-alt _ _ (Sound-streaming_tag (codes " ")) (Sound-streaming_tag (codes "\t"))) first)

  Takes-fws : Takes fws
  unfolding fws crlf
  Takes-fws = Takes-Sound fws (
      Sound-map _
        (Sound-pair _ _
          (Sound-opt _ (
            Sound-terminated _ _ (Sound-recognize_many0 wsp Takes-wsp)
              (Sound-streaming_tag (codes "\r\n"))))
          (Sound-recognize_many1 wsp Takes-wsp))
        fws_text)

  Takes-ofws : Takes ofws
  unfolding ofws
  Takes-ofws = Takes-Sound ofws (Sound-map _ (Sound-opt _ Takes-fws) text_or_empty)

  Takes-vchar : Takes vchar
  unfolding vchar
  Takes-vchar = Takes-Sound vchar (Sound-take1_filter (within 0x21 0x7e))

  Sound-unstructured : Sound unstructured (λ c a. a ≡ c)
  unfolding unstructured
  Sound-unstructured =
      Sound-weaken unstructured
        (Sound-recognize _ (
          Sound-pair _ _
            (Sound-many0 _ (
              Sound-pair _ _ Takes-ofws (
                Sound-alt _ _ (Sound-recognize _ (Sound-many1 vchar Takes-vchar))
                  Sound-until_crlf)))
            (Sound-many0 _ Takes-wsp)))
        (λ c a g. g.0)

  pub Sound-field : Sound field Spelt
  unfolding field field_name crlf
  Sound-field =
      Sound-weaken field
        (Sound-map _
          (Sound-terminated _ _
            (Sound-separated_pair _ _ _ (Sound-streaming_take_while1 is_field_name)
              (Sound-streaming_tag (codes ":")) Sound-unstructured)
            (Sound-streaming_tag (codes "\r\n")))
          (λ (name, value). valid name value))
        (λ c f (nv, (t, both), e).
          let (colon, (n, d, v, joined, name, dot, value)) = both.left_spells in
          rw e (
            both.joined ∙ rw (joined, both.right_spells.0, name.0, dot.0, value, append_assoc),
            (rw (name.0) (name.1), λ no. name.2 (sym (name.0) ∙ no)),
          ))

  Sound-fields : Sound (many0 (alt field invalid_field)) (λ c fs. (c ≡ lines_of fs) × AreFields fs)
  Sound-fields =
      Sound-weaken _
        (Sound-many0 _ (
          Sound-weaken _ (Sound-alt field invalid_field Sound-field Sound-invalid_field)
            (λ c f g. elim g [ inl x ↦ x | inr x ↦ x ])))
        (λ c fs s. lines_of-Star s)

  -- Whatever `header_section` accepts is the lines of the fields that it returns, in order, then
  -- perhaps one more line end, then the body that it returns; and each field is well formed.
  pub header_section-lossless :
      (i body : Bytes) (fs : List HeaderField)
      → header_section i ≡ ok body fs
      → ((i ≡ lines_of fs ++ body) ⊎ (i ≡ lines_of fs ++ (codes "\r\n" ++ body))) × AreFields fs
  unfolding header_section crlf
  header_section-lossless i body fs e =
      let x =
        Sound-terminated _ _ Sound-fields (Sound-opt _ (Sound-streaming_tag (codes "\r\n"))) i body
          fs e in
      let (end, both) = x.spells in
      (
        last_line both.left both.right body (lines_of fs) end both.left_spells.0 both.right_spells
            (x.splits ∙ ap (λ c. c ++ body) both.joined),
        both.left_spells.1,
      )
