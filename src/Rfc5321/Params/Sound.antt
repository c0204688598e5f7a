-- ===== src/Rfc5321/Params/Sound.antt =====
-- src/rfc5321.rs: what an ESMTP parameter was parsed from is its display form.
use rustyknife.Nom.Rules.{
  Sound, Both, Star, Maybe, Literal, OneOf, Takes, Sound-map, Sound-opt, Sound-pair, Sound-preceded,
  Sound-recognize, Sound-recognize_many0, Sound-recognize_many1, Sound-tag, Sound-take1_filter,
  Sound-weaken, none_left, one_more,
}
use rustyknife.Nom.{Nom, ok, is_alphanumeric}
use rustyknife.Prelude.{
  ℕ, ◌≡◌, refl, ap, ◌∙◌, true, List, [], ◌∷◌, ◌++◌, Option, none, some, Bytes, codes, Every,
}
use rustyknife.Rfc5321.Params.{
  Keyword, Value, Param, esmtp_keyword, esmtp_value, esmtp_param, display_param,
}
use rustyknife.Rfc5321.Policy.{Utf8Policy, is_ldh}

-- Bytes of a class, one by one.
pub Star-Every : {f : ℕ → _} {c : Bytes} {bs : List ℕ} → Star (OneOf f) c bs → (c ≡ bs) × Every f bs
Star-Every none_left = (refl, tt)
Star-Every (one_more (e, h) s) = let (e', hs) = Star-Every s in (rw (e, e'), (h, hs))

module _ ⦃nom : Nom⦄ where
  -- A letter or digit, then letters, digits and dashes.
  abbrev pub IsKeyword : Keyword → Type 0
  IsKeyword [] = ⊥
  IsKeyword (c ∷ cs) = (is_alphanumeric c ≡ true) × Every is_ldh cs

  pub Sound-esmtp_keyword : Sound esmtp_keyword (λ c k. (k ≡ c) × IsKeyword k)
  unfolding esmtp_keyword
  Sound-esmtp_keyword =
      Sound-weaken esmtp_keyword
        (Sound-map _
          (Sound-recognize _ (
            Sound-pair _ _ (Sound-take1_filter is_alphanumeric)
              (Sound-recognize_many0 _ (Sound-take1_filter is_ldh))))
          (λ x. x))
        (λ c k (x, (x_is, ((a, t), both)), k_is).
          let (same, all_ldh) = Star-Every both.right_spells.1.1 in
          let shape : k ≡ a ∷ both.right = cc (x_is, k_is, both.joined, both.left_spells.0) in
          (k_is ∙ x_is, rw shape (both.left_spells.1, rw same all_ldh)))

  module _ (P : Utf8Policy) (takes_char : Takes P.esmtp_value_char) where
    -- The text of a value is the value.
    pub Sound-esmtp_value : Sound (esmtp_value P) (λ c v. v ≡ c)
    unfolding esmtp_value
    Sound-esmtp_value =
        Sound-weaken (esmtp_value P) (Sound-map _ (Sound-recognize_many1 _ takes_char) (λ x. x))
          (λ c v (x, (x_is, _), v_is). v_is ∙ x_is)

    -- A parameter's display form is the text that it was parsed from, whatever follows, and its
    -- keyword is a letter or digit and then letters, digits and dashes, for every policy whose
    -- value characters are read off the front of the input.
    pub display_param-esmtp_param :
        (i r : Bytes) (p : Param)
        → esmtp_param P i ≡ ok r p
        → (i ≡ display_param p ++ r) × IsKeyword p.keyword
    unfolding esmtp_param display_param
    display_param-esmtp_param i r p e =
        let x = sound i r p e in (x.splits ∙ ap (λ c. c ++ r) x.spells.0, x.spells.1)
      where
        with_value :
            (k : Keyword) (v : Option Value) (c d : Bytes)
            → (k ≡ c)
            → Maybe (λ d v. (a : Bytes) × Both (Literal (codes "=")) (λ t v. v ≡ t) d a v) d v
            → c ++ d ≡ display_param (record { keyword = k; value = v })
        with_value k none c d same g = rw (same, g)
        with_value k (some v) c d same (a, both) =
            rw (same, both.joined, both.left_spells.0, both.right_spells)

        sound : Sound (esmtp_param P) (λ c p. (c ≡ display_param p) × IsKeyword p.keyword)
        sound =
            Sound-weaken (esmtp_param P)
              (Sound-map _
                (Sound-pair _ _ Sound-esmtp_keyword
                  (Sound-opt _ (Sound-preceded _ _ (Sound-tag (codes "=")) Sound-esmtp_value)))
                (λ (n, v). record { keyword = n; value = v }))
              (λ c p ((n, v), both, p_is). rw p_is (
                both.joined
                    ∙ with_value n v both.left both.right (both.left_spells.0) both.right_spells,
                both.left_spells.1,
              ))
