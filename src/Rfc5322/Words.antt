-- ===== src/Rfc5322/Words.antt =====
-- src/rfc5322.rs: atoms, quoted strings and words.
pub mod Phrases
use rustyknife.External.{External}
use rustyknife.Nom.{Nom, Parser, map, alt, opt, pair, delimited, recognize, tag, many0, many1}
use rustyknife.Prelude.{ℕ, Bool, true, false, List, [], ◌∷◌, ◌++◌, Option, none, some, Bytes, codes}
use rustyknife.Prelude.Utf8.{encode_utf8}
use rustyknife.Rfc2047.{encoded_word}
use rustyknife.Rfc5322.Comments.{fws, cfws, quoted_pair}
use rustyknife.Rfc5322.Policy.{Utf8Policy}
use rustyknife.Types.{DotAtom, QuotedString, LocalPart}
use rustyknife.Util.{recognize_many0, recognize_many1}

-- `QContent`, with the default feature `quoted-string-rfc2047`
pub data QContent : Type 0 where
  literal : Bytes → QContent
  encoded : Bytes → QContent
  qp : ℕ → QContent

pub data Text : Type 0 where
  literal : Bytes → Text
  atom_text : Bytes → Text

unfoldable pub concat_qs : List QContent → Bytes
concat_qs [] = []
concat_qs (QContent.literal lit ∷ rest) = lit ++ concat_qs rest
concat_qs (encoded ew ∷ rest) = ew ++ concat_qs rest
concat_qs (qp c ∷ rest) = encode_utf8 c ++ concat_qs rest

-- `From<&Text> for &str`
abbrev pub text_of : Text → Bytes
text_of (Text.literal s) = s
text_of (atom_text s) = s

-- The loop of `_concat_atom_and_qs`: the current word and the one behind it.
unfoldable pub concat_atom_and_qs : List Text → Bytes
concat_atom_and_qs [] = []
concat_atom_and_qs (cur ∷ []) = text_of cur
concat_atom_and_qs (atom_text v ∷ next ∷ rest) = v ++ (b' ' ∷ concat_atom_and_qs (next ∷ rest))
concat_atom_and_qs (Text.literal s ∷ atom_text v ∷ rest) =
    v ++ (b' ' ∷ concat_atom_and_qs (atom_text v ∷ rest))
concat_atom_and_qs (Text.literal s ∷ Text.literal t ∷ rest) =
    s ++ concat_atom_and_qs (Text.literal t ∷ rest)

-- `out.last()` is an encoded word.
abbrev pub last_is_encoded : List QContent → Bool
last_is_encoded [] = false
last_is_encoded (encoded _ ∷ []) = true
last_is_encoded (QContent.literal _ ∷ []) = false
last_is_encoded (qp _ ∷ []) = false
last_is_encoded (_ ∷ x ∷ xs) = last_is_encoded (x ∷ xs)

-- One round of the loop of `_inner_quoted_string`: the space between two encoded words goes.
unfoldable pub push_content : List QContent → Option Bytes × QContent → List QContent
push_content out (none, cont) = out ++ cont ∷ []
push_content out (some ws, encoded ew) = elim (last_is_encoded out) [
  | true ↦ out ++ encoded ew ∷ []
  | false ↦ out ++ QContent.literal ws ∷ encoded ew ∷ []
]
push_content out (some ws, cont) = out ++ QContent.literal ws ∷ cont ∷ []

unfoldable pub push_contents : List QContent → List (Option Bytes × QContent) → List QContent
unfolding push_content
push_contents out [] = out
push_contents out (x ∷ xs) = push_contents (push_content out x) xs

abbrev pub trailing : List QContent → Option Bytes → List QContent
trailing out none = out
trailing out (some x) = out ++ QContent.literal x ∷ []

module _ ⦃nom : Nom⦄ ⦃ext : External⦄ where
  module _ (P : Utf8Policy) where
    unfoldable pub qcontent : Parser QContent
    unfolding encoded_word recognize_many1 quoted_pair
    qcontent = alt (map encoded_word encoded) (
        alt (map (recognize_many1 P.qtext) (λ q. QContent.literal (ext.from_utf8_lossy q)))
          (map (quoted_pair P) qp))

    -- `_inner_quoted_string`
    unfoldable pub inner_quoted_string : Parser (List QContent)
    unfolding qcontent fws push_contents
    inner_quoted_string =
        map
          (delimited (tag (codes "\"")) (pair (many0 (pair (opt fws) qcontent)) (opt fws))
            (tag (codes "\"")))
          (λ (a, b). trailing (push_contents [] a) b)

    unfoldable pub quoted_string : Parser QuotedString
    unfolding inner_quoted_string cfws concat_qs
    quoted_string = map (delimited (opt (cfws P)) inner_quoted_string (opt (cfws P))) concat_qs

    -- `_padded_encoded_word`
    unfoldable pub padded_encoded_word : Parser Bytes
    unfolding cfws encoded_word
    padded_encoded_word = delimited (opt (cfws P)) encoded_word (opt (cfws P))

module _ ⦃nom : Nom⦄ (P : Utf8Policy) where
  unfoldable pub atom : Parser Bytes
  unfolding cfws recognize_many1
  atom = delimited (opt (cfws P)) (recognize_many1 P.atext) (opt (cfws P))

  unfoldable pub dot_atom : Parser DotAtom
  unfolding cfws recognize_many0 recognize_many1
  dot_atom =
      map
        (delimited (opt (cfws P))
          (recognize (
            pair (recognize_many1 P.atext)
              (recognize_many0 (pair (tag (codes ".")) (recognize_many1 P.atext)))))
          (opt (cfws P)))
        (λ a. a)

  module _ ⦃ext : External⦄ where
    unfoldable pub word : Parser Text
    unfolding padded_encoded_word atom quoted_string
    word =
        alt (map (padded_encoded_word P) Text.literal)
          (alt (map atom atom_text) (map (quoted_string P) (λ qs. Text.literal qs)))

    unfoldable pub display_name : Parser Bytes
    unfolding word concat_atom_and_qs
    display_name = map (many1 word) concat_atom_and_qs

    unfoldable pub local_part : Parser LocalPart
    unfolding dot_atom quoted_string
    local_part = alt (map dot_atom LocalPart.dot_atom) (map (quoted_string P) LocalPart.quoted)
