-- ===== src/Xforward/Texts.antt =====
-- src/xforward.rs: the texts of the command.
use rustyknife.External.{External}
use rustyknife.Nom.Rules.{Star}
use rustyknife.Nom.{strip, no_case}
use rustyknife.Prelude.{
  ◌≡◌, ◌≢◌, List, [], ◌∷◌, ◌++◌, Option, none, some, Bytes, codes, Every, lowercase,
}
use rustyknife.Rfc3461.Xtext.Spelt.{XtextByte}
use rustyknife.Rfc5234.Blanks.{is_blank}
use rustyknife.Util.{ascii_to_string}
use rustyknife.Xforward.{Param}

pub data IsName : Bytes → Type 0 where
  is_addr : IsName (codes "addr")
  is_helo : IsName (codes "helo")
  is_ident : IsName (codes "ident")
  is_name : IsName (codes "name")
  is_port : IsName (codes "port")
  is_proto : IsName (codes "proto")
  is_source : IsName (codes "source")

module _ ⦃ext : External⦄ where
  -- The word for no value in any case, or xtext that does not start with it.
  abbrev pub ValueText : Bytes → Option Bytes → Type 0
  ValueText v none = lowercase v ≡ codes "[unavailable]"
  ValueText v (some s) =
      (bs : Bytes) × Star XtextByte v bs
      × (strip no_case (codes "[unavailable]") v ≡ none)
      × (s ≡ ascii_to_string bs)

  -- A name in any case, an equals sign and a value.
  pub record ParamText (c : Bytes) (p : Param) : Type 0 where
    pub keyword : Bytes
    pub value_text : Bytes
    pub splits : c ≡ keyword ++ (b'=' ∷ value_text)
    pub names : lowercase keyword ≡ p.name
    pub known : IsName p.name
    pub valued : ValueText value_text p.value

  -- One or more blanks and a parameter.
  pub record SpacedText (c : Bytes) (p : Param) : Type 0 where
    pub blanks : Bytes
    pub param_text : Bytes
    pub splits : c ≡ blanks ++ param_text
    pub blank : Every is_blank blanks
    pub some_blank : blanks ≢ []
    pub spells : ParamText param_text p

  -- The command's word in any case, blanks, the parameters and a line end.
  pub record CommandText (i r : Bytes) (ps : List Param) : Type 0 where
    pub word : Bytes
    pub blanks : Bytes
    pub head_text : Bytes
    pub tail_text : Bytes
    pub head : Param
    pub tail : List Param
    pub splits : i ≡ word ++ (blanks ++ (head_text ++ (tail_text ++ (codes "\r\n" ++ r))))
    pub params : ps ≡ head ∷ tail
    pub xforward : lowercase word ≡ codes "xforward "
    pub blank : Every is_blank blanks
    pub head_spells : ParamText head_text head
    pub tail_spells : Star SpacedText tail_text tail
