-- ===== src/Rfc3461/Notify.antt =====
-- src/rfc3461.rs: the NOTIFY parameter. The input is a `&str`, here its bytes; nom compares the
-- words, which are ASCII, without regard to case.
pub mod Flags
use rustyknife.Nom.{Nom, Parser, map, alt, preceded, tag, tag_no_case}
use rustyknife.Prelude.{
  Bool, true, false, List, [], ◌∷◌, Bytes, codes, eq_ignore_ascii_case, if◌then◌else◌,
}
use rustyknife.Util.{fold_prefix0}

pub record Notify : Type 0 where
  pub on_success : Bool
  pub on_failure : Bool
  pub delay : Bool

-- one round of the loop of `convert_notify_list`
unfoldable pub note : Notify → Bytes → Notify
note n item =
    if eq_ignore_ascii_case item (codes "success")
    then record n { on_success = true }
    else if eq_ignore_ascii_case item (codes "failure")
    then record n { on_failure = true }
    else if eq_ignore_ascii_case item (codes "delay")
    then record n { delay = true }
    else n

unfoldable pub note_all : Notify → List Bytes → Notify
unfolding note
note_all n [] = n
note_all n (item ∷ items) = note_all (note n item) items

abbrev pub nothing : Notify
nothing = record { on_success = false; on_failure = false; delay = false }

unfoldable pub convert_notify_list : List Bytes → Notify
unfolding note_all
convert_notify_list = note_all nothing

module _ ⦃nom : Nom⦄ where
  unfoldable pub notify_item : Parser Bytes
  notify_item =
      alt (tag_no_case (codes "success"))
        (alt (tag_no_case (codes "failure")) (tag_no_case (codes "delay")))

  unfoldable pub dsn_notify : Parser Notify
  unfolding fold_prefix0 notify_item convert_notify_list
  dsn_notify =
      alt (map (tag_no_case (codes "never")) (λ _. nothing)) (
        map (fold_prefix0 notify_item (preceded (tag (codes ",")) notify_item)) convert_notify_list)
