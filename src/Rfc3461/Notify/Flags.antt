-- ===== src/Rfc3461/Notify/Flags.antt =====
-- src/rfc3461.rs: the flags that `convert_notify_list` and `dsn_notify` return.
use rustyknife.Nom.Rules.{
  Grammar, Sound, Both, Star, none_left, one_more, Literal, Sound-alt, Sound-preceded, Sound-tag,
  Sound-tag_no_case, Sound-fold_prefix0, Sound-map, Sound-weaken,
}
use rustyknife.Nom.{Nom, ok}
use rustyknife.Prelude.{
  ◌≡◌, refl, ap, ◌∙◌, to_ascii_lowercase, Bool, true, false, ◌||◌, inl, inr, List, [], ◌∷◌, ◌++◌,
  Bytes, codes, eq_ignore_ascii_case, equal→eq, lowercase, Bool-cases, append-nil,
}
use rustyknife.Rfc3461.Notify.{
  Notify, note, note_all, nothing, convert_notify_list, notify_item, dsn_notify,
}

-- One of the three words, in any case.
pub data IsWord (c : Bytes) : Type 0 where
  success_word : lowercase c ≡ codes "success" → IsWord c
  failure_word : lowercase c ≡ codes "failure" → IsWord c
  delay_word : lowercase c ≡ codes "delay" → IsWord c

-- Words with commas between them.
pub data Listed : Bytes → List Bytes → Type 0 where
  last_word : {c item : Bytes} → IsWord item → c ≡ item → Listed c (item ∷ [])
  then_word :
      {c cs item : Bytes} {items : List Bytes}
      → IsWord item
      → Listed cs items
      → c ≡ item ++ (codes "," ++ cs)
      → Listed c (item ∷ items)

-- Some item is the word, in any case.
abbrev pub mentions : Bytes → List Bytes → Bool
mentions word [] = false
mentions word (item ∷ items) = eq_ignore_ascii_case item word || mentions word items

not_delay :
    (item : Bytes)
    → eq_ignore_ascii_case item (codes "failure") ≡ true
    → eq_ignore_ascii_case item (codes "delay") ≡ false
unfolding to_ascii_lowercase
not_delay item h = rw (equal→eq (lowercase item) (lowercase (codes "failure")) h) refl

neither :
    (item : Bytes)
    → eq_ignore_ascii_case item (codes "success") ≡ true
    → (eq_ignore_ascii_case item (codes "failure") ≡ false)
      × (eq_ignore_ascii_case item (codes "delay") ≡ false)
unfolding to_ascii_lowercase
neither item h = rw (equal→eq (lowercase item) (lowercase (codes "success")) h) (refl, refl)

-- The three flags with those that an item names set.
abbrev with_flags : Bool → Bool → Bool → Notify → Notify
with_flags success failure late n = record {
  on_success = success || n.on_success;
  on_failure = failure || n.on_failure;
  delay = late || n.delay;
}

note-flags :
    (n : Notify)
    → (item : Bytes)
    → note n item
      ≡ with_flags
          (eq_ignore_ascii_case item (codes "success"))
          (eq_ignore_ascii_case item (codes "failure"))
          (eq_ignore_ascii_case item (codes "delay"))
          n
unfolding note
note-flags n item = elim (Bool-cases (eq_ignore_ascii_case item (codes "success"))) [
  | inl s ↦ rw (s, (neither item s).0, (neither item s).1) refl
  | inr s ↦ elim (Bool-cases (eq_ignore_ascii_case item (codes "failure"))) [
    | inl f ↦ rw (s, f, not_delay item f) refl
    | inr f ↦ elim (Bool-cases (eq_ignore_ascii_case item (codes "delay"))) [
      | inl d ↦ rw (s, f, d) refl
      | inr d ↦ rw (s, f, d) refl
    ]
  ]
]

or_swap : (a b c : Bool) → b || (a || c) ≡ (a || b) || c
or_swap true true c = refl
or_swap true false c = refl
or_swap false b c = refl

note_all-flags :
    (items : List Bytes)
    → (n : Notify)
    → note_all n items
      ≡ with_flags
          (mentions (codes "success") items)
          (mentions (codes "failure") items)
          (mentions (codes "delay") items)
          n
unfolding note_all
note_all-flags [] n = refl
note_all-flags (item ∷ items) n =
    ap (λ m. note_all m items) (note-flags n item)
    ∙ note_all-flags items _
    ∙ rw (or_swap, or_swap, or_swap) refl

or_false : (b : Bool) → b || false ≡ b
or_false true = refl
or_false false = refl

-- The flags of the words that the list names.
abbrev pub flags_of : List Bytes → Notify
flags_of items = record {
  on_success = mentions (codes "success") items;
  on_failure = mentions (codes "failure") items;
  delay = mentions (codes "delay") items;
}

convert_notify_list-flags_of : (items : List Bytes) → convert_notify_list items ≡ flags_of items
unfolding convert_notify_list
convert_notify_list-flags_of items =
    note_all-flags items nothing ∙ rw (or_false, or_false, or_false) refl

-- What `dsn_notify` may read, and the flags that it must return for it.
pub data NotifyText : Bytes → Notify → Type 0 where
  never : {c : Bytes} {n : Notify} → lowercase c ≡ codes "never" → n ≡ nothing → NotifyText c n
  listed :
      {c : Bytes} {n : Notify} {items : List Bytes}
      → Listed c items
      → n ≡ flags_of items
      → NotifyText c n

module _ ⦃nom : Nom⦄ where
  Sound-notify_item : Sound notify_item (λ c a. (c ≡ a) × IsWord a)
  unfolding notify_item to_ascii_lowercase
  Sound-notify_item =
      Sound-weaken notify_item
        (Sound-alt _ _ (Sound-tag_no_case (codes "success"))
          (Sound-alt _ _ (Sound-tag_no_case (codes "failure")) (Sound-tag_no_case (codes "delay"))))
        (λ c a g. elim g [
          | inl s ↦ (s.0, success_word (rw s.0 at s.1))
          | inr g ↦ elim g [
            | inl f ↦ (f.0, failure_word (rw f.0 at f.1))
            | inr d ↦ (d.0, delay_word (rw d.0 at d.1))
          ]
        ])

  abbrev Word : Grammar Bytes
  Word c a = (c ≡ a) × IsWord a

  abbrev Tail : Grammar Bytes
  Tail c b = (a : Bytes) × Both (Literal (codes ",")) Word c a b

  Listed-Star :
      {c cs item : Bytes} {items : List Bytes}
      → IsWord item
      → Star Tail cs items
      → c ≡ item ++ cs
      → Listed c (item ∷ items)
  Listed-Star {item} w none_left e = last_word w (e ∙ append-nil item)
  Listed-Star w (one_more (a, both) s) e =
      let (same, w') = both.right_spells in
      then_word w (Listed-Star w' s refl) (e ∙ rw (both.joined, both.left_spells.0, same) refl)

  -- What `dsn_notify` reads is `never`, in any case, and no flag is then set, or it is a list of the
  -- words `success`, `failure` and `delay`, in any case and with commas between them, and a flag is
  -- then set exactly where its word is in the list.
  pub dsn_notify-NotifyText :
      (s r : Bytes) (n : Notify)
      → dsn_notify s ≡ ok r n
      → (c : Bytes) × (s ≡ c ++ r) × NotifyText c n
  unfolding dsn_notify to_ascii_lowercase
  dsn_notify-NotifyText s r n e =
      let x =
        (Sound-alt _ _ (Sound-map _ (Sound-tag_no_case (codes "never")) (λ _. nothing)) (
            Sound-map _
              (Sound-fold_prefix0 _ _ Sound-notify_item
                (Sound-preceded _ _ (Sound-tag (codes ",")) Sound-notify_item))
              convert_notify_list))
          s r n e in
      (
        x.text,
        x.splits,
        elim x.spells [
          | inl (a, (b, l), n_is) ↦ never l n_is
          | inr (as', (item, items, e', both), n_is) ↦
              let (same, word) = both.left_spells in
              listed (Listed-Star word both.right_spells (rw same at both.joined))
                (n_is ∙ convert_notify_list-flags_of as' ∙ ap flags_of e')
        ],
      )
