-- ===== src/Conversation/AssistantParts/Activities.antt =====
-- message-parts.js: the activities of an answer.
use magento2_chat_ai.Conversation.AssistantParts.{
  Activity, Reasoning, ToolActivity, record_activity, record_found, find_id, write_activity,
  update_activity, move_to_end, existing_activity, record_existing, is_restarted, new_activity,
  last_activity, if_continued,
}
use magento2_chat_ai.Prelude.{
  ℕ, ◌≡◌, ◌⊎◌, refl, sym, ap, ◌∙◌, Bool, false, not, inl, inr, Option, none, some, Option-cases,
  List, [], ◌∷◌, ◌++◌, keep, Bool-cases, arith, if◌then◌else◌, ◌==◌, ==_iff,
}
use magento2_chat_ai.Text.{Text, text_eq, text_eq_iff}

-- No two activities have the same id.
abbrev pub UniqueIds : List Activity → Type 0
UniqueIds [] = Unit {0}
UniqueIds (a ∷ es) = (find_id a.id es ≡ none) × UniqueIds es

abbrev In : Activity → List Activity → Type 0
In a [] = ⊥
In a (e ∷ es) = (a ≡ e) ⊎ In a es

absent-cons :
    (id : Text) (e : Activity) (es : List Activity)
    → text_eq e.id id ≡ false
    → find_id id es ≡ none
    → find_id id (e ∷ es) ≡ none
unfolding find_id
absent-cons id e es a b = ground arith

absent-split :
    (id : Text) (e : Activity) (es : List Activity)
    → find_id id (e ∷ es) ≡ none
    → (text_eq e.id id ≡ false) × (find_id id es ≡ none)
unfolding find_id
absent-split id e es h = ground arith

written-id :
    (m : ToolActivity) (ref : ℕ) (e : Activity)
    → (((if e.ref == ref then update_activity m e else e)).id ≡ e.id)
      × (((if e.ref == ref then update_activity m e else e)).ref ≡ e.ref)
unfolding update_activity
written-id m ref e = ground arith

absent-write :
    (m : ToolActivity) (ref : ℕ) (id : Text) (es : List Activity)
    → find_id id es ≡ none
    → find_id id (write_activity m ref es) ≡ none
unfolding write_activity
absent-write m ref id [] h = h
absent-write m ref id (e ∷ es) h =
    let (a, b) = absent-split id e es h in
    absent-cons id (if e.ref == ref then update_activity m e else e) (write_activity m ref es)
      (ap (λ (t : Text). text_eq t id) (written-id m ref e).0 ∙ a) (absent-write m ref id es b)

absent-keep :
    (p : Activity → Bool) (id : Text) (es : List Activity)
    → find_id id es ≡ none
    → find_id id (keep p es) ≡ none
unfolding keep
absent-keep p id [] h = h
absent-keep p id (e ∷ es) h =
    let (a, b) = absent-split id e es h in
    elim (Bool-cases (p e)) [
      | inl kept ↦ rw kept (absent-cons id e (keep p es) a (absent-keep p id es b))
      | inr dropped ↦ rw dropped (absent-keep p id es b)
    ]

absent-append :
    (id : Text) (a : Activity) (es : List Activity)
    → text_eq a.id id ≡ false
    → find_id id es ≡ none
    → find_id id (es ++ a ∷ []) ≡ none
absent-append id a [] e h = absent-cons id a [] e h
absent-append id a (x ∷ es) e h =
    let (b, c) = absent-split id x es h in
    absent-cons id x (es ++ a ∷ []) b (absent-append id a es e c)

UniqueIds-write :
    (m : ToolActivity) (ref : ℕ) (es : List Activity)
    → UniqueIds es
    → UniqueIds (write_activity m ref es)
unfolding write_activity
UniqueIds-write m ref [] u = tt
UniqueIds-write m ref (e ∷ es) (a, u) = (
  ap (λ (t : Text). find_id t (write_activity m ref es)) (written-id m ref e).0
      ∙ absent-write m ref e.id es a,
  UniqueIds-write m ref es u,
)

UniqueIds-keep : (p : Activity → Bool) (es : List Activity) → UniqueIds es → UniqueIds (keep p es)
unfolding keep
UniqueIds-keep p [] u = tt
UniqueIds-keep p (e ∷ es) (a, u) = elim (Bool-cases (p e)) [
  | inl kept ↦ rw kept (absent-keep p e.id es a, UniqueIds-keep p es u)
  | inr dropped ↦ rw dropped (UniqueIds-keep p es u)
]

text_eq-sym : (s t : Text) → text_eq s t ≡ false → text_eq t s ≡ false
text_eq-sym s t h = ground (arith, text_eq_iff s t, text_eq_iff t s)

UniqueIds-append :
    (a : Activity) (es : List Activity)
    → find_id a.id es ≡ none
    → UniqueIds es
    → UniqueIds (es ++ a ∷ [])
UniqueIds-append a [] h u = (unfold find_id in refl, tt)
UniqueIds-append a (e ∷ es) h (b, u) =
    let (c, d) = absent-split a.id e es h in
    (absent-append e.id a es (text_eq-sym e.id a.id c) b, UniqueIds-append a es d u)

find-In : (id : Text) (es : List Activity) (a : Activity) → find_id id es ≡ some a → In a es
unfolding find_id
find-In id [] a h = cc
find-In id (e ∷ es) a h = elim (Bool-cases (text_eq e.id id)) [
  | inl same ↦ inl (ground arith)
  | inr other ↦ inr (find-In id es a (ground arith))
]

last-In : (es : List Activity) (a : Activity) → last_activity es ≡ some a → In a es
unfolding last_activity
last-In [] a h = cc
last-In (e ∷ []) a h = inl (cc)
last-In (e ∷ f ∷ es) a h = inr (last-In (f ∷ es) a h)

In-different :
    (a e : Activity) (es : List Activity)
    → find_id e.id es ≡ none
    → In a es
    → text_eq e.id a.id ≡ false
In-different a e [] h i = absurd i
In-different a e (x ∷ es) h (inl same) =
    text_eq-sym a.id e.id
      (ap (λ (b : Activity). text_eq b.id e.id) same ∙ (absent-split e.id x es h).0)
In-different a e (x ∷ es) h (inr later) = In-different a e es (absent-split e.id x es h).1 later

-- What is left of the list once an activity of it was taken out holds no other one with its id.
moved-absent :
    (m : ToolActivity) (a : Activity) (es : List Activity)
    → UniqueIds es
    → In a es
    → find_id a.id (keep (λ (b : Activity). not (b.ref == a.ref)) (write_activity m a.ref es))
      ≡ none
unfolding write_activity keep
moved-absent m a [] u i = absurd i
moved-absent m a (e ∷ es) (h, u) (inl same) =
    let e' = if e.ref == a.ref then update_activity m e else e in
    let gone : not (e'.ref == a.ref) ≡ false =
      ap (λ (n : ℕ). not (n == a.ref))
        ((written-id m a.ref e).1 ∙ sym (ap (λ (b : Activity). b.ref) same))
      ∙ ap not ((==_iff a.ref a.ref).1 refl) in
    rw gone (
      absent-keep (λ (b : Activity). not (b.ref == a.ref)) a.id (write_activity m a.ref es)
        (absent-write m a.ref a.id es (ap (λ (b : Activity). find_id b.id es) same ∙ h)))
moved-absent m a (e ∷ es) (h, u) (inr later) =
    let e' = if e.ref == a.ref then update_activity m e else e in
    let rest = moved-absent m a es u later in
    elim (Bool-cases (not (e'.ref == a.ref))) [
      | inl kept ↦ rw kept (
          absent-cons a.id e'
            (keep (λ (b : Activity). not (b.ref == a.ref)) (write_activity m a.ref es))
            (ap (λ (t : Text). text_eq t a.id) (written-id m a.ref e).0
              ∙ In-different a e es h later)
            rest)
      | inr gone ↦ rw gone rest
    ]

existing-In :
    (m : ToolActivity) (es : List Activity) (a : Activity)
    → existing_activity m es ≡ some a
    → In a es
unfolding existing_activity if_continued
existing-In m es a h = elim (Option-cases (find_id m.activity_id es)) [
  | inr (b, found) ↦ find-In m.activity_id es a (ground arith)
  | inl missing ↦ elim (Option-cases (last_activity es)) [
    | inl empty ↦ absurd (ground arith)
    | inr (b, last) ↦ last-In es a (ground arith)
  ]
]

existing-absent :
    (m : ToolActivity) (es : List Activity)
    → existing_activity m es ≡ none
    → find_id m.activity_id es ≡ none
unfolding existing_activity
existing-absent m es h = ground arith

-- The two lists are the same, and no id stands in them twice.
pub record IsSound (r : Reasoning) : Type 0 where
  pub same : r.activities ≡ r.events
  pub unique : UniqueIds r.events

existing-UniqueIds :
    (m : ToolActivity) (a : Activity) (es : List Activity)
    → UniqueIds es
    → In a es
    → UniqueIds (record_existing m a es)
unfolding record_existing move_to_end update_activity
existing-UniqueIds m a es u i = elim (Bool-cases (is_restarted m a)) [
  | inl restarted ↦ rw restarted (
      UniqueIds-append (update_activity m a)
        (keep (λ (b : Activity). not (b.ref == a.ref)) (write_activity m a.ref es))
        (moved-absent m a es u i)
        (UniqueIds-keep (λ (b : Activity). not (b.ref == a.ref)) (write_activity m a.ref es)
          (UniqueIds-write m a.ref es u)))
  | inr running ↦ rw running (UniqueIds-write m a.ref es u)
]

record_found-IsSound :
    (m : ToolActivity) (ref : ℕ) (r : Reasoning) (o : Option Activity)
    → existing_activity m r.events ≡ o
    → IsSound r
    → IsSound (record_found m ref r o)
unfolding record_found
record_found-IsSound m ref r (some a) found k = record {
  same = ap (record_existing m a) k.same;
  unique = existing-UniqueIds m a r.events k.unique (existing-In m r.events a found);
}
record_found-IsSound m ref r none missing k = record {
  same = ap (λ (es : List Activity). es ++ new_activity ref m ∷ []) k.same;
  unique =
      UniqueIds-append (new_activity ref m) r.events
        (unfold new_activity in existing-absent m r.events missing) k.unique;
}

pub record_activity-IsSound :
    (m : ToolActivity) (ref : ℕ) (r : Reasoning) → IsSound r → IsSound (record_activity m ref r)
unfolding record_activity
record_activity-IsSound m ref r k =
    record_found-IsSound m ref r (existing_activity m r.events) refl k
