-- ===== src/Conversation/AssistantParts/ActivityRuns.antt =====
-- message-parts.js: the activities of an answer after any messages.
use magento2_chat_ai.Conversation.AssistantParts.{
  Part, text_part, products, image, guest_order_access, reasoning, Message, chunk,
  discard_thinking_text, products_html, image_generated, guest_order_access_required, tool_activity,
  other_message, is_text, is_products, is_reasoning, is_stop, append_chunk,
  discard_latest_thinking_text, replace_last_products, put_products, update_reasoning, put_activity,
  image_of, record_outbound_assistant_part, record_all, ToolActivity,
}
use magento2_chat_ai.Prelude.{ℕ, suc, refl, inl, inr, List, [], ◌∷◌, ◌++◌, any, Bool-cases}
use magento2_chat_ai.Text.{Text, filled}
use magento2_chat_ai.Conversation.AssistantParts.Activities.{IsSound, record_activity-IsSound}

-- Every reasoning among the parts is sound.
abbrev pub PartIsSound : Part → Type 0
PartIsSound (reasoning r) = IsSound r
PartIsSound _ = Unit {0}

abbrev pub AllSound : List Part → Type 0
AllSound [] = Unit {0}
AllSound (p ∷ ps) = PartIsSound p × AllSound ps

AllSound-append :
    (p : Part) (ps : List Part) → PartIsSound p → AllSound ps → AllSound (ps ++ p ∷ [])
AllSound-append p [] k h = (k, tt)
AllSound-append p (q ∷ ps) k (h, hs) = (h, AllSound-append p ps k hs)

AllSound-chunk : (c : Text) (ps : List Part) → AllSound ps → AllSound (append_chunk c ps)
unfolding append_chunk
AllSound-chunk c [] h = (tt, tt)
AllSound-chunk c (text_part raw ∷ []) h = (tt, tt)
AllSound-chunk c (products html payload ∷ []) h = (tt, (tt, tt))
AllSound-chunk c (image i ∷ []) h = (tt, (tt, tt))
AllSound-chunk c (guest_order_access s e ∷ []) h = (tt, (tt, tt))
AllSound-chunk c (reasoning r ∷ []) (h, _) = (h, (tt, tt))
AllSound-chunk c (p ∷ q ∷ ps) (h, hs) = (h, AllSound-chunk c (q ∷ ps) hs)

AllSound-discard : (ps : List Part) → AllSound ps → AllSound (discard_latest_thinking_text ps)
unfolding discard_latest_thinking_text
AllSound-discard [] h = h
AllSound-discard (p ∷ ps) (h, hs) = elim (Bool-cases (any is_stop ps)) [
  | inl later ↦ rw later (h, AllSound-discard ps hs)
  | inr last ↦ elim (Bool-cases (is_text p)) [
    | inl text ↦ rw (last, text) hs
    | inr other ↦ rw (last, other) (h, hs)
  ]
]

AllSound-replace :
    (part : Part) (ps : List Part)
    → PartIsSound part
    → AllSound ps
    → AllSound (replace_last_products part ps)
unfolding replace_last_products
AllSound-replace part [] k h = h
AllSound-replace part (p ∷ ps) k (h, hs) = elim (Bool-cases (any is_products ps)) [
  | inl later ↦ rw later (h, AllSound-replace part ps k hs)
  | inr last ↦ elim (Bool-cases (is_products p)) [
    | inl found ↦ rw (last, found) (k, hs)
    | inr other ↦ rw (last, other) (h, hs)
  ]
]

AllSound-update :
    (m : ToolActivity) (ref : ℕ) (ps : List Part)
    → AllSound ps
    → AllSound (update_reasoning m ref ps)
unfolding update_reasoning
AllSound-update m ref [] h = h
AllSound-update m ref (reasoning r ∷ ps) (h, hs) = (record_activity-IsSound m ref r h, hs)
AllSound-update m ref (text_part raw ∷ ps) (h, hs) = (tt, AllSound-update m ref ps hs)
AllSound-update m ref (products html payload ∷ ps) (h, hs) = (tt, AllSound-update m ref ps hs)
AllSound-update m ref (image i ∷ ps) (h, hs) = (tt, AllSound-update m ref ps hs)
AllSound-update m ref (guest_order_access s e ∷ ps) (h, hs) = (tt, AllSound-update m ref ps hs)

step-AllSound :
    (m : Message) (ref : ℕ) (ps : List Part)
    → AllSound ps
    → AllSound (record_outbound_assistant_part m ref ps)
unfolding record_outbound_assistant_part put_products put_activity
step-AllSound (chunk content) ref ps h = elim (Bool-cases (filled content)) [
  | inl some_text ↦ rw some_text (AllSound-chunk content ps h)
  | inr no_text ↦ rw no_text h
]
step-AllSound discard_thinking_text ref ps h = AllSound-discard ps h
step-AllSound (products_html html payload) ref ps h = elim (Bool-cases (filled html)) [
  | inl given ↦ elim (Bool-cases (any is_products ps)) [
    | inl old ↦ rw (given, old) (AllSound-replace (products html payload) ps tt h)
    | inr first ↦ rw (given, first) (AllSound-append (products html payload) ps tt h)
  ]
  | inr absent ↦ rw absent h
]
step-AllSound (image_generated m) ref ps h = elim (Bool-cases (filled m.url)) [
  | inl given ↦ rw given (AllSound-append (image (image_of m)) ps tt h)
  | inr absent ↦ rw absent h
]
step-AllSound (guest_order_access_required s e) ref ps h =
    AllSound-append (guest_order_access s e) ps tt h
step-AllSound (tool_activity m) ref ps h = elim (Bool-cases (filled m.tool)) [
  | inl given ↦ elim (Bool-cases (any is_reasoning ps)) [
    | inl old ↦ rw (given, old) (AllSound-update m ref ps h)
    | inr first ↦
        rw (given, first)
          (
            record_activity-IsSound m ref (record { events = []; activities = [] })
                (record { same = refl; unique = tt }),
            h,
          )
  ]
  | inr absent ↦ rw absent h
]
step-AllSound other_message ref ps h = h

record_all-sound_from :
    (ms : List Message) (ref : ℕ) (ps : List Part) → AllSound ps → AllSound (record_all ms ref ps)
unfolding record_all
record_all-sound_from [] ref ps h = h
record_all-sound_from (m ∷ ms) ref ps h =
    record_all-sound_from ms (suc ref) (record_outbound_assistant_part m ref ps)
      (step-AllSound m ref ps h)

-- Whatever messages go out, updates, continuations and restarts of activities among them, the two
-- lists of a reasoning part hold the same activities, and no id stands in them twice.
pub record_all-AllSound : (ms : List Message) (ref : ℕ) → AllSound (record_all ms ref [])
record_all-AllSound ms ref = record_all-sound_from ms ref [] tt
