-- ===== src/Conversation/AssistantParts/Runs.antt =====
-- message-parts.js: the parts of an answer after any messages.
use magento2_chat_ai.Conversation.AssistantParts.{
  Part, products, image, guest_order_access, Message, chunk, discard_thinking_text, products_html,
  image_generated, guest_order_access_required, tool_activity, other_message, is_products,
  is_reasoning, put_products, put_activity, image_of, record_outbound_assistant_part, record_all,
}
use magento2_chat_ai.Prelude.{
  ℕ, suc, ◌≤◌, refl, sym, false, inl, inr, List, [], ◌∷◌, any, Bool-cases, arith,
}
use magento2_chat_ai.Text.{filled}
use magento2_chat_ai.Conversation.AssistantParts.Shape.{Apart, step-Apart}
use magento2_chat_ai.Conversation.AssistantParts.Kinds.{
  count, any-count, ReasoningFirst, count-append_chunk, count-discard, count-append, count-update,
  count-replace, not_products, chunk-ReasoningFirst, discard-ReasoningFirst, append-ReasoningFirst,
  replace-ReasoningFirst, update-ReasoningFirst,
}

-- No text follows a text, products stand there once at most, and reasoning only in the first place.
pub record IsShaped (ps : List Part) : Type 0 where
  pub apart : Apart false ps
  pub products_le : count is_products ps ≤ 1
  pub reasoning_first : ReasoningFirst ps

step-products :
    (m : Message) (ref : ℕ) (ps : List Part)
    → count is_products ps ≤ 1
    → count is_products (record_outbound_assistant_part m ref ps) ≤ 1
unfolding record_outbound_assistant_part put_products put_activity count is_products
step-products (chunk content) ref ps h =
    ground (arith, count-append_chunk is_products not_products content ps)
step-products discard_thinking_text ref ps h =
    omega (arith, count-discard is_products not_products ps)
step-products (products_html html payload) ref ps h = elim (Bool-cases (any is_products ps)) [
  | inl old ↦
      ground
        (arith, count-replace is_products not_products (products html payload) ps (λ p e. sym e))
  | inr first ↦ ground (
    arith,
    any-count is_products ps first,
    count-append is_products not_products (products html payload) ps,
  )
]
step-products (image_generated m) ref ps h =
    ground (arith, count-append is_products not_products (image (image_of m)) ps)
step-products (guest_order_access_required s e) ref ps h =
    ground (arith, count-append is_products not_products (guest_order_access s e) ps)
step-products (tool_activity m) ref ps h =
    ground (arith, count-update is_products not_products m ref ps (λ r s. refl))
step-products other_message ref ps h = h

step-ReasoningFirst :
    (m : Message) (ref : ℕ) (ps : List Part)
    → ReasoningFirst ps
    → ReasoningFirst (record_outbound_assistant_part m ref ps)
unfolding record_outbound_assistant_part put_products put_activity is_reasoning is_products
step-ReasoningFirst (chunk content) ref ps h = elim (Bool-cases (filled content)) [
  | inl some_text ↦ rw some_text (chunk-ReasoningFirst content ps h)
  | inr no_text ↦ rw no_text h
]
step-ReasoningFirst discard_thinking_text ref ps h = discard-ReasoningFirst ps h
step-ReasoningFirst (products_html html payload) ref ps h = elim (Bool-cases (filled html)) [
  | inl given ↦ elim (Bool-cases (any is_products ps)) [
    | inl old ↦ rw (given, old) (replace-ReasoningFirst (products html payload) ps refl h)
    | inr first ↦ rw (given, first) (append-ReasoningFirst (products html payload) ps refl h)
  ]
  | inr absent ↦ rw absent h
]
step-ReasoningFirst (image_generated m) ref ps h = elim (Bool-cases (filled m.url)) [
  | inl given ↦ rw given (append-ReasoningFirst (image (image_of m)) ps refl h)
  | inr absent ↦ rw absent h
]
step-ReasoningFirst (guest_order_access_required s e) ref ps h =
    append-ReasoningFirst (guest_order_access s e) ps refl h
step-ReasoningFirst (tool_activity m) ref ps h = elim (Bool-cases (filled m.tool)) [
  | inl given ↦ elim (Bool-cases (any is_reasoning ps)) [
    | inl old ↦ rw (given, old) (update-ReasoningFirst m ref ps h)
    | inr first ↦ rw (given, first) (any-count is_reasoning ps first)
  ]
  | inr absent ↦ rw absent h
]
step-ReasoningFirst other_message ref ps h = h

record_all-from :
    (ms : List Message) (ref : ℕ) (ps : List Part) → IsShaped ps → IsShaped (record_all ms ref ps)
unfolding record_all
record_all-from [] ref ps h = h
record_all-from (m ∷ ms) ref ps h =
    record_all-from ms (suc ref) (record_outbound_assistant_part m ref ps) (record {
      apart = step-Apart m ref ps h.apart;
      products_le = step-products m ref ps h.products_le;
      reasoning_first = step-ReasoningFirst m ref ps h.reasoning_first;
    })

-- Whatever messages go out, in the parts of the answer no text follows a text, products stand there
-- at most once, and reasoning only in the first place.
pub record_all-IsShaped : (ms : List Message) (ref : ℕ) → IsShaped (record_all ms ref [])
unfolding count
record_all-IsShaped ms ref =
    record_all-from ms ref []
      (record { apart = tt; products_le = omega arith; reasoning_first = tt })
