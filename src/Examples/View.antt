-- ===== src/Examples/View.antt =====
-- A message whose blocks grow.
use magento2_chat_ai.JsMap
use magento2_chat_ai.Prelude.{
  ℕ_discrete, ℕ, ◌+◌, ◌≡◌, refl, keep, Bool, true, false, none, some, List, [], ◌∷◌, map, arith,
}
use magento2_chat_ai.Text.{Text, codes}
use magento2_chat_ai.View.MessagePatch.{
  Node, patch_message_blocks, patch_message_text, new_element, is_blank,
}
use magento2_chat_ai.View.MessagePatch.Shown.{blocks_of, next_blocks_of, draw_all, draw_all-shown}
use magento2_chat_ai.View.MessagePatch.Stable.{patch-after_text}
use magento2_chat_ai.View.RenderQueue.{join_blocks, Event, created, appended, frame_due}
use magento2_chat_ai.View.RenderQueue.Steps.{step, run}
use magento2_chat_ai.View.RenderQueue.Texts.{text_got, frame-shown}

abbrev drawn : List (Bool × List Text)
drawn = (true, codes "a" ∷ []) ∷ (true, codes "a" ∷ codes " " ∷ codes "b" ∷ []) ∷ []

draw_all-shown_example :
    blocks_of
      (patch_message_blocks false
        (codes "a" ∷ codes "c" ∷ [])
        (draw_all drawn new_element)).children
    ≡ map some (next_blocks_of (codes "a" ∷ codes "c" ∷ []))
draw_all-shown_example =
    draw_all-shown drawn false (codes "a" ∷ codes "c" ∷ []) (omega arith) (omega arith)

-- The second block fades in at once, the third sixty milliseconds later.
faded :
    map
      (λ (k : Node). k.fade_delay)
      (draw_all
        ((true, codes "a" ∷ []) ∷ (true, codes "a" ∷ codes "b" ∷ codes "c" ∷ []) ∷ [])
        new_element).children
    ≡ some 0 ∷ some 0 ∷ some 60 ∷ []
unfolding draw_all patch_message_blocks is_blank keep
faded = refl

abbrev parsed : Text → ℕ → List Node × ℕ
parsed html n = (record { identity = n; block_html = none; fade_delay = none } ∷ [], n + 1)

patch-after_text_example :
    patch_message_blocks true (codes "a" ∷ []) (
      patch_message_text parsed
        (λ kids. [])
        (codes "<p>")
        (patch_message_blocks true (codes "a" ∷ []) new_element))
    ≡ patch_message_text parsed
        (λ kids. [])
        (codes "<p>")
        (patch_message_blocks true (codes "a" ∷ []) new_element)
patch-after_text_example =
    patch-after_text parsed (λ kids. []) (codes "<p>") true (codes "a" ∷ []) new_element

abbrev words : Text → List Text
words raw = raw ∷ []

abbrev typed : List Event
typed = created (codes "a") ∷ frame_due ∷ appended 0 (codes "b") ∷ []

frame-shown_example :
    (text_got 0 0 typed none ≡ some (codes "ab"))
    × (codes "ab" ∷ [] ≡ words (codes "ab"))
    × (codes "ab" ≡ join_blocks (words (codes "ab")))
unfolding step JsMap.get run JsMap.set ℕ_discrete
frame-shown_example =
    frame-shown words (λ raw. raw) words true typed 0
      (record { raw = codes "ab"; html = codes "ab"; blocks = codes "ab" ∷ []; streaming = true })
      refl refl
