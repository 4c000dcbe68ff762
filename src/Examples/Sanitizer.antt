-- ===== src/Examples/Sanitizer.antt =====
-- Replies through the sanitizer and the turn buffer.
use magento2_chat_ai.Conversation.Sanitizer.{sanitize_customer_response, push, flush, hold_back}
use magento2_chat_ai.Conversation.Sanitizer.Pieces.{join, reply}
use magento2_chat_ai.Conversation.TurnBuffer as TurnBuffer
use magento2_chat_ai.Conversation.TurnBuffer.{Call, pushed, released, run-reply}
use magento2_chat_ai.Prelude.{◌≡◌, refl, List, [], ◌∷◌, ◌++◌}
use magento2_chat_ai.Text.{Text, codes}

abbrev two_chunks : List Text
two_chunks = codes "addTo" ∷ codes "Cart  is done ." ∷ []

-- A name, a double space and a space before a mark go.
sanitized : sanitize_customer_response (codes "Use ADDTOCART  now .") ≡ codes "Use now."
unfolding sanitize_customer_response
sanitized = refl

-- Question marks go before a link only.
icons : sanitize_customer_response (codes "so?? ??[shop](http://a)") ≡ codes "so?? [shop](http://a)"
unfolding sanitize_customer_response
icons = refl

reply_shown : reply two_chunks ≡ codes "is done."
unfolding reply push hold_back flush sanitize_customer_response
reply_shown = refl

-- A name that a cut falls into is shown.
abbrev split_name : List Text
split_name = codes "Please use getProductAvailability" ∷ codes " today" ∷ []

split_name_shown : reply split_name ≡ codes "Please use getProductAvailability today"
unfolding reply push hold_back flush sanitize_customer_response
split_name_shown = refl

split_name_sanitized : sanitize_customer_response (join split_name) ≡ codes "Please use today"
unfolding sanitize_customer_response join
split_name_sanitized = refl

abbrev calls : List Call
calls =
    pushed (codes "Hi, the jacket is in stock in blue.")
    ∷ released
    ∷ pushed (codes " Shall I?")
    ∷ []

abbrev used_buffer : TurnBuffer.TurnBuffer
used_buffer = TurnBuffer.push (codes "Let me look that up in the shop.") TurnBuffer.new_buffer

run-reply_example :
    (TurnBuffer.run calls (TurnBuffer.discard used_buffer)).0
      ++ (TurnBuffer.commit (TurnBuffer.run calls (TurnBuffer.discard used_buffer)).1).0
    ≡ reply (TurnBuffer.chunks_of calls)
run-reply_example = run-reply calls used_buffer
