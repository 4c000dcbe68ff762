-- ===== src/Conversation/GuestHistory/Paging.antt =====
-- What the pages of messages of guest-session-history.js show of a conversation.
use magento2_chat_ai.Prelude.{
  ℕ, ◌-◌, ◌≤◌, ◌<◌, ◌≡◌, refl, sym, ap, true, Bool-cases, none, List, [], ◌∷◌, ◌++◌, take, drop,
  take_last, length, any, keep, if◌then◌else◌, ltb, arith, inl, inr, take-append-drop,
  length-take_last, length-drop, length-take,
}
use magento2_chat_ai.Conversation.GuestHistory.{
  Message, State, Page, read, messages_of, has_id, first_id, before_id, page_of, load_messages,
}
use magento2_chat_ai.Conversation.GuestHistory.Ids.{AllAbove, RisesTo}

module _ {M : Type 0} where
  keep_none :
      (k : ℕ) (ys : List (Message M)) → AllAbove k ys → keep (λ m. ltb m.entity_id k) ys ≡ []
  unfolding keep
  keep_none k [] a = refl
  keep_none k (y ∷ ys) a = let above : k < y.entity_id = a.0 in ground (arith, keep_none k ys a.1)

  AllAbove-mid :
      (k : ℕ) (xs : List (Message M)) (y : Message M) (ys : List (Message M))
      → AllAbove k (xs ++ y ∷ ys)
      → k < y.entity_id
  AllAbove-mid k [] y ys a = a.0
  AllAbove-mid k (x ∷ xs) y ys a = AllAbove-mid k xs y ys a.1

  keep_prefix :
      (hi : ℕ) (xs : List (Message M)) (y : Message M) (ys : List (Message M))
      → RisesTo hi (xs ++ y ∷ ys)
      → keep (λ m. ltb m.entity_id y.entity_id) (xs ++ y ∷ ys) ≡ xs
  unfolding keep
  keep_prefix hi [] y ys r = ground (arith, keep_none y.entity_id ys r.1.0)
  keep_prefix hi (x ∷ xs) y ys r =
      let lower = AllAbove-mid x.entity_id xs y ys r.1.0 in
      let ih = keep_prefix hi xs y ys r.1.1 in ground arith

  take_last_all : (n : ℕ) (xs : List (Message M)) → length xs ≤ n → take_last n xs ≡ xs
  take_last_all n xs le =
      let none_dropped : length xs - n ≡ 0 = omega arith in ap (λ k. drop k xs) none_dropped

  -- The page after one that starts with the message `first`.
  next_from :
      (hi n : ℕ) (ms tail : List (Message M))
      → tail ≡ drop n ms
      → AllAbove 0 ms
      → RisesTo hi ms
      → n < length ms
      → before_id (first_id tail) ms ≡ take n ms
  unfolding before_id
  next_from hi n ms [] e pos r lt =
      let empty : length (drop n ms) ≡ 0 = ap length (sym e) in
      absurd (omega (arith, length-drop n ms, empty))
  next_from hi n ms (y ∷ ys) e pos r lt =
      let whole : take n ms ++ y ∷ ys ≡ ms = rw e (take-append-drop n ms) in
      let positive = AllAbove-mid 0 (take n ms) y ys (rw whole pos) in
      let kept = keep_prefix hi (take n ms) y ys (rw whole r) in
      let kept' : keep (λ m. ltb m.entity_id y.entity_id) ms ≡ take n ms = rw whole at kept in
      ground (arith, kept', positive)

  second_page : Page M → List (Message M) → List (Message M)
  second_page p ms =
      if p.has_more then (page_of (before_id p.next_before_message_id ms)).messages else []

  two_pages_of :
      (hi : ℕ) (ms : List (Message M))
      → AllAbove 0 ms
      → RisesTo hi ms
      → length ms ≤ 100
      → second_page (page_of ms) ms ++ (page_of ms).messages ≡ ms
  unfolding page_of second_page
  two_pages_of hi ms pos r le = elim (Bool-cases (ltb (length (take_last 50 ms)) (length ms))) [
    | inl more ↦
        let lt : 50 < length ms = ground (arith, length-take_last 50 ms) in
        let n = length ms - 50 in
        let older = next_from hi n ms (take_last 50 ms) refl pos r (omega arith) in
        let short : length (take n ms) ≤ 50 = omega (arith, length-take n ms) in
        rw more (rw older (rw (take_last_all 50 (take n ms) short) (take-append-drop n ms)))
    | inr fits ↦
        let le_50 : length ms ≤ 50 = ground (arith, length-take_last 50 ms) in
        rw fits (take_last_all 50 ms le_50)
  ]

module _ {T M : Type 0} where
  -- The pages that a client loads which asks for the newest messages and, when there are more, for
  -- those before the first that it has.
  unfoldable pub older_page : ℕ → State T M → List (Message M)
  older_page id s =
      let p = load_messages id none s in
      if p.has_more then (load_messages id p.next_before_message_id s).messages else []

  -- In a conversation that exists, whose at most 100 messages have positive ids in strictly
  -- increasing order, the older page and the newest one together are exactly its messages.
  pub two_pages-all :
      (id : ℕ) (s : State T M)
      → any (has_id id) (read s).conversations ≡ true
      → AllAbove 0 (messages_of id (read s))
      → RisesTo s.last_generated_id (messages_of id (read s))
      → length (messages_of id (read s)) ≤ 100
      → older_page id s ++ (load_messages id none s).messages ≡ messages_of id (read s)
  unfolding older_page load_messages second_page before_id
  two_pages-all id s known pos r le =
      rw known (two_pages_of s.last_generated_id (messages_of id (read s)) pos r le)
