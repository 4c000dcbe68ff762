-- ===== src/Conversation/GuestHistory.antt =====
-- `GuestSessionHistory` of guest-session-history.js, for one guest: the value that the runtime
-- stores for it, read, changed and written back by each operation. Times are numbers; titles and
-- message payloads are values of any types. Each operation runs under the guest's lock.
pub mod Ids
pub mod Paging
use magento2_chat_ai.JsMap
use magento2_chat_ai.Prelude.{
  ℕ, suc, ◌+◌, ◌-◌, ◌*◌, max, Bool, true, false, not, ◌&&◌, Option, none, some, List, [], ◌∷◌, ◌++◌,
  map, ltb, leb, ◌==◌, length, take, drop, take_last, keep, any, find, or_else, if◌then◌else◌,
  ℕ_discrete,
}

pub record Conversation (T : Type 0) : Type 0 where
  pub id : ℕ
  pub title : T
  pub created_at : ℕ
  pub updated_at : ℕ

pub record Message (M : Type 0) : Type 0 where
  pub entity_id : ℕ
  pub is_user : Bool
  pub payload : M
  pub created_at : ℕ

pub record Store (T M : Type 0) : Type 0 where
  pub conversations : List (Conversation T)
  pub messages : List (ℕ × List (Message M))

-- The module's `lastGeneratedId`, and what is stored for the guest.
pub record State (T M : Type 0) : Type 0 where
  pub last_generated_id : ℕ
  pub cached : Option (Store T M)

abbrev pub max_conversations : ℕ
max_conversations = 20

abbrev pub max_messages : ℕ
max_messages = 100

-- `Number(`${Date.now()}${crypto.randomInt(100, 1000)}`)`, made strictly larger than the last one.
unfoldable pub conversation_id : ℕ → ℕ → ℕ → ℕ
conversation_id last now random = max (last + 1) (now * 1000 + random)

pub record Page (M : Type 0) : Type 0 where
  pub messages : List (Message M)
  pub has_more : Bool
  pub next_before_message_id : Option ℕ

module _ {T : Type 0} where
  -- `sort` by `updated_at`, newest first and stable.
  unfoldable pub insert_by_update : Conversation T → List (Conversation T) → List (Conversation T)
  insert_by_update c [] = c ∷ []
  insert_by_update c (d ∷ ds) =
      if leb d.updated_at c.updated_at then c ∷ d ∷ ds else d ∷ insert_by_update c ds

  unfoldable pub sort_by_update : List (Conversation T) → List (Conversation T)
  unfolding insert_by_update
  sort_by_update [] = []
  sort_by_update (c ∷ cs) = insert_by_update c (sort_by_update cs)

  abbrev pub has_id : ℕ → Conversation T → Bool
  has_id id c = c.id == id

  -- `conversation.updated_at = ...` on the conversation that `find` returned, the first with the id.
  unfoldable pub touch :
      ℕ → (Conversation T → Conversation T) → List (Conversation T) → List (Conversation T)
  touch id f [] = []
  touch id f (c ∷ cs) = if has_id id c then f c ∷ cs else c ∷ touch id f cs

module _ {M : Type 0} where
  abbrev pub first_id : List (Message M) → Option ℕ
  first_id [] = none
  first_id (m ∷ ms) = if leb m.entity_id 0 then none else some m.entity_id

  unfoldable pub before_id : Option ℕ → List (Message M) → List (Message M)
  unfolding keep
  before_id none ms = ms
  before_id (some b) ms = keep (λ m. ltb m.entity_id b) ms

  unfoldable pub page_of : List (Message M) → Page M
  page_of filtered =
      let page = take_last 50 filtered in
      record {
        messages = page;
        has_more = ltb (length page) (length filtered);
        next_before_message_id =
            if ltb (length page) (length filtered) then first_id page else none;
      }

  -- `findIndex` of the edited user message: the messages before it, if it is there.
  unfoldable pub before_branch : ℕ → List (Message M) → Option (List (Message M))
  before_branch from [] = none
  before_branch from (m ∷ ms) =
      if (m.entity_id == from) && m.is_user
      then some []
      else elim (before_branch from ms) [ none ↦ none | some kept ↦ some (m ∷ kept) ]

module _ {T M : Type 0} where
  unfoldable pub normalize_store : Option (Store T M) → Store T M
  normalize_store none = record { conversations = []; messages = [] }
  normalize_store (some s) = record s { conversations = take max_conversations s.conversations }

  unfoldable pub read : State T M → Store T M
  unfolding normalize_store
  read s = normalize_store s.cached

  unfoldable pub write : Store T M → State T M → State T M
  write st s = record s { cached = some st }

  -- The conversations of a page; `requested` is a whole number, and 0 stands for no page.
  unfoldable pub list : ℕ → State T M → List (Conversation T)
  unfolding sort_by_update
  list requested s =
      take 1
        (drop ((max 1 requested - 1) * max_conversations) (sort_by_update (read s).conversations))

  unfoldable pub get : ℕ → State T M → Option (Conversation T)
  unfolding find
  get id s = find (has_id id) (read s).conversations

  unfoldable pub messages_of : ℕ → Store T M → List (Message M)
  messages_of id st = or_else (JsMap.get ℕ_discrete id st.messages) []

  unfoldable pub create_or_return :
      ℕ → ℕ → T → Store T M → List (Conversation T) → State T M → Conversation T × State T M
  create_or_return now random title st (existing ∷ rest) s = (existing, s)
  create_or_return now random title st [] s =
      let id = conversation_id s.last_generated_id now random in
      let c : Conversation T = record {
        id = id;
        title = title;
        created_at = now;
        updated_at = now;
      } in
      (
        c,
        record {
          last_generated_id = id;
          cached = some (record {
            conversations = take max_conversations (c ∷ st.conversations);
            messages = JsMap.set ℕ_discrete id [] st.messages;
          });
        },
      )

  -- `title` is `titleFrom` of the argument.
  unfoldable pub create : ℕ → ℕ → T → State T M → Conversation T × State T M
  unfolding create_or_return
  create now random title s =
      create_or_return now random title (read s) (sort_by_update (read s).conversations) s

  -- `before_message_id` is none for a missing id or the id 0.
  unfoldable pub load_messages : ℕ → Option ℕ → State T M → Page M
  unfolding any before_id page_of messages_of
  load_messages id before_message_id s =
      if any (has_id id) (read s).conversations
      then page_of (before_id before_message_id (messages_of id (read s)))
      else record { messages = []; has_more = false; next_before_message_id = none }

  -- The id of the message, or none for `false`.
  unfoldable pub append : ℕ → ℕ → ℕ → Bool → M → State T M → Option ℕ × State T M
  unfolding any touch messages_of
  append now random id is_user payload s =
      let st = read s in
      let entity_id = conversation_id s.last_generated_id now random in
      let m : Message M = record {
        entity_id = entity_id;
        is_user = is_user;
        payload = payload;
        created_at = now;
      } in
      if any (has_id id) st.conversations
      then (
        some entity_id,
        record {
          last_generated_id = entity_id;
          cached = some (record {
            conversations = touch id (λ c. record c { updated_at = now }) st.conversations;
            messages =
                JsMap.set ℕ_discrete id (take_last max_messages (messages_of id st ++ m ∷ []))
                  st.messages;
          });
        },
      )
      else (none, s)

  unfoldable pub truncate_found :
      ℕ → ℕ → Option (List (Message M)) → Store T M → State T M → Bool × State T M
  truncate_found now id none st s = (false, s)
  truncate_found now id (some kept) st s = (
    true,
    write
        (record {
          conversations = touch id (λ c. record c { updated_at = now }) st.conversations;
          messages = JsMap.set ℕ_discrete id kept st.messages;
        })
        s,
  )

  unfoldable pub truncate_from_message : ℕ → ℕ → ℕ → State T M → Bool × State T M
  unfolding any truncate_found before_branch messages_of
  truncate_from_message now id from s =
      let st = read s in
      if any (has_id id) st.conversations
      then truncate_found now id (before_branch from (messages_of id st)) st s
      else (false, s)

  -- Where nothing is written the stored value stays as it is, as with Redis; the value in the memory of
  -- the process, which is shared, loses messages that stand under an id without a conversation.
  unfoldable pub delete : ℕ → State T M → Bool × State T M
  unfolding keep
  delete id s =
      let st = read s in
      let kept = keep (λ c. not (has_id id c)) st.conversations in
      if length kept == length st.conversations then (false, s) else (
        true,
        write (record { conversations = kept; messages = JsMap.delete ℕ_discrete id st.messages })
            s,
      )

  unfoldable pub clear : State T M → State T M
  clear s = record s { cached = none }

  unfoldable pub rename : ℕ → ℕ → T → State T M → Bool × State T M
  unfolding any touch
  rename now id title s =
      let st = read s in
      if any (has_id id) st.conversations
      then (
        true,
        write
            (record st {
              conversations =
                  touch id (λ c. record c { title = title; updated_at = now }) st.conversations;
            })
            s,
      )
      else (false, s)
