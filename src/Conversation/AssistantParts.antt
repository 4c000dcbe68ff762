-- ===== src/Conversation/AssistantParts.antt =====
-- `recordOutboundAssistantPart` of message-parts.js: the parts of an answer, kept while its messages
-- go out. The keys, the language and the summary of an activity are what their normalisers give,
-- empty where they reject, and counts of results are whole numbers.
pub mod Shape
pub mod Kinds
pub mod Runs
pub mod Sent
pub mod Activities
pub mod ActivityRuns
use magento2_chat_ai.Prelude.{
  ℕ, suc, ◌+◌, Bool, true, false, not, ◌&&◌, ◌||◌, Option, none, some, List, [], ◌∷◌, ◌++◌, map,
  take, keep, any, find, ◌==◌, if◌then◌else◌,
}
use magento2_chat_ai.Text.{Text, codes, filled, filled_or, text_eq}

-- An activity is one object that stands in both lists of a reasoning part; `ref` tells objects apart.
pub record Activity : Type 0 where
  pub ref : ℕ
  pub id : Text
  pub tool : Text
  pub state : Option Text
  pub result_count : Option ℕ
  pub label : Option Text
  pub language : Text
  pub turn_summary : Text
  pub continuation_key : Text
  pub timeline_key : Text

pub record Reasoning : Type 0 where
  pub events : List Activity
  pub activities : List Activity

pub record Image : Type 0 where
  pub url : Text
  pub alt : Text
  pub prompt : Text
  pub size : Text
  pub quality : Text

pub data Part : Type 0 where
  text_part : Text → Part
  products : Text → Option Text → Part
  image : Image → Part
  guest_order_access : Bool → Text → Part
  reasoning : Reasoning → Part

-- `activity_id` is `String(parsed.activity_id || parsed.display_key || '')`.
pub record ToolActivity : Type 0 where
  pub tool : Text
  pub activity_id : Text
  pub state : Option Text
  pub result_count : Option ℕ
  pub label : Option Text
  pub language : Text
  pub turn_summary : Text
  pub continuation_key : Text
  pub timeline_key : Text

pub record GeneratedImage : Type 0 where
  pub url : Text
  pub alt : Text
  pub size : Text
  pub quality : Text

pub data Message : Type 0 where
  chunk : Text → Message
  discard_thinking_text : Message
  products_html : Text → Option Text → Message
  image_generated : GeneratedImage → Message
  guest_order_access_required : Bool → Text → Message
  tool_activity : ToolActivity → Message
  other_message : Message

unfoldable pub is_text : Part → Bool
is_text (text_part raw) = true
is_text _ = false

unfoldable pub is_products : Part → Bool
is_products (products html payload) = true
is_products _ = false

unfoldable pub is_reasoning : Part → Bool
is_reasoning (reasoning r) = true
is_reasoning _ = false

-- The branch of a chunk: the last part grows if it is text.
unfoldable pub append_chunk : Text → List Part → List Part
append_chunk content [] = text_part content ∷ []
append_chunk content (text_part raw ∷ []) = text_part (raw ++ content) ∷ []
append_chunk content (p ∷ []) = p ∷ text_part content ∷ []
append_chunk content (p ∷ q ∷ ps) = p ∷ append_chunk content (q ∷ ps)

-- The scan from the end stops at a text and at products.
unfoldable pub is_stop : Part → Bool
unfolding is_text is_products
is_stop p = is_text p || is_products p

unfoldable pub discard_latest_thinking_text : List Part → List Part
unfolding is_stop any
discard_latest_thinking_text [] = []
discard_latest_thinking_text (p ∷ ps) =
    let rest = discard_latest_thinking_text ps in
    if any is_stop ps then p ∷ rest else if is_text p then ps else p ∷ ps

-- `assistantParts.splice(findLastProductPartIndex(assistantParts), 1, part)`.
unfoldable pub replace_last_products : Part → List Part → List Part
unfolding is_products any
replace_last_products part [] = []
replace_last_products part (p ∷ ps) =
    let rest = replace_last_products part ps in
    if any is_products ps then p ∷ rest else if is_products p then part ∷ ps else p ∷ ps

unfoldable pub put_products : Part → List Part → List Part
unfolding replace_last_products
put_products part parts =
    if any is_products parts then replace_last_products part parts else parts ++ part ∷ []

unfoldable pub image_of : GeneratedImage → Image
unfolding filled_or
image_of m = record {
  url = m.url;
  alt = filled_or m.alt (codes "Generated image");
  prompt = take 4000 m.alt;
  size = m.size;
  quality = m.quality;
}

unfoldable pub later_count : Option ℕ → Option ℕ → Option ℕ
later_count none old = old
later_count (some n) old = some n

unfoldable pub cut_label : Option Text → Option Text
cut_label none = none
cut_label (some label) = some (take 240 label)

unfoldable pub later_label : Option Text → Option Text → Option Text
later_label none old = old
later_label (some label) old = some (take 240 label)

-- `String(state || 'running')`.
unfoldable pub state_or_running : Option Text → Text
unfolding filled_or
state_or_running none = codes "running"
state_or_running (some state) = filled_or state (codes "running")

unfoldable pub is_running : Option Text → Bool
unfolding text_eq
is_running none = false
is_running (some state) = text_eq state (codes "running")

unfoldable pub update_activity : ToolActivity → Activity → Activity
unfolding later_count later_label filled_or
update_activity m a = record a {
  state = m.state;
  result_count = later_count m.result_count a.result_count;
  label = later_label m.label a.label;
  language = filled_or m.language a.language;
  turn_summary = filled_or m.turn_summary a.turn_summary;
  continuation_key = filled_or m.continuation_key a.continuation_key;
  timeline_key = filled_or m.timeline_key a.timeline_key;
}

unfoldable pub new_activity : ℕ → ToolActivity → Activity
unfolding state_or_running cut_label
new_activity ref m = record {
  ref = ref;
  id = m.activity_id;
  tool = m.tool;
  state = some (state_or_running m.state);
  result_count = m.result_count;
  label = cut_label m.label;
  language = m.language;
  turn_summary = m.turn_summary;
  continuation_key = m.continuation_key;
  timeline_key = m.timeline_key;
}

unfoldable pub last_activity : List Activity → Option Activity
last_activity [] = none
last_activity (a ∷ []) = some a
last_activity (a ∷ b ∷ es) = last_activity (b ∷ es)

-- `timelineKey ? previous.timeline_key === timelineKey : (continuationKey && …)`.
unfoldable pub continues : ToolActivity → Activity → Bool
unfolding filled text_eq
continues m previous =
    if filled m.timeline_key
    then text_eq previous.timeline_key m.timeline_key
    else filled m.continuation_key && text_eq previous.continuation_key m.continuation_key

unfoldable pub if_continued : ToolActivity → Option Activity → Option Activity
unfolding continues
if_continued m none = none
if_continued m (some previous) = if continues m previous then some previous else none

unfoldable pub find_id : Text → List Activity → Option Activity
unfolding find text_eq
find_id id events = find (λ (a : Activity). text_eq a.id id) events

-- `directExisting || continuedExisting`.
unfoldable pub existing_activity : ToolActivity → List Activity → Option Activity
unfolding find_id if_continued last_activity
existing_activity m events = elim (find_id m.activity_id events) [
  | some a ↦ some a
  | none ↦ if_continued m (last_activity events)
]

-- What is written to the object `ref`, wherever it stands in a list.
unfoldable pub write_activity : ToolActivity → ℕ → List Activity → List Activity
unfolding update_activity
write_activity m ref [] = []
write_activity m ref (a ∷ es) =
    (if a.ref == ref then update_activity m a else a) ∷ write_activity m ref es

-- `list = list.filter(event => event !== existing); list.push(existing)`.
unfoldable pub move_to_end : Activity → List Activity → List Activity
unfolding keep
move_to_end a es = keep (λ (b : Activity). not (b.ref == a.ref)) es ++ a ∷ []

unfoldable pub is_restarted : ToolActivity → Activity → Bool
unfolding state_or_running is_running text_eq
is_restarted m a = text_eq (state_or_running m.state) (codes "running") && not (is_running a.state)

unfoldable pub record_existing : ToolActivity → Activity → List Activity → List Activity
unfolding write_activity move_to_end is_restarted update_activity
record_existing m a es =
    if is_restarted m a
    then move_to_end (update_activity m a) (write_activity m a.ref es)
    else write_activity m a.ref es

unfoldable pub record_found : ToolActivity → ℕ → Reasoning → Option Activity → Reasoning
unfolding record_existing new_activity
record_found m ref r (some a) = record {
  events = record_existing m a r.events;
  activities = record_existing m a r.activities;
}
record_found m ref r none = record {
  events = r.events ++ new_activity ref m ∷ [];
  activities = r.activities ++ new_activity ref m ∷ [];
}

unfoldable pub record_activity : ToolActivity → ℕ → Reasoning → Reasoning
unfolding existing_activity record_found
record_activity m ref r = record_found m ref r (existing_activity m r.events)

unfoldable pub update_reasoning : ToolActivity → ℕ → List Part → List Part
unfolding record_activity
update_reasoning m ref [] = []
update_reasoning m ref (reasoning r ∷ ps) = reasoning (record_activity m ref r) ∷ ps
update_reasoning m ref (p ∷ ps) = p ∷ update_reasoning m ref ps

unfoldable pub put_activity : ToolActivity → ℕ → List Part → List Part
unfolding update_reasoning is_reasoning any record_activity
put_activity m ref parts =
    if any is_reasoning parts
    then update_reasoning m ref parts
    else reasoning (record_activity m ref (record { events = []; activities = [] })) ∷ parts

-- `ref` is the number of the next object.
unfoldable pub record_outbound_assistant_part : Message → ℕ → List Part → List Part
unfolding filled append_chunk discard_latest_thinking_text put_products image_of put_activity
record_outbound_assistant_part (chunk content) ref parts =
    if filled content then append_chunk content parts else parts
record_outbound_assistant_part discard_thinking_text ref parts = discard_latest_thinking_text parts
record_outbound_assistant_part (products_html html payload) ref parts =
    if filled html then put_products (products html payload) parts else parts
record_outbound_assistant_part (image_generated m) ref parts =
    if filled m.url then parts ++ image (image_of m) ∷ [] else parts
record_outbound_assistant_part (guest_order_access_required is_support expires_at) ref parts =
    parts ++ guest_order_access is_support expires_at ∷ []
record_outbound_assistant_part (tool_activity m) ref parts =
    if filled m.tool then put_activity m ref parts else parts
record_outbound_assistant_part other_message ref parts = parts

-- The messages of an answer, one after the other.
unfoldable pub record_all : List Message → ℕ → List Part → List Part
unfolding record_outbound_assistant_part
record_all [] ref parts = parts
record_all (m ∷ ms) ref parts = record_all ms (suc ref) (record_outbound_assistant_part m ref parts)
