-- ===== src/Orchestration/Turns/State.antt =====
-- `streamChatResponse` of openai-compatible-orchestrator.js: what its turns read and write, and what a
-- request gives.
use magento2_chat_ai.Conversation.ChunkEmitter.{Config}
use magento2_chat_ai.Prelude.{
  ℕ, ◌+◌, ◌-◌, ◌*◌, Bool, true, false, ◌&&◌, not, Option, none, List, [], ◌∷◌, leb, if◌then◌else◌,
}
use magento2_chat_ai.Text.{Text, between, filled}

pub record ToolCall : Type 0 where
  pub call_id : Text
  pub name : Text
  pub arguments : Text

pub data Instruction : Type 0 where
  catalog_control language_repair grounding_repair empty_recovery : Instruction

-- The messages that the turns add for the provider.
pub data Message : Type 0 where
  told : Instruction → Message
  answered : Text → Message
  called : List ToolCall → Message
  returned : Text → Text → Message

pub data ErrorFrame : Type 0 where
  tool_error : Text → ErrorFrame
  response_empty : ErrorFrame
  provider_error : Text → ErrorFrame

-- What the turns themselves send or publish; `activity_completed` is `completePendingActivity`.
pub data Frame (P : Type 0) : Type 0 where
  activity_completed : Frame P
  chunk : List ℕ → Frame P
  presented : Option P → Frame P
  error_frame : ErrorFrame → Frame P
  done : Text → Frame P

pub data Outcome : Type 0 where
  cancelled finished empty_response tool_failed provider_failed : Outcome

pub record Failure : Type 0 where
  pub message : Text
  pub is_abort : Bool
  pub is_retryable : Bool

pub record AssistantMessage : Type 0 where
  pub content : Text
  pub tool_calls : List ToolCall

-- What a request gives: its message and reason, a reading that was cancelled, or an error with the
-- message so far.
pub data Reply : Type 0 where
  streamed : AssistantMessage → Text → Reply
  cut_off : Reply
  threw : Failure → AssistantMessage → Reply

pub record ToolResult : Type 0 where
  pub arguments : Text
  pub model_context : Text
  pub error : Text
  pub stop_after_tool_batch : Bool

pub data Executed : Type 0 where
  ran : ToolResult → Executed
  raised : Failure → Executed

-- What the turns use of the tool flow, whose state is `S`.
pub record ToolFlow (S P : Type 0) : Type 0 where
  pub should_force_product_availability : S → Bool
  pub should_force_catalog_need_resolution : S → Bool
  pub should_force_catalog_anchor_resolution : S → Bool
  pub should_force_category_discovery : S → Bool
  pub should_force_product_search : S → Bool
  pub execute : ToolCall → S → Executed × S
  pub pending_product_presentation : S → Option P
  pub tool_error_message : S → Text
  pub accepts_language : Text → S → Bool
  pub accepts_catalog_grounding : Text → S → Bool

-- The variables of the loop. Those that are written and never read are left out.
pub record Turn (S P : Type 0) : Type 0 where
  pub flow_state : S
  pub asked : ℕ
  pub messages : List Message
  pub frames : List (Frame P)
  pub has_visible_text : Bool
  pub pending_product_presentation : Option P
  pub tool_error_message : Text
  pub finish_reason : Text
  pub force_final_synthesis : Bool
  pub has_executed_tool_batch : Bool
  pub language_repair_attempts : ℕ
  pub catalog_grounding_repair_attempts : ℕ
  pub empty_response_recovery_attempts : ℕ
  pub catalog_control_recovery_attempts : ℕ

abbrev pub first_turn : {S P : Type 0} → S → Turn S P
first_turn s = record {
  flow_state = s;
  asked = 0;
  messages = [];
  frames = [];
  has_visible_text = false;
  pending_product_presentation = none;
  tool_error_message = [];
  finish_reason = [];
  force_final_synthesis = false;
  has_executed_tool_batch = false;
  language_repair_attempts = 0;
  catalog_grounding_repair_attempts = 0;
  empty_response_recovery_attempts = 0;
  catalog_control_recovery_attempts = 0;
}

-- The next iteration, a `break`, or a `return`.
pub data Next (S P : Type 0) : Type 0 where
  go_on : Turn S P → Next S P
  leave : Turn S P → Next S P
  ended : Outcome → Turn S P → Next S P

-- What comes from outside: whether the run is cancelled, and whether a chunk's sending throws, each at
-- the question of a number, and with what error.
pub record Run : Type 0 where
  pub is_cancelled : ℕ → Bool
  pub emit_throws : ℕ → Bool
  pub emit_error : Failure

-- `Array.from(text)`, for a text of UTF-16 units.
unfoldable pub code_points : Text → List ℕ
unfolding between
code_points [] = []
code_points (c ∷ []) = c ∷ []
code_points (c ∷ d ∷ s) = elim (between 55296 c 56319 && between 56320 d 57343) [
  | true ↦ ((c - 55296) * 1024 + (d - 56320) + 65536) ∷ code_points s
  | false ↦ c ∷ code_points (d ∷ s)
]

-- The chunks that the emitter has handed on, as frames.
abbrev pub chunks_of : {P : Type 0} → List (List ℕ) → List (Frame P)
chunks_of [] = []
chunks_of (c ∷ cs) = chunk c ∷ chunks_of cs

-- The defaults of `createSmoothChunkEmitter`.
abbrev pub smooth_config : Config
smooth_config = record { target_frames = 2; min_chars = 4; max_chars = 64 }

pub data Requested : Type 0 where
  got : AssistantMessage → Text → Requested
  stopped : Requested
  failed : Failure → Requested

unfoldable pub has_nothing : AssistantMessage → Bool
unfolding filled
has_nothing m = not (filled m.content) && (elim m.tool_calls [ [] ↦ true | c ∷ cs ↦ false ])

unfoldable pub last_reply : Reply → Requested
last_reply (streamed m reason) = got m reason
last_reply cut_off = stopped
last_reply (threw e m) = failed e

-- `for (let providerAttempt = 0; providerAttempt < 2; …)`.
unfoldable pub request : Reply → Reply → Requested
unfolding last_reply has_nothing
request (streamed m reason) again = got m reason
request cut_off again = stopped
request (threw e m) again = if has_nothing m && e.is_retryable then last_reply again else failed e

-- `MAX_CATALOG_CONTROL_RECOVERIES`.
abbrev pub max_catalog_control_recoveries : ℕ
max_catalog_control_recoveries = 8

unfoldable pub is_final_synthesis_turn : ℕ → ℕ → Bool → Bool
is_final_synthesis_turn iteration max_tool_rounds mandatory_availability_pending =
    leb max_tool_rounds iteration && not mandatory_availability_pending

unfoldable pub has_name : ToolCall → Bool
unfolding filled
has_name c = filled c.name

-- The tool calls of a turn so far, with the arguments that the flow made of theirs.
pub record Batch (S P : Type 0) : Type 0 where
  pub turn : Turn S P
  pub executed : List ToolCall
  pub results : List Message
  pub stops : Bool

pub data Tools (S P : Type 0) : Type 0 where
  all_run : Batch S P → Tools S P
  interrupted : Next S P → Tools S P
