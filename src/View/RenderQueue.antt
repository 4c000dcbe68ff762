-- ===== src/View/RenderQueue.antt =====
-- The queue of stream-renderer.js: text parts that grow, and the frames in which they are drawn. The
-- sanitizers of the context are arguments, and whether the browser has animation frames.
pub mod Frames
pub mod Steps
pub mod Texts
pub mod Final
use magento2_chat_ai.JsMap
use magento2_chat_ai.Prelude.{
  ℕ, suc, ◌+◌, Bool, true, false, ◌||◌, not, Option, none, some, List, [], ◌∷◌, ◌++◌, length, any,
  keep, ◌==◌, ltb, if◌then◌else◌, ℕ_discrete,
}
use magento2_chat_ai.Text.{Text}

pub record Part : Type 0 where
  pub raw : Text
  pub html : Text
  pub blocks : List Text
  pub streaming : Bool

-- Parts are shared objects and stand under numbers. `pending` is `pendingMarkdownParts`, in order;
-- `frame` and `scroll_frame` tell whether a frame is requested; `scrolls` counts the calls of
-- `scrollToBottom`.
pub record Screen : Type 0 where
  pub parts : List (ℕ × Part)
  pub next_part : ℕ
  pub pending : List ℕ
  pub frame : Bool
  pub scroll_frame : Bool
  pub scrolls : ℕ

abbrev pub new_screen : Screen
new_screen = record {
  parts = [];
  next_part = 0;
  pending = [];
  frame = false;
  scroll_frame = false;
  scrolls = 0;
}

-- `blocks.join('')`.
unfoldable pub join_blocks : List Text → Text
join_blocks [] = []
join_blocks (b ∷ bs) = b ++ join_blocks bs

unfoldable pub is_pending : ℕ → List ℕ → Bool
unfolding any
is_pending id pending = any (λ j. j == id) pending

-- `pendingMarkdownParts.add(part)`.
unfoldable pub add : ℕ → List ℕ → List ℕ
unfolding is_pending
add id pending = if is_pending id pending then pending else pending ++ id ∷ []

module _ (has_frames : Bool) where
  unfoldable pub schedule_streaming_scroll : Screen → Screen
  schedule_streaming_scroll s =
      if s.scroll_frame
      then s
      else if has_frames
      then record s { scroll_frame = true }
      else record s { scrolls = suc s.scrolls }

module _ (sanitize_blocks : Text → List Text) where
  -- A part that was finished while the frame was queued is left as it is.
  unfoldable pub draw : Part → Part
  unfolding join_blocks
  draw p =
      if p.streaming
      then record p { blocks = sanitize_blocks p.raw; html = join_blocks (sanitize_blocks p.raw) }
      else p

  unfoldable pub draw_found : ℕ → Option Part → List (ℕ × Part) → List (ℕ × Part)
  unfolding draw
  draw_found id none parts = parts
  draw_found id (some p) parts = JsMap.set ℕ_discrete id (draw p) parts

  -- `parts.forEach(…)`.
  unfoldable pub draw_parts : List ℕ → List (ℕ × Part) → List (ℕ × Part)
  unfolding draw_found
  draw_parts [] parts = parts
  draw_parts (id ∷ ids) parts = draw_parts ids (draw_found id (JsMap.get ℕ_discrete id parts) parts)

unfoldable pub has_content : Option Part → Bool
has_content none = false
has_content (some p) = if p.streaming then ltb 0 (length p.raw) else false

-- `renderedContent`.
unfoldable pub rendered_content : List ℕ → List (ℕ × Part) → Bool
unfolding has_content
rendered_content [] parts = false
rendered_content (id ∷ ids) parts =
    has_content (JsMap.get ℕ_discrete id parts) || rendered_content ids parts

module _ (sanitize_blocks : Text → List Text) (has_frames : Bool) where
  -- Nothing is added to the set while it is drawn, so no further frame is requested at the end.
  unfoldable pub render_streaming_markdown : Screen → Screen
  unfolding draw_parts rendered_content schedule_streaming_scroll
  render_streaming_markdown s =
      let drawn : Screen = record s {
        parts = draw_parts sanitize_blocks s.pending s.parts;
        pending = [];
        frame = false;
      } in
      if rendered_content s.pending s.parts
      then schedule_streaming_scroll has_frames drawn
      else drawn

  unfoldable pub queue_streaming_markdown_render : ℕ → Screen → Screen
  unfolding add render_streaming_markdown
  queue_streaming_markdown_render id s =
      let queued : Screen = record s { pending = add id s.pending } in
      if s.frame
      then queued
      else if has_frames
      then record queued { frame = true }
      else render_streaming_markdown queued

  unfoldable pub create_streaming_text_part : Text → Screen → Screen
  unfolding queue_streaming_markdown_render
  create_streaming_text_part content s =
      let part : Part = record { raw = content; html = []; blocks = []; streaming = true } in
      queue_streaming_markdown_render s.next_part (record s {
        parts = JsMap.set ℕ_discrete s.next_part part s.parts;
        next_part = suc s.next_part;
      })

  unfoldable pub append_found : ℕ → Text → Option Part → Screen → Screen
  unfolding queue_streaming_markdown_render
  append_found id chunk none s = s
  append_found id chunk (some p) s =
      queue_streaming_markdown_render id
        (record s { parts = JsMap.set ℕ_discrete id (record p { raw = p.raw ++ chunk }) s.parts })

  unfoldable pub append_streaming_text : ℕ → Text → Screen → Screen
  unfolding append_found
  append_streaming_text id chunk s = append_found id chunk (JsMap.get ℕ_discrete id s.parts) s

module _ (sanitize : Text → Text) (split_blocks : Text → List Text) (has_frames : Bool) where
  unfoldable pub finalize_found : ℕ → Option Part → Screen → Screen
  unfolding schedule_streaming_scroll
  finalize_found id none s = s
  finalize_found id (some p) s = schedule_streaming_scroll has_frames (record s {
    pending = keep (λ j. not (j == id)) s.pending;
    parts =
        JsMap.set ℕ_discrete id
          (record {
            raw = p.raw;
            html = sanitize p.raw;
            blocks = split_blocks (sanitize p.raw);
            streaming = false;
          })
          s.parts;
  })

  unfoldable pub finalize_streaming_text : ℕ → Screen → Screen
  unfolding finalize_found
  finalize_streaming_text id s = finalize_found id (JsMap.get ℕ_discrete id s.parts) s

-- What reaches the renderer: calls of its methods, and the frames that it requested.
pub data Event : Type 0 where
  created : Text → Event
  appended : ℕ → Text → Event
  finalized : ℕ → Event
  frame_due : Event
  scroll_due : Event
