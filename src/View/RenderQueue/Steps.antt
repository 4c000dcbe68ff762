-- ===== src/View/RenderQueue/Steps.antt =====
-- stream-renderer.js: any series of calls and frames.
use magento2_chat_ai.JsMap
use magento2_chat_ai.Prelude.{
  ℕ, suc, ◌≡◌, ◌≢◌, refl, sym, ap, ◌∙◌, Bool, true, false, not, inl, inr, some, List, [], ◌∷◌, ◌++◌,
  any, keep, ◌==◌, Bool-cases, Option-cases, if◌then◌else◌, ℕ_discrete,
}
use magento2_chat_ai.Text.{Text}
use magento2_chat_ai.View.RenderQueue.{
  Part, Screen, new_screen, add, is_pending, render_streaming_markdown,
  queue_streaming_markdown_render, create_streaming_text_part, append_found, append_streaming_text,
  finalize_found, finalize_streaming_text, Event, created, appended, finalized, frame_due,
  scroll_due,
}
use magento2_chat_ai.View.RenderQueue.Frames.{
  part_of, IsCurrent, IsFresh, IsLive, IsFresh-set, IsFresh-finish, scroll_lem, render_lem,
  render-IsLive,
}

module _ (sanitize_blocks : Text → List Text) (sanitize : Text → Text)
    (split_blocks : Text → List Text) (has_frames : Bool) where
  -- The browser calls back only for a frame that was requested.
  unfoldable pub step : Event → Screen → Screen
  unfolding create_streaming_text_part append_streaming_text finalize_streaming_text
      render_streaming_markdown
  step (created content) s = create_streaming_text_part sanitize_blocks has_frames content s
  step (appended id chunk) s = append_streaming_text sanitize_blocks has_frames id chunk s
  step (finalized id) s = finalize_streaming_text sanitize split_blocks has_frames id s
  step frame_due s = if s.frame then render_streaming_markdown sanitize_blocks has_frames s else s
  step scroll_due s =
      if s.scroll_frame then record s { scroll_frame = false; scrolls = suc s.scrolls } else s

  unfoldable pub run : List Event → Screen → Screen
  unfolding step
  run [] s = s
  run (e ∷ es) s = run es (step e s)

  queue-IsLive :
      (id : ℕ) (s : Screen)
      → IsFresh sanitize_blocks (add id s.pending) s.parts
      → IsLive sanitize_blocks (queue_streaming_markdown_render sanitize_blocks has_frames id s)
  unfolding queue_streaming_markdown_render
  queue-IsLive id s fresh = elim (Bool-cases s.frame) [
    | inl framed ↦ rw framed (fresh, λ e. absurd (true_ne_false e))
    | inr idle ↦ elim (Bool-cases has_frames) [
      | inl frames ↦ rw (idle, frames) (fresh, λ (e : true ≡ false). absurd (true_ne_false e))
      | inr none_left ↦ rw idle (
          rw none_left
            (render-IsLive sanitize_blocks false (record s { pending = add id s.pending }) fresh))
    ]
  ]
    where
      true_ne_false : true ≢ false
      true_ne_false e = cc

  step-IsLive :
      (e : Event) (s : Screen) → IsLive sanitize_blocks s → IsLive sanitize_blocks (step e s)
  unfolding step create_streaming_text_part append_streaming_text append_found
      finalize_streaming_text finalize_found keep
  step-IsLive (created content) s live =
      queue-IsLive s.next_part
        (record s {
          parts =
              JsMap.set ℕ_discrete s.next_part
                (record { raw = content; html = []; blocks = []; streaming = true }) s.parts;
          next_part = suc s.next_part;
        })
        (IsFresh-set sanitize_blocks s.next_part _ s.pending s.parts live.0)
  step-IsLive (appended id chunk) s live = elim (Option-cases (part_of id s.parts)) [
    | inl missing ↦ rw missing live
    | inr (p, found) ↦ rw found (
        queue-IsLive id
          (record s { parts = JsMap.set ℕ_discrete id (record p { raw = p.raw ++ chunk }) s.parts })
          (IsFresh-set sanitize_blocks id _ s.pending s.parts live.0))
  ]
  step-IsLive (finalized id) s live = elim (Option-cases (part_of id s.parts)) [
    | inl missing ↦ rw missing live
    | inr (p, found) ↦ rw found (
        let done : Part = record {
          raw = p.raw;
          html = sanitize p.raw;
          blocks = split_blocks (sanitize p.raw);
          streaming = false;
        } in
        let after : Screen = record s {
          pending = keep (λ j. not (j == id)) s.pending;
          parts = JsMap.set ℕ_discrete id done s.parts;
        } in
        let (parts, pending, frame, _) = scroll_lem sanitize_blocks has_frames after in
        rw (parts, pending, frame)
          (
            IsFresh-finish sanitize_blocks id done s.pending s.parts refl live.0,
            λ h. ap (keep (λ j. not (j == id))) (live.1 h),
          ))
  ]
  step-IsLive frame_due s live = elim (Bool-cases s.frame) [
    | inl due ↦ rw due (render-IsLive sanitize_blocks has_frames s live.0)
    | inr idle ↦ rw idle (live.0, λ _. live.1 idle)
  ]
  step-IsLive scroll_due s live = elim (Bool-cases s.scroll_frame) [
    | inl due ↦ rw due live
    | inr idle ↦ rw idle live
  ]

  run-IsLive :
      (es : List Event) (s : Screen) → IsLive sanitize_blocks s → IsLive sanitize_blocks (run es s)
  unfolding run
  run-IsLive [] s live = live
  run-IsLive (e ∷ es) s live = run-IsLive es (step e s) (step-IsLive e s live)

  frame-pending : (s : Screen) → IsLive sanitize_blocks s → (step frame_due s).pending ≡ []
  unfolding step
  frame-pending s live = elim (Bool-cases s.frame) [
    | inl due ↦ rw due (render_lem sanitize_blocks has_frames s).1
    | inr idle ↦ rw idle (live.1 idle)
  ]

  -- After any calls and frames on a new screen, the next frame leaves every part that still grows
  -- with the blocks and the HTML of its text, whichever parts were drawn or finished before.
  pub frame-IsCurrent :
      (es : List Event) (id : ℕ) (p : Part)
      → part_of id (step frame_due (run es new_screen)).parts ≡ some p
      → p.streaming ≡ true
      → IsCurrent sanitize_blocks p
  unfolding is_pending any JsMap.get
  frame-IsCurrent es id p h streaming =
      let live = run-IsLive es new_screen ((λ j q found growing. cc), λ _. refl) in
      let (fresh, _) = step-IsLive frame_due (run es new_screen) live in
      elim (fresh id p h streaming) [
        | inl current ↦ current
        | inr waits ↦ absurd (
            false_ne_true
              (ap (is_pending id) (sym (frame-pending (run es new_screen) live)) ∙ waits))
      ]
    where
      false_ne_true : is_pending id [] ≢ true
      false_ne_true e = cc
