-- ===== src/View/RenderQueue/Texts.antt =====
-- stream-renderer.js: the text that a part has got, and that a frame shows all of it.
use magento2_chat_ai.JsMap
use magento2_chat_ai.Prelude.{
  ℕ, suc, ◌≡◌, refl, sym, ap, ◌∙◌, Bool, true, false, not, inl, inr, Option, none, some, List, [],
  ◌∷◌, ◌++◌, keep, ◌==◌, Bool-cases, Option-cases, arith, if◌then◌else◌, ℕ_discrete,
}
use magento2_chat_ai.Text.{Text}
use magento2_chat_ai.View.RenderQueue.{
  Part, Screen, new_screen, add, is_pending, draw, draw_parts, render_streaming_markdown,
  queue_streaming_markdown_render, create_streaming_text_part, append_found, append_streaming_text,
  finalize_found, finalize_streaming_text, Event, created, appended, finalized, frame_due,
  scroll_due, join_blocks, schedule_streaming_scroll,
}
use magento2_chat_ai.View.RenderQueue.Frames.{
  Parts, part_of, draw_option, get-draw_parts, scroll_lem, render_lem,
}
use magento2_chat_ai.View.RenderQueue.Steps.{step, run, frame-IsCurrent}

-- The text of a part, where there is one.
abbrev text_of : Option Part → Option Text
text_of none = none
text_of (some p) = some p.raw

abbrev next_after : Event → ℕ → ℕ
next_after (created content) n = suc n
next_after (appended id chunk) n = n
next_after (finalized id) n = n
next_after frame_due n = n
next_after scroll_due n = n

abbrev append_text : Text → Option Text → Option Text
append_text chunk none = none
append_text chunk (some t) = some (t ++ chunk)

-- What an event makes of the text of the part of a number, when the next part is the `next`th.
abbrev got_by : ℕ → ℕ → Event → Option Text → Option Text
got_by next id (created content) t = if next == id then some content else t
got_by next id (appended j chunk) t = if j == id then append_text chunk t else t
got_by next id (finalized j) t = t
got_by next id frame_due t = t
got_by next id scroll_due t = t

-- The text with which a part was created, and all that was appended to it since, in order.
pub text_got : ℕ → ℕ → List Event → Option Text → Option Text
text_got next id [] t = t
text_got next id (e ∷ es) t = text_got (next_after e next) id es (got_by next id e t)

-- A screen has the texts of another, and its next number.
record HasTexts (s s' : Screen) : Type 0 where
  texts : (j : ℕ) → text_of (part_of j s'.parts) ≡ text_of (part_of j s.parts)
  next : s'.next_part ≡ s.next_part

found-text :
    (id j : ℕ) (parts : Parts) (o : Option Part)
    → part_of id parts ≡ o
    → text_of (part_of j parts) ≡ (if id == j then text_of o else text_of (part_of j parts))
found-text id j parts o h = elim (ℕ_discrete id j) [
  | yes same ↦ ground (arith, h, same)
  | no other ↦ ground (arith, other)
]

found-append :
    (id j : ℕ) (parts : Parts) (o : Option Part) (chunk : Text)
    → part_of id parts ≡ o
    → (if id == j then append_text chunk (text_of o) else text_of (part_of j parts)) ≡ (
        if id == j
        then append_text chunk (text_of (part_of j parts))
        else text_of (part_of j parts))
found-append id j parts o chunk h =
    let e = found-text id j parts o h in
    elim (Bool-cases (id == j)) [
      | inl same ↦ rw same (ap (append_text chunk) (sym (rw same at e)))
      | inr other ↦ rw other refl
    ]

module _ (sanitize_blocks : Text → List Text) where
  draw_option-text : (o : Option Part) → text_of (draw_option sanitize_blocks o) ≡ text_of o
  unfolding draw_option draw
  draw_option-text none = refl
  draw_option-text (some p) = ground arith

  draw_parts-text :
      (j : ℕ) (ids : List ℕ) (parts : Parts)
      → text_of (part_of j (draw_parts sanitize_blocks ids parts)) ≡ text_of (part_of j parts)
  draw_parts-text j ids parts =
      rw (get-draw_parts sanitize_blocks j ids parts) (elim (Bool-cases (is_pending j ids)) [
        | inl e ↦ rw e (draw_option-text (part_of j parts))
        | inr e ↦ rw e refl
      ])

  module _ (has_frames : Bool) where
    render-text : (s : Screen) → HasTexts s (render_streaming_markdown sanitize_blocks has_frames s)
    render-text s =
        let (parts, _, _, number) = render_lem sanitize_blocks has_frames s in
        record { texts = λ j. rw parts (draw_parts-text j s.pending s.parts); next = number }

    scroll-text : (s : Screen) → HasTexts s (schedule_streaming_scroll has_frames s)
    scroll-text s =
        let (parts, _, _, number) = scroll_lem sanitize_blocks has_frames s in
        record { texts = λ j. rw parts refl; next = number }

  queue-text :
      (has_frames : Bool) (id : ℕ) (s : Screen)
      → HasTexts s (queue_streaming_markdown_render sanitize_blocks has_frames id s)
  unfolding queue_streaming_markdown_render
  queue-text has_frames id s =
      let queued : Screen = record s { pending = add id s.pending } in
      elim (Bool-cases s.frame) [
        | inl framed ↦ rw framed (record { texts = λ j. refl; next = refl })
        | inr idle ↦ elim (Bool-cases has_frames) [
          | inl frames ↦ rw (idle, frames) (record { texts = λ j. refl; next = refl })
          | inr none_left ↦ rw idle (
              rw none_left (
                let kept = render-text false queued in
                record { texts = kept.texts; next = kept.next }))
        ]
      ]

  set-text :
      (id j : ℕ) (p : Part) (parts : Parts)
      → text_of (part_of j (JsMap.set ℕ_discrete id p parts))
        ≡ (if id == j then some p.raw else text_of (part_of j parts))
  set-text id j p parts = ground (arith, JsMap.get-set ℕ_discrete id j p parts)

  module _ (sanitize : Text → Text) (split_blocks : Text → List Text) (has_frames : Bool) where
    -- An event makes of each text what it should.
    record Follows (e : Event) (s s' : Screen) : Type 0 where
      texts :
          (j : ℕ)
          → text_of (part_of j s'.parts) ≡ got_by s.next_part j e (text_of (part_of j s.parts))
      next : s'.next_part ≡ next_after e s.next_part

    step-text :
        (e : Event) (s : Screen)
        → Follows e s (step sanitize_blocks sanitize split_blocks has_frames e s)
    unfolding step create_streaming_text_part append_streaming_text append_found
        finalize_streaming_text finalize_found
    step-text (created content) s =
        let part : Part = record { raw = content; html = []; blocks = []; streaming = true } in
        let made : Screen = record s {
          parts = JsMap.set ℕ_discrete s.next_part part s.parts;
          next_part = suc s.next_part;
        } in
        let kept = queue-text has_frames s.next_part made in
        record { texts = λ j. kept.texts j ∙ set-text s.next_part j part s.parts; next = kept.next }
    step-text (appended id chunk) s = elim (Option-cases (part_of id s.parts)) [
      | inl missing ↦ rw missing (record {
        texts = λ j.
            found-text id j s.parts none missing ∙ found-append id j s.parts none chunk missing;
        next = refl;
      })
      | inr (p, found) ↦ rw found (
          let grown : Part = record p { raw = p.raw ++ chunk } in
          let more : Screen = record s { parts = JsMap.set ℕ_discrete id grown s.parts } in
          let kept = queue-text has_frames id more in
          record {
            texts = λ j.
                kept.texts j
                ∙ set-text id j grown s.parts
                ∙ found-append id j s.parts (some p) chunk found;
            next = kept.next;
          })
    ]
    step-text (finalized id) s = elim (Option-cases (part_of id s.parts)) [
      | inl missing ↦ rw missing (record { texts = λ j. refl; next = refl })
      | inr (p, found) ↦ rw found (
          let done : Part = record {
            raw = p.raw;
            html = sanitize p.raw;
            blocks = split_blocks (sanitize p.raw);
            streaming = false;
          } in
          let after : Screen = record s {
            pending = keep (λ j. not (j == id)) s.pending;
            parts = JsMap.set ℕ_discrete id done s.parts;
          } in
          let kept = scroll-text has_frames after in
          record {
            texts = λ j.
                kept.texts j
                ∙ set-text id j done s.parts
                ∙ sym (found-text id j s.parts (some p) found);
            next = kept.next;
          })
    ]
    step-text frame_due s = elim (Bool-cases s.frame) [
      | inl due ↦
          let kept = render-text has_frames s in
          rw due (record { texts = kept.texts; next = kept.next })
      | inr idle ↦ rw idle (record { texts = λ j. refl; next = refl })
    ]
    step-text scroll_due s = elim (Bool-cases s.scroll_frame) [
      | inl due ↦ rw due (record { texts = λ j. refl; next = refl })
      | inr idle ↦ rw idle (record { texts = λ j. refl; next = refl })
    ]

    run-text :
        (es : List Event) (s : Screen) (j : ℕ)
        → text_of (part_of j (run sanitize_blocks sanitize split_blocks has_frames es s).parts)
          ≡ text_got s.next_part j es (text_of (part_of j s.parts))
    unfolding run text_got
    run-text [] s j = refl
    run-text (e ∷ es) s j =
        let one = step-text e s in
        let rest = run-text es (step sanitize_blocks sanitize split_blocks has_frames e s) j in
        rw (one.texts j, one.next) at rest

    -- After any calls and frames on a new screen, the next frame leaves every part that still grows
    -- shown in full, whichever parts were drawn or finished before: its text is the one with which
    -- it was created and all that was appended to it since, in order, and its blocks and its HTML
    -- are those of that text.
    pub frame-shown :
        (es : List Event) (id : ℕ) (p : Part)
        → part_of id
            (step sanitize_blocks sanitize split_blocks has_frames frame_due
              (run sanitize_blocks sanitize split_blocks has_frames es new_screen)).parts
          ≡ some p
        → p.streaming ≡ true
        → (text_got 0 id es none ≡ some p.raw)
          × (p.blocks ≡ sanitize_blocks p.raw)
          × (p.html ≡ join_blocks (sanitize_blocks p.raw))
    unfolding JsMap.get
    frame-shown es id p h streaming =
        let s = run sanitize_blocks sanitize split_blocks has_frames es new_screen in
        let due = (step-text frame_due s).texts id in
        let got = run-text es new_screen id in
        let (blocks, html) =
          frame-IsCurrent sanitize_blocks sanitize split_blocks has_frames es id p h streaming in
        (sym got ∙ sym due ∙ ap text_of h, blocks, html)
