-- ===== src/View/RenderQueue/Final.antt =====
-- stream-renderer.js: a finished part is not drawn over.
use magento2_chat_ai.JsMap
use magento2_chat_ai.Prelude.{
  ℕ, suc, ◌<◌, ◌≡◌, ◌≢◌, refl, ◌∙◌, Bool, true, false, not, inl, inr, some, List, [], ◌∷◌, ◌++◌,
  keep, ◌==◌, Bool-cases, Option-cases, arith, ℕ_discrete,
}
use magento2_chat_ai.Text.{Text}
use magento2_chat_ai.View.RenderQueue.{
  Part, Screen, add, draw, draw_parts, schedule_streaming_scroll, is_pending,
  render_streaming_markdown, queue_streaming_markdown_render, create_streaming_text_part,
  append_found, append_streaming_text, finalize_found, finalize_streaming_text, Event, created,
  appended, finalized, frame_due, scroll_due,
}
use magento2_chat_ai.View.RenderQueue.Frames.{
  Parts, part_of, scroll_lem, render_lem, draw_option, get-draw_parts,
}
use magento2_chat_ai.View.RenderQueue.Steps.{step, run}

-- The part is finished and shows this.
abbrev pub Shows : ℕ → Text → List Text → Parts → Type 0
Shows id html blocks parts =
    (q : Part) × (part_of id parts ≡ some q)
    × (q.streaming ≡ false)
    × (q.html ≡ html)
    × (q.blocks ≡ blocks)

-- The call finishes another part, or none.
abbrev pub Leaves : ℕ → Event → Type 0
Leaves id (created content) = Unit {0}
Leaves id (appended j chunk) = Unit {0}
Leaves id (finalized j) = j ≢ id
Leaves id frame_due = Unit {0}
Leaves id scroll_due = Unit {0}

abbrev pub AllLeave : ℕ → List Event → Type 0
AllLeave id [] = Unit {0}
AllLeave id (e ∷ es) = Leaves id e × AllLeave id es

module _ (id : ℕ) (html : Text) (blocks : List Text) where
  Shows-set_ne :
      (j : ℕ) (p : Part) (parts : Parts)
      → j ≢ id
      → Shows id html blocks parts
      → Shows id html blocks (JsMap.set ℕ_discrete j p parts)
  Shows-set_ne j p parts h (q, found, done, same_html, same_blocks) =
      (q, JsMap.get-set_ne ℕ_discrete j id p parts h ∙ found, done, same_html, same_blocks)

  Shows-append :
      (j : ℕ) (p : Part) (raw : Text) (parts : Parts)
      → part_of j parts ≡ some p
      → Shows id html blocks parts
      → Shows id html blocks (JsMap.set ℕ_discrete j (record p { raw = raw }) parts)
  Shows-append j p raw parts here (q, found, done, same_html, same_blocks) =
      elim (ℕ_discrete j id) [
        | no other ↦
            Shows-set_ne j (record p { raw = raw }) parts other
              (q, found, done, same_html, same_blocks)
        | yes same ↦
            let e : p ≡ q = cc in
            (
              record p { raw = raw },
              rw same (JsMap.get-set_self ℕ_discrete id (record p { raw = raw }) parts),
              rw e done,
              rw e same_html,
              rw e same_blocks,
            )
      ]

  module _ (sanitize_blocks : Text → List Text) where
    draw_done : (p : Part) → p.streaming ≡ false → draw sanitize_blocks p ≡ p
    unfolding draw
    draw_done p h = rw h refl

    Shows-draw :
        (ids : List ℕ) (parts : Parts)
        → Shows id html blocks parts
        → Shows id html blocks (draw_parts sanitize_blocks ids parts)
    unfolding draw_option
    Shows-draw ids parts (q, found, done, same_html, same_blocks) = (
      q,
      (elim (Bool-cases (is_pending id ids)) [
        | inl e ↦ cc (get-draw_parts sanitize_blocks id ids parts, draw_done q done)
        | inr e ↦ cc (get-draw_parts sanitize_blocks id ids parts)
      ]),
      done,
      same_html,
      same_blocks,
    )

    abbrev Holds : Screen → Type 0
    Holds s = Shows id html blocks s.parts × (id < s.next_part)

    Holds-render :
        (has_frames : Bool) (s : Screen)
        → Holds s
        → Holds (render_streaming_markdown sanitize_blocks has_frames s)
    Holds-render has_frames s h =
        let (parts, _, _, next) = render_lem sanitize_blocks has_frames s in
        (rw parts (Shows-draw s.pending s.parts h.0), rw next h.1)

    module _ (has_frames : Bool) where
      queue-Holds :
          (j : ℕ) (s : Screen)
          → Holds s
          → Holds (queue_streaming_markdown_render sanitize_blocks has_frames j s)
      unfolding queue_streaming_markdown_render
      queue-Holds j s h = elim (Bool-cases s.frame) [
        | inl framed ↦ rw framed h
        | inr idle ↦ elim (Bool-cases has_frames) [
          | inl frames ↦ rw (idle, frames) h
          | inr immediate ↦
              rw idle (rw immediate (Holds-render false (record s { pending = add j s.pending }) h))
        ]
      ]

      module _ (sanitize : Text → Text) (split_blocks : Text → List Text) where
        step-Holds :
            (e : Event) (s : Screen)
            → Leaves id e
            → Holds s
            → Holds (step sanitize_blocks sanitize split_blocks has_frames e s)
        unfolding step create_streaming_text_part append_streaming_text append_found
            finalize_streaming_text finalize_found
        step-Holds (created content) s l h =
            queue-Holds s.next_part
              (record s {
                parts =
                    JsMap.set ℕ_discrete s.next_part
                      (record { raw = content; html = []; blocks = []; streaming = true }) s.parts;
                next_part = suc s.next_part;
              })
              (Shows-set_ne s.next_part _ s.parts (λ e. omega arith) h.0, omega arith)
        step-Holds (appended j chunk) s l h = elim (Option-cases (part_of j s.parts)) [
          | inl missing ↦ rw missing h
          | inr (p, found) ↦ rw found (
              queue-Holds j
                (record s {
                  parts = JsMap.set ℕ_discrete j (record p { raw = p.raw ++ chunk }) s.parts;
                })
                (Shows-append j p (p.raw ++ chunk) s.parts found h.0, h.1))
        ]
        step-Holds (finalized j) s l h = elim (Option-cases (part_of j s.parts)) [
          | inl missing ↦ rw missing h
          | inr (p, found) ↦
              let done : Part = record {
                raw = p.raw;
                html = sanitize p.raw;
                blocks = split_blocks (sanitize p.raw);
                streaming = false;
              } in
              let after : Screen = record s {
                pending = keep (λ k. not (k == j)) s.pending;
                parts = JsMap.set ℕ_discrete j done s.parts;
              } in
              let (parts, _, _, next) = scroll_lem sanitize_blocks has_frames after in
              rw found (rw (parts, next) (Shows-set_ne j done s.parts l h.0, h.1))
        ]
        step-Holds frame_due s l h = elim (Bool-cases s.frame) [
          | inl due ↦ rw due (Holds-render has_frames s h)
          | inr idle ↦ rw idle h
        ]
        step-Holds scroll_due s l h = elim (Bool-cases s.scroll_frame) [
          | inl due ↦ rw due h
          | inr idle ↦ rw idle h
        ]

        run-Holds :
            (es : List Event) (s : Screen)
            → AllLeave id es
            → Holds s
            → Holds (run sanitize_blocks sanitize split_blocks has_frames es s)
        unfolding run
        run-Holds [] s l h = h
        run-Holds (e ∷ es) s l h =
            run-Holds es (step sanitize_blocks sanitize split_blocks has_frames e s) l.1
              (step-Holds e s l.0 h)

-- A part that is finished keeps the HTML and the blocks of its final sanitizer through whatever is
-- created, appended, also to itself, or drawn afterwards, until it is finished once more.
pub finalize-kept :
    (sanitize_blocks : Text → List Text) (sanitize : Text → Text) (split_blocks : Text → List Text)
    (has_frames : Bool) (id : ℕ) (p : Part) (s : Screen) (es : List Event)
    → part_of id s.parts ≡ some p
    → id < s.next_part
    → AllLeave id es
    → Shows id
        (sanitize p.raw)
        (split_blocks (sanitize p.raw))
        (run sanitize_blocks sanitize split_blocks has_frames es
          (finalize_streaming_text sanitize split_blocks has_frames id s)).parts
unfolding finalize_streaming_text finalize_found
finalize-kept sanitize_blocks sanitize split_blocks has_frames id p s es found known leave =
    let done : Part = record {
      raw = p.raw;
      html = sanitize p.raw;
      blocks = split_blocks (sanitize p.raw);
      streaming = false;
    } in
    let after : Screen = record s {
      pending = keep (λ k. not (k == id)) s.pending;
      parts = JsMap.set ℕ_discrete id done s.parts;
    } in
    let (parts, _, _, next) = scroll_lem sanitize_blocks has_frames after in
    rw found
      (run-Holds id (sanitize p.raw) (split_blocks (sanitize p.raw)) sanitize_blocks has_frames
        sanitize split_blocks es (schedule_streaming_scroll has_frames after) leave
        (rw (parts, next)
          ((done, JsMap.get-set_self ℕ_discrete id done s.parts, refl, refl, refl), known))).0
