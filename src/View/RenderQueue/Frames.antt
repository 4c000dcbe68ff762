-- ===== src/View/RenderQueue/Frames.antt =====
-- stream-renderer.js: what a frame draws, and that no part is forgotten or drawn over.
use magento2_chat_ai.JsMap
use magento2_chat_ai.Prelude.{
  ℕ, ◌≡◌, refl, sym, ◌∙◌, Bool, true, false, ◌&&◌, ◌||◌, not, ◌⊎◌, inl, inr, Option, none, some,
  List, [], ◌∷◌, ◌++◌, any, keep, ◌==◌, Bool-cases, Option-cases, arith, if◌then◌else◌, ℕ_discrete,
}
use magento2_chat_ai.Text.{Text}
use magento2_chat_ai.View.RenderQueue.{
  Part, Screen, join_blocks, is_pending, add, schedule_streaming_scroll, draw, draw_found,
  draw_parts, render_streaming_markdown, rendered_content,
}

abbrev pub Parts : Type 0
Parts = List (ℕ × Part)

abbrev pub part_of : ℕ → Parts → Option Part
part_of id parts = JsMap.get ℕ_discrete id parts

is_pending-append :
    (j id : ℕ) (pending : List ℕ)
    → is_pending j (pending ++ id ∷ []) ≡ (is_pending j pending || id == j)
unfolding is_pending any
is_pending-append j id [] = ground arith
is_pending-append j id (k ∷ pending) = ground (arith, is_pending-append j id pending)

is_pending-add :
    (j id : ℕ) (pending : List ℕ)
    → is_pending j (add id pending) ≡ (is_pending j pending || id == j)
unfolding add
is_pending-add j id pending = ground (arith, is_pending-append j id pending)

is_pending-keep :
    (j id : ℕ) (pending : List ℕ)
    → is_pending j (keep (λ k. not (k == id)) pending) ≡ (is_pending j pending && not (id == j))
unfolding is_pending any keep
is_pending-keep j id [] = refl
is_pending-keep j id (k ∷ pending) = ground (arith, is_pending-keep j id pending)

module _ (sanitize_blocks : Text → List Text) where
  unfoldable pub draw_option : Option Part → Option Part
  draw_option none = none
  draw_option (some p) = some (draw sanitize_blocks p)

  draw_option_idem : (o : Option Part) → draw_option (draw_option o) ≡ draw_option o
  unfolding draw_option draw
  draw_option_idem none = refl
  draw_option_idem (some p) = ground arith

  get-draw_found :
      (j id : ℕ) (parts : Parts)
      → part_of j (draw_found sanitize_blocks id (part_of id parts) parts)
        ≡ (if id == j then draw_option (part_of j parts) else part_of j parts)
  unfolding draw_option draw_found
  get-draw_found j id parts = elim (Option-cases (part_of id parts)) [
    | inl missing ↦ rw missing (ground arith)
    | inr (q, found) ↦
        rw found (ground (arith, JsMap.get-set ℕ_discrete id j (draw sanitize_blocks q) parts))
  ]

  pub get-draw_parts :
      (j : ℕ) (ids : List ℕ) (parts : Parts)
      → part_of j (draw_parts sanitize_blocks ids parts)
        ≡ (if is_pending j ids then draw_option (part_of j parts) else part_of j parts)
  unfolding draw_parts is_pending any
  get-draw_parts j [] parts = refl
  get-draw_parts j (id ∷ ids) parts =
      let after = draw_found sanitize_blocks id (part_of id parts) parts in
      ground (
        arith,
        get-draw_parts j ids after,
        get-draw_found j id parts,
        draw_option_idem (part_of j parts),
      )

  -- What is shown of a part, its blocks and its HTML, is all of its text.
  abbrev pub IsCurrent : Part → Type 0
  IsCurrent p = (p.blocks ≡ sanitize_blocks p.raw) × (p.html ≡ join_blocks (sanitize_blocks p.raw))

  abbrev pub IsFresh : List ℕ → Parts → Type 0
  IsFresh pending parts =
      (id : ℕ) (p : Part)
      → part_of id parts ≡ some p
      → p.streaming ≡ true
      → IsCurrent p ⊎ (is_pending id pending ≡ true)

  draw-IsCurrent :
      (p : Part) → (draw sanitize_blocks p).streaming ≡ true → IsCurrent (draw sanitize_blocks p)
  unfolding draw
  draw-IsCurrent p h = (ground arith, ground arith)

  draw_parts-IsFresh :
      (pending : List ℕ) (parts : Parts)
      → IsFresh pending parts
      → IsFresh [] (draw_parts sanitize_blocks pending parts)
  unfolding draw_option
  draw_parts-IsFresh pending parts fresh id p h streaming =
      elim (Bool-cases (is_pending id pending)) [
        | inl e ↦ elim (Option-cases (part_of id parts)) [
          | inl missing ↦ cc (get-draw_parts id pending parts)
          | inr (q, found) ↦
              let same : p ≡ draw sanitize_blocks q = cc (get-draw_parts id pending parts) in
              inl (rw same (draw-IsCurrent q (rw same at streaming)))
        ]
        | inr e ↦ elim (fresh id p (cc (get-draw_parts id pending parts)) streaming) [
          | inl current ↦ inl current
          | inr waits ↦ cc
        ]
      ]

  -- Every part that still grows is current or waits, and where something waits a frame is due.
  abbrev pub IsLive : Screen → Type 0
  IsLive s = IsFresh s.pending s.parts × (s.frame ≡ false → s.pending ≡ [])

  pub IsFresh-set :
      (id : ℕ) (p : Part) (pending : List ℕ) (parts : Parts)
      → IsFresh pending parts
      → IsFresh (add id pending) (JsMap.set ℕ_discrete id p parts)
  IsFresh-set id p pending parts fresh j q h streaming = elim (ℕ_discrete id j) [
    | yes same ↦ inr (ground (arith, is_pending-add j id pending))
    | no other ↦
        elim (fresh j q (sym (JsMap.get-set_ne ℕ_discrete id j p parts other) ∙ h) streaming) [
          | inl current ↦ inl current
          | inr waits ↦ inr (ground (arith, is_pending-add j id pending))
        ]
  ]

  pub IsFresh-finish :
      (id : ℕ) (p : Part) (pending : List ℕ) (parts : Parts)
      → p.streaming ≡ false
      → IsFresh pending parts
      → IsFresh (keep (λ k. not (k == id)) pending) (JsMap.set ℕ_discrete id p parts)
  IsFresh-finish id p pending parts done fresh j q h streaming = elim (ℕ_discrete id j) [
    | yes same ↦ let e : p ≡ q = cc (JsMap.get-set_self ℕ_discrete id p parts) in cc
    | no other ↦
        elim (fresh j q (sym (JsMap.get-set_ne ℕ_discrete id j p parts other) ∙ h) streaming) [
          | inl current ↦ inl current
          | inr waits ↦ inr (ground (arith, is_pending-keep j id pending))
        ]
  ]

  module _ (has_frames : Bool) where
    pub scroll_lem :
        (s : Screen)
        → ((schedule_streaming_scroll has_frames s).parts ≡ s.parts)
          × ((schedule_streaming_scroll has_frames s).pending ≡ s.pending)
          × ((schedule_streaming_scroll has_frames s).frame ≡ s.frame)
          × ((schedule_streaming_scroll has_frames s).next_part ≡ s.next_part)
    unfolding schedule_streaming_scroll
    scroll_lem s = ground arith

    pub render_lem :
        (s : Screen)
        → ((render_streaming_markdown sanitize_blocks has_frames s).parts
            ≡ draw_parts sanitize_blocks s.pending s.parts)
          × ((render_streaming_markdown sanitize_blocks has_frames s).pending ≡ [])
          × ((render_streaming_markdown sanitize_blocks has_frames s).frame ≡ false)
          × ((render_streaming_markdown sanitize_blocks has_frames s).next_part ≡ s.next_part)
    unfolding render_streaming_markdown
    render_lem s =
        let drawn : Screen = record s {
          parts = draw_parts sanitize_blocks s.pending s.parts;
          pending = [];
          frame = false;
        } in
        elim (Bool-cases (rendered_content s.pending s.parts)) [
          | inl e ↦ rw e (scroll_lem drawn)
          | inr e ↦ rw e (refl, refl, refl, refl)
        ]

    pub render-IsLive :
        (s : Screen)
        → IsFresh s.pending s.parts
        → IsLive (render_streaming_markdown sanitize_blocks has_frames s)
    render-IsLive s fresh =
        let (parts, pending, frame, _) = render_lem s in
        ((rw (parts, pending) (draw_parts-IsFresh s.pending s.parts fresh)), λ _. pending)
