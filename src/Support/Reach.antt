-- ===== src/Support/Reach.antt =====
-- support/support-broadcaster.js: whom a broadcast reaches.
use magento2_chat_ai.Prelude.{
  ◌≡◌, refl, ap, Bool, ◌&&◌, inl, inr, List, [], ◌∷◌, keep, length, Bool-cases, arith,
}
use magento2_chat_ai.Support.{Client, Frame, broadcast}

module _ {K : Type 0} (is_open : K → Bool) where
  -- The entries of the clients that a visitor takes, and whose sockets are open.
  abbrev pub reached : (Client → Bool) → List (K × Client) → List (K × Client)
  reached visitor clients = keep (λ (e : K × Client). visitor e.1 && is_open e.0) clients

  -- The frame, for the socket of each entry.
  abbrev pub to_each : Frame → List (K × Client) → List (K × Frame)
  to_each frame [] = []
  to_each frame (e ∷ es) = (e.0, frame) ∷ to_each frame es

  -- A broadcast sends its frame once to each open socket that it is for, in the order of the clients,
  -- and counts them.
  pub broadcast-reached :
      (visitor : Client → Bool) (frame : Frame) (clients : List (K × Client))
      → ((broadcast is_open visitor frame clients).0 ≡ to_each frame (reached visitor clients))
        × ((broadcast is_open visitor frame clients).1 ≡ length (reached visitor clients))
  unfolding broadcast keep
  broadcast-reached visitor frame [] = (refl, refl)
  broadcast-reached visitor frame ((socket, client) ∷ clients) =
      let (sent, counted) = broadcast-reached visitor frame clients in
      elim (Bool-cases (visitor client && is_open socket)) [
        | inl h ↦
            rw h (ap (λ (l : List (K × Frame)). (socket, frame) ∷ l) sent, omega (counted, arith))
        | inr h ↦ rw h (sent, counted)
      ]
