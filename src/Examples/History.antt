-- ===== src/Examples/History.antt =====
-- A history that is fitted to a budget, and an error that a close follows.
use magento2_chat_ai.Prelude.{ℕ, ◌≡◌, some}

some_inj : (a b : ℕ) → some a ≡ some b → a ≡ b
some_inj a b e = cc
