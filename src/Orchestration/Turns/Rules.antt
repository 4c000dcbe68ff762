-- ===== src/Orchestration/Turns/Rules.antt =====
-- openai-compatible-orchestrator.js: what holds of each way in which a turn may go on.
use magento2_chat_ai.Orchestration.Turns.{
  ToolFlow, Turn, Next, go_on, leave, ended, Outcome, Batch, Tools, all_run, interrupted, Reply,
  Run, turn, run_turns,
}
use magento2_chat_ai.Prelude.{ℕ, zero, suc, ◌+◌, ◌≡◌, subst, arith}
use magento2_chat_ai.Text.{Text}

module _ {S P : Type 0} (Q L : Turn S P → Type 0) (R : Outcome → Turn S P → Type 0) where
  -- `Q` before the next iteration, `L` after a `break`, `R` after a `return`.
  abbrev pub Holds : Next S P → Type 0
  Holds (go_on t) = Q t
  Holds (leave t) = L t
  Holds (ended outcome t) = R outcome t

  abbrev pub HoldsFor : (Batch S P → Type 0) → Tools S P → Type 0
  HoldsFor B (all_run b) = B b
  HoldsFor B (interrupted n) = Holds n

-- What a turn that goes on leads to.
pub onward :
    {S P : Type 0} (Q Q' L : Turn S P → Type 0) (R : Outcome → Turn S P → Type 0)
    (go : Turn S P → Next S P)
    → ((t : Turn S P) → Q t → Holds Q' L R (go t))
    → (n : Next S P) → Holds Q L R n
    → Holds Q' L R
        (elim n [ go_on t ↦ go t | leave t ↦ leave t | ended outcome t ↦ ended outcome t ])
onward Q Q' L R go rest (go_on t) q = rest t q
onward Q Q' L R go rest (leave t) l = l
onward Q Q' L R go rest (ended outcome t) r = r

module _ {S P : Type 0} (Q : ℕ → Turn S P → Type 0) (L : Turn S P → Type 0)
    (R : Outcome → Turn S P → Type 0) (flow : ToolFlow S P) (run : Run) (print : ℕ → Text)
    (provider : ℕ → ℕ → Reply) (max_tool_rounds : ℕ)
    (keeps : (i : ℕ) (t : Turn S P)
      → Q i t
      → Holds (Q (suc i)) L R (turn flow run print provider max_tool_rounds i t)) where
  -- What each iteration keeps holds of the loop.
  pub run_turns-Holds :
      (left i j : ℕ) (t : Turn S P)
      → left + i ≡ j
      → Q i t
      → Holds (Q j) L R (run_turns flow run print provider max_tool_rounds left i t)
  unfolding run_turns
  run_turns-Holds zero i j t e q = subst (λ k. Q k t) (omega (e, arith)) q
  run_turns-Holds (suc left) i j t e q =
      onward (Q (suc i)) (Q j) L R (run_turns flow run print provider max_tool_rounds left (suc i))
        (λ t' q'. run_turns-Holds left (suc i) j t' (omega (e, arith)) q')
        (turn flow run print provider max_tool_rounds i t) (keeps i t q)
