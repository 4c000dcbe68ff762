-- ===== src/Examples/Emitter.antt =====
-- A run of smooth-chunk-emitter.js.
use magento2_chat_ai.Prelude.{◌≡◌, refl, true, false, [], ◌∷◌, ◌++◌, arith}
use magento2_chat_ai.Conversation.ChunkEmitter.{
  Config, Emitter, fires, drains, created, drain, resolves, run,
}
use magento2_chat_ai.Conversation.ChunkEmitter.Flow.{
  pushing, firing, draining, calls, pushed, passed, calls-passed,
}
use magento2_chat_ai.Conversation.ChunkEmitter.Drain.{fire_all, IsDrained, fire_all-IsDrained}
use magento2_chat_ai.Conversation.ChunkEmitter.Settling.{drain_strands}

abbrev config : Config
config = record { target_frames = 2; min_chars = 1; max_chars = 2 }

abbrev busy : Emitter
busy = record created { queue = 3 ∷ 4 ∷ 5 ∷ []; timer = true; waiters = 1 }

calls-passed_example :
    passed (calls config (pushing (1 ∷ 2 ∷ []) ∷ firing ∷ draining ∷ []) busy)
    ≡ passed busy ++ pushed (pushing (1 ∷ 2 ∷ []) ∷ firing ∷ draining ∷ [])
calls-passed_example = calls-passed config (pushing (1 ∷ 2 ∷ []) ∷ firing ∷ draining ∷ []) busy refl

fire_all-IsDrained_example : IsDrained (fire_all config 4 busy)
fire_all-IsDrained_example = fire_all-IsDrained config 4 busy (omega arith) refl

drain_strands_example :
    ((drain true busy).0 ≡ resolves)
    × ((run config (drains true ∷ fires true false ∷ []) (drain true busy).1).waiters ≡ 1)
drain_strands_example = drain_strands config (drains true ∷ fires true false ∷ []) busy refl tt
