-- ===== src/Examples/Security.antt =====
-- Connections of websocket-security.js.
use magento2_chat_ai.Prelude.{ℕ, ◌≡◌, refl, true, false, List, [], ◌∷◌, arith, ℕ_discrete}
use magento2_chat_ai.JsMap
use magento2_chat_ai.Security.Connections.{count_or}
use magento2_chat_ai.Security.Connections.Counting.{
  Event, admits, releases, run, IsCounted, held, run-IsCounted,
}
use magento2_chat_ai.Security.Distributed.{Request, admit, after_global, acquire_network}
use magento2_chat_ai.Security.Distributed.Rollback.{admit_rollback}
use magento2_chat_ai.Security.Heartbeat.{Socket}
use magento2_chat_ai.Runtime.Scoped.{acquire_scoped, purge}
use magento2_chat_ai.Runtime.Scoped.Bound.{leases}
use magento2_chat_ai.Runtime.Scoped.Live.{live}

abbrev calls : List (Event ℕ)
calls = admits 9 0 ∷ admits 9 1 ∷ releases 0 ∷ releases 0 ∷ []

run-IsCounted_example :
    IsCounted ℕ_discrete
      (record { global_limit = 500; network_limit = 1 })
      (run ℕ_discrete
        (record { global_limit = 500; network_limit = 1 })
        calls
        (record { counts = []; leases = [] }))
unfolding count_or held JsMap.get
run-IsCounted_example =
    run-IsCounted ℕ_discrete (record { global_limit = 500; network_limit = 1 }) calls
      (record { counts = []; leases = [] })
      (record { exact = λ a. refl; within = λ a. omega arith })

abbrev request : Request ℕ
request = record { global_key = 1; network_key = 2; global_token = 5; network_token = 6 }

admit_rollback_example :
    live ℕ_discrete 0 1
      (admit ℕ_discrete 0
        (record { global_limit = 1; network_limit = 1; lease_ms = 90000 })
        true
        request
        []).1
    ≡ live ℕ_discrete 0 1 []
unfolding admit after_global acquire_network acquire_scoped live leases purge JsMap.get
admit_rollback_example =
    admit_rollback ℕ_discrete 0 (record { global_limit = 1; network_limit = 1; lease_ms = 90000 })
      true request [] 1 refl (λ g n e. cc)

abbrev socket : Socket
socket = record { is_alive = true; terminated = false; pings = 0 }
