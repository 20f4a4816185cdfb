-- ===== src/Realtime/Tests.antt =====
-- A hub with two conversations.
pub mod Connected
use inline_chat.Prelude.{false, ◌≡◌, List, [], ◌∷◌, arith, true, ◌⊎◌}
use inline_chat.Realtime.Client.{new_client}
use inline_chat.Realtime.Hub.{new_hub, broadcast}
use inline_chat.Realtime.Hub.Subscriptions.{
  Step, registers, unregisters, run, run_set, member, run-run_set,
}
use inline_chat.Realtime.Hub.Delivery.{run-empty, broadcast-IsReached, IsReached}

-- Clients 7 and 8 join conversation 1, and client 7 leaves it.
abbrev steps : List Step
steps = registers "1" 7 ∷ registers "2" 7 ∷ registers "1" 8 ∷ unregisters "1" 7 ∷ []

run-run_set_example : member "1" 8 (run steps new_hub) ≡ run_set steps (λ v c. false) "1" 8
run-run_set_example = run-run_set steps "1" 8

run-empty_example : run (registers "1" 7 ∷ unregisters "1" 7 ∷ []) new_hub ≡ new_hub
run-empty_example = run-empty (registers "1" 7 ∷ unregisters "1" 7 ∷ []) (λ v c. ground arith)

broadcast-IsReached_example :
    ((run_set steps (λ v c. false) "1" 8 ≡ true)
      × IsReached "hello" new_client
          (broadcast "1" "hello" (run steps new_hub) (λ q. new_client) 8))
    ⊎ ((run_set steps (λ v c. false) "1" 8 ≡ false)
        × (broadcast "1" "hello" (run steps new_hub) (λ q. new_client) 8 ≡ new_client))
broadcast-IsReached_example = broadcast-IsReached steps "1" "hello" (λ q. new_client) 8
