-- ===== src/Realtime/Tests.antt =====
-- A run in which a client leaves between the copy of the clients and the send to it, and the
-- theorems at its hubs.
use tunnelgate.Prelude.{refl, ◌≡◌, ◌↔◌, true, false, [], arith, ℕ_eq, elem}
use tunnelgate.Text.{bytes, text_eq}
use tunnelgate.Realtime.{
  HubEvent, Hub, new_hub, subscribe, unsubscribe, begin_broadcast, send, connected, left, started,
  Reachable, at_start, after,
}
use tunnelgate.Realtime.Reached.{IsSafe, Reachable-IsSafe, send-panicked_iff}

abbrev hello : HubEvent
hello = record { name = bytes "mcp:changed"; payload = [] }

-- One client, a broadcast that has begun, and the client gone.
gone : Hub
unfolding subscribe unsubscribe begin_broadcast
gone = unsubscribe 0 (begin_broadcast hello (subscribe new_hub))

reached : Reachable gone
unfolding gone
reached = after (after (after at_start connected) (started hello)) (left 0)

panic_test : (send hello 0 gone).panicked ≡ true
unfolding gone send unsubscribe begin_broadcast subscribe
panic_test = refl

Reachable-IsSafe_example : IsSafe gone
Reachable-IsSafe_example = Reachable-IsSafe reached

send-panicked_iff_example : ((send hello 0 gone).panicked ≡ true) ↔ (elem 0 gone.clients ≡ false)
unfolding gone unsubscribe begin_broadcast subscribe
send-panicked_iff_example = send-panicked_iff hello 0 reached (omega arith) refl
