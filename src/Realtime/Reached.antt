-- ===== src/Realtime/Reached.antt =====
-- What holds of the hub in every interleaving: backend/internal/features/realtime/hub.go.
use tunnelgate.Prelude.{
  refl, ◌≤◌, ◌<◌, ◌≡◌, ◌∙◌, ◌≢◌, ◌↔◌, ◌&&◌, ◌||◌, ◌∷◌, ◌++◌, ◌==◌, ℕ, suc, sym, ap, inl, inr, Bool,
  true, false, not, List, [], arith, ltb, nat_eq_iff, if-elim, Bool-cases, length, drop,
  length-append, ℕ_eq, elem,
}
use mathlib.Core.Path.{subst}
use tunnelgate.Realtime.{
  HubEvent, Channel, Hub, buffer, open_channel, set_channel, remove, subscribe, unsubscribe,
  begin_broadcast, send, receive, Step, connected, left, started, delivered, received, Reachable,
  at_start, after,
}

-- What holds of a client, given whether it is one of the clients now: at most as many events wait
-- for it as the buffer holds, it has connected if it is one, and if it has connected then its
-- channel is closed exactly if it is one no longer.
abbrev pub IsServed : Bool → ℕ → ℕ → Channel → Type 0
IsServed is_client next client channel =
    (length channel.queue ≤ buffer)
    × (is_client ≡ true → client < next)
    × (client < next → channel.closed ≡ not is_client)

abbrev pub IsServedBy : Hub → ℕ → Type 0
IsServedBy hub client =
    IsServed (elem client hub.clients) hub.next_client client (hub.channels client)

-- The state of every client.
unfoldable pub IsSafe : Hub → Type 0
IsSafe hub = (client : ℕ) → IsServedBy hub client

elem-remove :
    (other client : ℕ) (clients : List ℕ)
    → elem other (remove client clients) ≡ (elem other clients && not (other == client))
elem-remove other client [] = refl
elem-remove other client (c ∷ clients) = elim (Bool-cases (c == client)) [
  | inl e ↦ rw e (elem-remove other client clients ∙ ground (arith, e))
  | inr n ↦ rw n (ap (λ b. c == other || b) (elem-remove other client clients) ∙ ground (arith, n))
]

-- A channel that is set, if the new one is as it should be for its own client.
set_channel-IsServed :
    (is_client : Bool) (next client changed : ℕ) (channel : Channel) (channels : ℕ → Channel)
    → (client ≡ changed → IsServed is_client next client channel)
    → (client ≢ changed → IsServed is_client next client (channels client))
    → IsServed is_client next client (set_channel changed channel channels client)
set_channel-IsServed is_client next client changed channel channels f g =
    if-elim (IsServed is_client next client) (client == changed) _ _
      (λ e. f ((nat_eq_iff client changed).0 e)) (λ n. g (λ e. ground (arith, e, n)))

subscribe-IsSafe : (hub : Hub) → IsSafe hub → IsSafe (subscribe hub)
unfolding IsSafe subscribe
subscribe-IsSafe hub h client =
    let (few, known, closed) = h client in
    set_channel-IsServed (elem client (hub.next_client ∷ hub.clients)) (suc hub.next_client) client
      hub.next_client open_channel hub.channels
      (λ e. (omega arith, (λ _. omega (arith, e)), (λ _. ground (arith, e))))
      (λ differs. (
        few,
        (λ b. ground (arith, b, known, differs)),
        (λ lt. ground (arith, lt, closed, differs)),
      ))

unsubscribe-IsSafe : (gone : ℕ) (hub : Hub) → IsSafe hub → IsSafe (unsubscribe gone hub)
unfolding IsSafe unsubscribe
unsubscribe-IsSafe gone hub h client =
    let (few, known, closed) = h client in
    if-elim (λ (k : Hub). IsServedBy k client) (elem gone hub.clients) _ _
      (λ there_is.
        set_channel-IsServed (elem client (remove gone hub.clients)) hub.next_client client gone
          (record (hub.channels gone) { closed = true }) hub.channels
          (λ e. (
            (h gone).0,
            (λ b. ground (arith, b, e, known, elem-remove client gone hub.clients)),
            (λ _. ground (arith, e, elem-remove client gone hub.clients)),
          ))
          (λ differs. (
            few,
            (λ b. ground (arith, b, known, elem-remove client gone hub.clients)),
            (λ lt. ground (arith, lt, closed, differs, elem-remove client gone hub.clients)),
          )))
      (λ _. h client)

send-IsSafe : (message : HubEvent) (to : ℕ) (hub : Hub) → IsSafe hub → IsSafe (send message to hub)
unfolding IsSafe send
send-IsSafe message to hub h client =
    let channel = hub.channels to in
    if-elim (λ (k : Hub). IsServedBy k client) channel.closed _ _ (λ _. h client)
      (λ _.
        if-elim (λ (k : Hub). IsServedBy k client) (ltb (length channel.queue) buffer) _ _
          (λ room.
            set_channel-IsServed (elem client hub.clients) hub.next_client client to
              (record channel { queue = channel.queue ++ message ∷ [] }) hub.channels
              (λ e.
                subst
                  (λ c.
                    IsServed (elem c hub.clients) hub.next_client c
                      (record channel { queue = channel.queue ++ message ∷ [] }))
                  (sym e)
                  (
                    ground (arith, room, length-append channel.queue (message ∷ [])),
                    (h to).1,
                    (h to).2,
                  ))
              (λ _. h client))
          (λ _. unsubscribe-IsSafe to hub h client))

receive-IsSafe : (from : ℕ) (hub : Hub) → IsSafe hub → IsSafe (receive from hub)
unfolding IsSafe receive
receive-IsSafe from hub h client =
    let channel = hub.channels from in
    set_channel-IsServed (elem client hub.clients) hub.next_client client from
      (record channel { queue = drop 1 channel.queue }) hub.channels
      (λ e.
        subst
          (λ c.
            IsServed (elem c hub.clients) hub.next_client c
              (record channel { queue = drop 1 channel.queue }))
          (sym e)
          (omega (arith, (h from).0, length-drop_one channel.queue), (h from).1, (h from).2))
      (λ _. h client)
  where
    length-drop_one : (queue : List HubEvent) → length (drop 1 queue) ≤ length queue
    length-drop_one [] = omega arith
    length-drop_one (event ∷ queue) = omega arith

Step-IsSafe : {hub next : Hub} → Step hub next → IsSafe hub → IsSafe next
unfolding IsSafe begin_broadcast
Step-IsSafe (connected {hub}) h = subscribe-IsSafe hub h
Step-IsSafe (left {hub} client) h = unsubscribe-IsSafe client hub h
Step-IsSafe (started {hub} message) h = h
Step-IsSafe (delivered {hub} earlier later message client rest e) h =
    send-IsSafe message client hub h
Step-IsSafe (received {hub} client) h = receive-IsSafe client hub h

-- In every interleaving of clients that connect, receive and leave with broadcasts, at most 32
-- events wait for a client, a client is one only if it has connected, and the channel of one that
-- has connected is closed exactly if it is a client no longer.
pub Reachable-IsSafe : {hub : Hub} → Reachable hub → IsSafe hub
unfolding IsSafe
Reachable-IsSafe at_start client = (omega arith, (λ b. cc), (λ lt. absurd (omega (arith, lt))))
Reachable-IsSafe (after past step) client = Step-IsSafe step (Reachable-IsSafe past) client

-- In every interleaving, a send of `Broadcast` to a client that has connected is one on a closed
-- channel, which panics, exactly if the client was unsubscribed since: a send to a client of the
-- hub never panics.
pub send-panicked_iff :
    {hub : Hub} (message : HubEvent) (client : ℕ)
    → Reachable hub
    → client < hub.next_client
    → hub.panicked ≡ false
    → ((send message client hub).panicked ≡ true) ↔ (elem client hub.clients ≡ false)
unfolding send unsubscribe IsSafe
send-panicked_iff {hub} message client past connected_before calm =
    let (_, _, closed_iff) = Reachable-IsSafe past client in
    let closed = closed_iff connected_before in
    let channel = hub.channels client in
    if-elim (λ (k : Hub). (k.panicked ≡ true) ↔ (elem client hub.clients ≡ false)) channel.closed _
      _ (λ shut. ground (arith, shut, closed))
      (λ not_shut.
        if-elim (λ (k : Hub). (k.panicked ≡ true) ↔ (elem client hub.clients ≡ false))
          (ltb (length channel.queue) buffer) _ _ (λ _. ground (arith, not_shut, closed, calm))
          (λ _.
            if-elim (λ (k : Hub). (k.panicked ≡ true) ↔ (elem client hub.clients ≡ false))
              (elem client hub.clients) _ _ (λ _. ground (arith, not_shut, closed, calm))
              (λ _. ground (arith, not_shut, closed, calm))))
