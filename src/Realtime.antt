-- ===== src/Realtime.antt =====
-- The hub of the web sockets: backend/internal/features/realtime/hub.go.
-- Each step is atomic: what `subscribe` and `unsubscribe` do under the lock, the copy of the clients
-- in `Broadcast`, one `select` of its loop, and one receive of `serve`. Steps of broadcasts that run
-- at the same time and of clients that come and go interleave in any order.
pub mod Reached
mod Tests
use tunnelgate.Prelude.{
  ◌≡◌, ◌∷◌, ◌++◌, ◌==◌, if◌then◌else◌, ℕ, suc, Bool, true, false, not, List, [], ltb, length, drop,
  keep, ℕ_eq, list_eq, elem,
}
use tunnelgate.Text.{Text, text_eq}

-- `Event`, whose payload is kept as a text.
pub record HubEvent : Type 0 where
  pub name : Text
  pub payload : Text

-- The channel `send` of a client.
pub record Channel : Type 0 where
  pub queue : List HubEvent
  pub closed : Bool

-- A run of the loop of `Broadcast`: its message and the clients that are still to be served.
pub record Delivery : Type 0 where
  pub message : HubEvent
  pub rest : List ℕ

-- Clients are numbered in the order in which they connect; `panicked` says that something was sent
-- on a channel that is closed.
pub record Hub : Type 0 where
  pub clients : List ℕ
  pub channels : ℕ → Channel
  pub next_client : ℕ
  pub deliveries : List Delivery
  pub panicked : Bool

abbrev pub buffer : ℕ
buffer = 32

abbrev pub open_channel : Channel
open_channel = record { queue = []; closed = false }

abbrev pub new_hub : Hub
new_hub = record {
  clients = [];
  channels = λ client. open_channel;
  next_client = 0;
  deliveries = [];
  panicked = false;
}

abbrev pub set_channel : ℕ → Channel → (ℕ → Channel) → ℕ → Channel
set_channel client channel channels other = if other == client then channel else channels other

abbrev pub remove : ℕ → List ℕ → List ℕ
remove client = keep (λ other. not (other == client))

-- `serve` makes a channel and subscribes it.
unfoldable pub subscribe : Hub → Hub
subscribe hub = record hub {
  clients = hub.next_client ∷ hub.clients;
  channels = set_channel hub.next_client open_channel hub.channels;
  next_client = suc hub.next_client;
}

unfoldable pub unsubscribe : ℕ → Hub → Hub
unsubscribe client hub =
    if elem client hub.clients
    then record hub {
      clients = remove client hub.clients;
      channels = set_channel client (record (hub.channels client) { closed = true }) hub.channels;
    }
    else hub

-- `Broadcast` up to its loop.
unfoldable pub begin_broadcast : HubEvent → Hub → Hub
begin_broadcast message hub = record hub {
  deliveries = hub.deliveries ++ record { message = message; rest = hub.clients } ∷ [];
}

-- The `select` of the loop of `Broadcast`, for one client.
unfoldable pub send : HubEvent → ℕ → Hub → Hub
unfolding unsubscribe
send message client hub =
    let channel = hub.channels client in
    if channel.closed
    then record hub { panicked = true }
    else if ltb (length channel.queue) buffer
    then record hub {
      channels =
          set_channel client (record channel { queue = channel.queue ++ message ∷ [] })
            hub.channels;
    }
    else unsubscribe client hub

-- The receive of `serve`.
unfoldable pub receive : ℕ → Hub → Hub
receive client hub =
    let channel = hub.channels client in
    record hub {
      channels = set_channel client (record channel { queue = drop 1 channel.queue }) hub.channels;
    }

pub data Step : Hub → Hub → Type 0 where
  connected : {hub : Hub} → Step hub (subscribe hub)
  left : {hub : Hub} (client : ℕ) → Step hub (unsubscribe client hub)
  started : {hub : Hub} (message : HubEvent) → Step hub (begin_broadcast message hub)
  delivered :
      {hub : Hub} (earlier later : List Delivery) (message : HubEvent) (client : ℕ) (rest : List ℕ)
      → hub.deliveries ≡ earlier ++ record { message = message; rest = client ∷ rest } ∷ later
      → Step hub (record (send message client hub) {
        deliveries = earlier ++ record { message = message; rest = rest } ∷ later;
      })
  received : {hub : Hub} (client : ℕ) → Step hub (receive client hub)

-- The hubs that some interleaving leads to.
pub data Reachable : Hub → Type 0 where
  at_start : Reachable new_hub
  after : {hub next : Hub} → Reachable hub → Step hub next → Reachable next
