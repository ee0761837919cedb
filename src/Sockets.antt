-- ===== src/Sockets.antt =====
-- server-web/websocket/hub.go: the loop that owns the clients, as a function of the events that its
-- select takes one at a time. A client is a number; its channel is the list of the messages that wait
-- in it, oldest first, and the number of times that it was closed: a second close panics.
pub mod Closing
pub mod Delivery
mod Tests
use server_monitor.Base.{
  ℕ, ◌+◌, String, Bool, true, false, not, ◌&&◌, List, [], ◌∷◌, ◌++◌, length, eqb, ltb, leb,
  if◌then◌else◌,
}
use server_monitor.Base.Int.{ℤ, pos, pos_part, leb_ℤ}

-- The length of a client's channel: `make(chan []byte, 32)`.
abbrev pub send_buffer : ℕ
send_buffer = 32

pub record Hub : Type 0 where
  pub clients : List ℕ
  pub waiting : ℕ → List String
  pub closes : ℕ → ℕ
  -- the argument of the observer's last call
  pub gauge : ℕ
  pub max_connections : ℕ

unfoldable pub new_hub : ℤ → Hub
new_hub max_connections = record {
  clients = [];
  waiting = λ c. [];
  closes = λ c. 0;
  gauge = 0;
  max_connections = if leb_ℤ max_connections (pos 0) then 1000 else pos_part max_connections;
}

-- What the loop takes from its channels, and a message that a client's writePump takes.
pub data Event : Type 0 where
  register unregister : ℕ → Event
  broadcast : String → Event
  written : ℕ → Event

abbrev pub connected : ℕ → List ℕ → Bool
connected c [] = false
connected c (d ∷ ds) = if eqb c d then true else connected c ds

abbrev pub delete_client : ℕ → List ℕ → List ℕ
delete_client c [] = []
delete_client c (d ∷ ds) = let rest = delete_client c ds in if eqb c d then rest else d ∷ rest

-- close(client.send)
unfoldable pub close_send : ℕ → Hub → Hub
close_send c h = record h { closes = λ d. if eqb c d then h.closes d + 1 else h.closes d }

-- observeConnections
unfoldable pub observe_connections : Hub → Hub
observe_connections h = record h { gauge = length h.clients }

-- delete(h.clients, client); close(client.send); h.observeConnections()
unfoldable pub disconnect : ℕ → Hub → Hub
unfolding close_send observe_connections
disconnect c h =
    observe_connections (close_send c (record h { clients = delete_client c h.clients }))

unfoldable pub handle_register : ℕ → Hub → Hub
unfolding close_send observe_connections
handle_register c h =
    if ltb 0 h.max_connections && leb h.max_connections (length h.clients)
    then close_send c h
    else observe_connections (record h { clients = c ∷ h.clients })

unfoldable pub handle_unregister : ℕ → Hub → Hub
unfolding disconnect
handle_unregister c h = if connected c h.clients then disconnect c h else h

-- One turn of the loop of broadcastMessage; a client that is gone by then is not reached.
unfoldable pub deliver : String → ℕ → Hub → Hub
unfolding disconnect
deliver message c h =
    if not (connected c h.clients)
    then h
    else if ltb (length (h.waiting c)) send_buffer
    then record h { waiting = λ d. if eqb c d then h.waiting d ++ (message ∷ []) else h.waiting d }
    else disconnect c h

unfoldable pub deliver_all : String → List ℕ → Hub → Hub
unfolding deliver
deliver_all message [] h = h
deliver_all message (c ∷ cs) h = deliver_all message cs (deliver message c h)

unfoldable pub broadcast_message : String → Hub → Hub
unfolding deliver_all
broadcast_message message h = deliver_all message h.clients h

abbrev first_out : List String → List String
first_out [] = []
first_out (m ∷ ms) = ms

-- writePump takes the oldest message.
unfoldable pub write_one : ℕ → Hub → Hub
write_one c h = record h { waiting = λ d. if eqb c d then first_out (h.waiting d) else h.waiting d }

unfoldable pub handle : Event → Hub → Hub
unfolding handle_register handle_unregister broadcast_message write_one
handle (register c) h = handle_register c h
handle (unregister c) h = handle_unregister c h
handle (broadcast message) h = broadcast_message message h
handle (written c) h = write_one c h

unfoldable pub run : List Event → Hub → Hub
unfolding handle
run [] h = h
run (e ∷ es) h = run es (handle e h)

-- The deferred function of Run: every client's channel is closed, and the client removed.
unfoldable pub close_all : List ℕ → Hub → Hub
unfolding close_send
close_all [] h = h
close_all (c ∷ cs) h =
    close_all cs (record (close_send c h) { clients = delete_client c h.clients })

unfoldable pub stop : Hub → Hub
unfolding close_all observe_connections
stop h = observe_connections (close_all h.clients h)
