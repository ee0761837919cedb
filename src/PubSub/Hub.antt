-- ===== src/PubSub/Hub.antt =====
-- server-web/pubsub/hub.go: a buffered channel with a flag. The lock orders PublishLocal and Close, so
-- what goroutines do to the hub is a list of steps.
use server_monitor.Base.{
  ℕ, ◌<◌, ◌≤◌, String, ◌≡◌, Bool, true, false, if◌then◌else◌, List, [], ◌∷◌, ◌++◌, length,
}
use server_monitor.Errors.{GoError, message}

pub record Hub : Type 0 where
  pub messages : List String
  pub capacity : ℕ
  pub closed : Bool

unfoldable pub new_hub : ℕ → Hub
new_hub buffer_size = record { messages = []; capacity = buffer_size; closed = false }

abbrev pub hub_closed : GoError
hub_closed = message "pubsub hub is closed"

-- How PublishLocal ends.
pub data Outcome : Type 0 where
  sent refused_closed context_ended : Outcome

-- PublishLocal: its select may pick the channel if that has room, and the context if that is done.
-- Where neither is so it waits, and takes no step.
pub data Publish : Hub → String → Outcome → Hub → Type 0 where
  on_closed : {h : Hub} {text : String} → h.closed ≡ true → Publish h text refused_closed h
  on_context : {h : Hub} {text : String} → h.closed ≡ false → Publish h text context_ended h
  on_room :
      {h : Hub} {text : String}
      → h.closed ≡ false
      → length h.messages < h.capacity
      → Publish h text sent (record h { messages = h.messages ++ (text ∷ []) })

-- Close; closing a Go channel again would panic.
unfoldable pub close : Hub → Hub
close h = if h.closed then h else record h { closed = true }

abbrev pub with_sent : Outcome → String → List String → List String
with_sent sent text texts = texts ++ (text ∷ [])
with_sent refused_closed text texts = texts
with_sent context_ended text texts = texts

-- What a new hub may come to: the messages sent so far, those that the reader has taken, the hub.
pub data Reached (buffer_size : ℕ) : List String → List String → Hub → Type 0 where
  at_start : Reached buffer_size [] [] (new_hub buffer_size)
  on_publish :
      {s r : List String} {h k : Hub} {text : String} {o : Outcome}
      → Reached buffer_size s r h
      → Publish h text o k
      → Reached buffer_size (with_sent o text s) r k
  on_receive :
      {s r : List String} {h : Hub} {text : String} {rest : List String}
      → Reached buffer_size s r h
      → h.messages ≡ text ∷ rest
      → Reached buffer_size s (r ++ (text ∷ [])) (record h { messages = rest })
  on_close :
      {s r : List String} {h : Hub} → Reached buffer_size s r h → Reached buffer_size s r (close h)

-- No message is lost or overtaken, and the buffer holds no more than it may.
abbrev pub InOrder : ℕ → List String → List String → Hub → Type 0
InOrder n s r h = (s ≡ r ++ h.messages) × (length h.messages ≤ h.capacity) × (h.capacity ≡ n)
