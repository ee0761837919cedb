-- ===== src/PubSub.antt =====
-- server-web/pubsub/subscriber.go: the loop that keeps a subscription of a Redis channel and passes its
-- messages on to the hub. What the selects see is a list of events; durations are in nanoseconds.
pub mod Reconnect
pub mod Hub
mod Tests
use server_monitor.Base.{
  ℕ, ◌+◌, ◌-◌, ◌*◌, ◌/◌, String, Bool, true, false, not, ◌||◌, Option, none, some, List, [], ◌∷◌,
  ◌++◌, ◌==◌, eqb, ltb, if◌then◌else◌,
}
use server_monitor.Errors.{GoError, message, wrapped}

abbrev pub reconnect_initial_delay : ℕ
reconnect_initial_delay = 1000000000

abbrev pub reconnect_max_delay : ℕ
reconnect_max_delay = 30000000000

-- What PublishLocal does with a message: the hub takes it, or there is an error, of a context that is
-- cancelled or of a hub that is closed.
pub data Published : Type 0 where
  taken : Published
  not_taken : GoError → Bool → Published

-- What a select of subscribeOnce picks.
pub data Picked : Type 0 where
  context_done channel_closed : Picked
  received : String → Published → Picked

-- A call of subscribeOnce: Subscribe fails, or there are events until it returns.
pub data Attempt : Type 0 where
  subscribe_failed : GoError → Attempt
  subscribed : List Picked → Attempt

-- How it ends: with nil, with an error, or not yet.
pub data Ended : Type 0 where
  ended_well still_waiting : Ended
  broken : GoError → Ended

unfoldable pub pick_loop : List Picked → Ended × List String
pick_loop [] = (still_waiting, [])
pick_loop (context_done ∷ picks) = (ended_well, [])
pick_loop (channel_closed ∷ picks) = (broken (message "subscription channel closed"), [])
pick_loop (received text taken ∷ picks) =
    let (ended, passed) = pick_loop picks in (ended, text ∷ passed)
pick_loop (received text (not_taken e cancelled) ∷ picks) =
    if cancelled then (ended_well, []) else (broken (wrapped "publish local alert" e), [])

-- How it ends, and the messages that the hub took.
unfoldable pub subscribe_once : Attempt → Ended × List String
unfolding pick_loop
subscribe_once (subscribe_failed e) = (broken e, [])
subscribe_once (subscribed picks) = pick_loop picks

-- withJitter; rand.Int64N gives a number below its argument.
unfoldable pub with_jitter : (ℕ → ℕ) → ℕ → ℕ
with_jitter int64_n delay =
    let jitter = delay / 5 in
    if eqb jitter 0 then delay else delay + int64_n (jitter * 2 + 1) - jitter

unfoldable pub next_delay : ℕ → ℕ
next_delay delay =
    let doubled = delay * 2 in
    if ltb reconnect_max_delay doubled then reconnect_max_delay else doubled

-- One turn of the loop of Run: the call, the random numbers of its wait, and whether the context is
-- done while it waits.
pub record Turn : Type 0 where
  pub attempt : Attempt
  pub int64_n : ℕ → ℕ
  pub done_in_wait : Bool

-- What Run has done: whether it has returned, its waits, and the messages passed on.
pub record Progress : Type 0 where
  pub returned : Bool
  pub waits : List ℕ
  pub passed : List String

abbrev nothing_done : Bool → List String → Progress
nothing_done returned passed = record { returned = returned; waits = []; passed = passed }

abbrev waited : ℕ → List String → Progress → Progress
waited wait passed p = record {
  returned = p.returned;
  waits = wait ∷ p.waits;
  passed = passed ++ p.passed;
}

after_attempt : Ended × List String → ℕ → Bool → Progress → Progress
after_attempt (ended_well, passed) wait done_in_wait rest = nothing_done true passed
after_attempt (still_waiting, passed) wait done_in_wait rest = nothing_done false passed
after_attempt (broken e, passed) wait done_in_wait rest =
    waited wait passed (if done_in_wait then nothing_done true [] else rest)

unfoldable pub run_loop : ℕ → List Turn → Progress
unfolding after_attempt subscribe_once with_jitter next_delay
run_loop delay [] = nothing_done false []
run_loop delay (turn ∷ turns) =
    let rest = run_loop (next_delay delay) turns in
    after_attempt (subscribe_once turn.attempt) (with_jitter turn.int64_n delay) turn.done_in_wait
      rest

-- Run of a subscriber that has a client, enabled or not, if any, and a hub.
unfoldable pub run : Option Bool → Bool → String → List Turn → Progress
unfolding run_loop
run client has_hub channel turns = elim client [
  | none ↦ nothing_done true []
  | some enabled ↦
      if not enabled || (not has_hub || (channel == ""))
      then nothing_done true []
      else run_loop reconnect_initial_delay turns
]
