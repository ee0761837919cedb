-- ===== src/WebRedis.antt =====
-- server-web/redis/client.go over the commands of a Redis server. A command may fail at any point of
-- its way, so it gives an error and a state; within a script or a transaction it answers.
pub mod Script
pub mod Implements
pub mod Window
pub mod Memory
mod Tests
use server_monitor.Base.{
  ℕ, ◌-◌, ◌/◌, String, Bool, true, false, not, Option, none, some, List, [], ◌∷◌, eqb, leb,
  if◌then◌else◌,
}
use server_monitor.Base.Int.{ℤ, pos, pos_part, leb_ℤ, ltb_ℤ, ◌-ℤ◌}
use server_monitor.Base.Keyed.{Keyed}
use server_monitor.Errors.{GoError, message, Result, ok, err}
use server_monitor.RedisServer.{Answer, done, refused}

-- The payload of a stream message: the field that the client wrote, as a text, or something else.
pub data Payload : Type 0 where
  payload_text : String → Payload
  payload_missing payload_other : Payload

-- Whether a script or a transaction is delivered: the connection may break before it has run, or
-- before its reply has come back.
pub data Link : Type 0 where
  delivered : Link
  lost_before lost_after : GoError → Link

pub record Server : Type 1 where
  pub State : Type 0
  pub get : String → State → Result (Option String)
  pub set : String → String → ℤ → State → Option GoError × State
  pub set_nx : String → String → ℤ → State → Result Bool × State
  pub h_set : String → String → String → State → Option GoError × State
  pub h_del : String → String → State → Option GoError × State
  pub h_get_all : String → State → Result (Keyed String)
  pub publish : String → String → State → Option GoError × State
  pub x_rev_range_n : String → ℤ → State → Result (List Payload)
  pub link : State → Link
  -- within a script
  pub exists : String → State → Bool
  pub x_add : String → ℤ → String → State → Answer State
  pub set_px : String → String → ℕ → State → Answer State
  -- within a transaction: the scores of a sorted set that are below a bound are removed, a member
  -- that is new is added with a score, and the members are counted
  pub z_rem_range_below : String → ℕ → State → State
  pub z_add : String → ℕ → State → State
  pub z_card : String → State → ℕ
  pub expire : String → ℕ → State → State
  -- what the state holds: a field of a hash, a stream with the newest first, a sorted set's scores
  pub field : String → String → State → Option String
  pub entries : String → State → List String
  pub scores : String → State → List ℕ

module _ (R : Server) where
  open R use {State}

  abbrev pub not_enabled : GoError
  not_enabled = message "redis is not enabled"

  got : Result (Option String) → Option String
  got (ok value) = value
  got (err e) = none

  -- Get; an error is logged and counts as a miss
  unfoldable pub client_get : Bool → String → State → Option String
  unfolding got
  client_get enabled key s = if not enabled then none else got (R.get key s)

  unfoldable pub client_set : Bool → String → String → ℤ → State → Option GoError × State
  client_set enabled key value ttl s =
      if not enabled then (some not_enabled, s) else R.set key value ttl s

  unfoldable pub client_set_nx : Bool → String → String → ℤ → State → Result Bool × State
  client_set_nx enabled key value ttl s =
      if not enabled then (err not_enabled, s) else R.set_nx key value ttl s

  unfoldable pub client_h_set : Bool → String → String → String → State → Option GoError × State
  client_h_set enabled key field value s =
      if not enabled then (some not_enabled, s) else R.h_set key field value s

  unfoldable pub client_h_del : Bool → String → String → State → Option GoError × State
  client_h_del enabled key field s =
      if not enabled then (some not_enabled, s) else R.h_del key field s

  unfoldable pub client_h_get_all : Bool → String → State → Result (Keyed String)
  client_h_get_all enabled key s = if not enabled then err not_enabled else R.h_get_all key s

  unfoldable pub client_publish : Bool → String → String → State → Option GoError × State
  client_publish enabled channel text s =
      if not enabled then (some not_enabled, s) else R.publish channel text s

  -- The script of AddAlertEventOnce: what it returns, or the error that a command raises.
  after_set_px : Answer State → State → Result ℕ × State
  after_set_px (done t) s = (ok 1, t)
  after_set_px (refused e) s = (err (message e), s)

  after_x_add : String → String → ℤ → Answer State → State → Result ℕ × State
  unfolding after_set_px
  after_x_add dedupe_key dedupe_value ttl (done t) s =
      after_set_px (R.set_px dedupe_key dedupe_value (pos_part ttl / 1000000) t) t
  after_x_add dedupe_key dedupe_value ttl (refused e) s = (err (message e), s)

  unfoldable pub add_script : String → String → ℤ → String → String → ℤ → State → Result ℕ × State
  unfolding after_x_add
  add_script stream_key dedupe_key max_len value dedupe_value ttl s =
      if R.exists dedupe_key s
      then (ok 0, s)
      else after_x_add dedupe_key dedupe_value ttl (R.x_add stream_key max_len value s) s

  stored_one : Result ℕ × State → Result Bool × State
  stored_one (ok n, t) = (ok (eqb n 1), t)
  stored_one (err e, t) = (err e, t)

  unfoldable pub sent_script : Link → Result ℕ × State → State → Result Bool × State
  unfolding stored_one
  sent_script delivered (reply, t) s = stored_one (reply, t)
  sent_script (lost_before e) (reply, t) s = (err e, s)
  sent_script (lost_after e) (reply, t) s = (err e, t)

  unfoldable pub client_add_alert_event_once :
      Bool → String → String → ℤ → String → String → ℤ → State → Result Bool × State
  unfolding sent_script
  client_add_alert_event_once enabled stream_key dedupe_key max_len value dedupe_value ttl s =
      if not enabled
      then (err not_enabled, s)
      else if leb_ℤ max_len (pos 0)
      then (err (message "max stream length must be positive"), s)
      else if leb_ℤ ttl (pos 0)
      then (err (message "dedupe ttl must be positive"), s)
      else sent_script (R.link s)
          (add_script stream_key dedupe_key max_len value dedupe_value ttl s) s

  payload_values : List Payload → List String
  payload_values [] = []
  payload_values (payload_text value ∷ messages) = value ∷ payload_values messages
  payload_values (payload_missing ∷ messages) = payload_values messages
  payload_values (payload_other ∷ messages) = payload_values messages

  read_messages : Result (List Payload) → Result (List String)
  unfolding payload_values
  read_messages (err e) = err e
  read_messages (ok messages) = ok (payload_values messages)

  unfoldable pub client_x_rev_range_n : Bool → String → ℤ → State → Result (List String)
  unfolding read_messages
  client_x_rev_range_n enabled key count s =
      if not enabled
      then err not_enabled
      else if leb_ℤ count (pos 0)
      then err (message "stream count must be positive")
      else read_messages (R.x_rev_range_n key count s)

  -- The transaction of AllowSlidingWindow: the count, and the state. `float64` is the rounding of a
  -- number to a score; times are in nanoseconds since 1970.
  window_transaction : (ℕ → ℕ) → String → ℕ → ℕ → State → ℕ × State
  window_transaction float64 key window now s =
      let pruned = R.z_rem_range_below key (float64 (now - window)) s in
      let added = R.z_add key (float64 now) pruned in
      (R.z_card key added, R.expire key window added)

  -- allowed, remaining
  window_answer : Link → ℤ → ℕ × State → State → Result (Bool × ℤ) × State
  window_answer (lost_before e) limit (used, t) s = (err e, s)
  window_answer (lost_after e) limit (used, t) s = (err e, t)
  window_answer delivered limit (used, t) s = (
    ok (
      leb_ℤ (pos used) limit,
      (if ltb_ℤ (limit -ℤ pos used) (pos 0) then pos 0 else (limit -ℤ pos used)),
    ),
    t,
  )

  unfoldable pub allow_sliding_window :
      (ℕ → ℕ) → Bool → String → ℤ → ℤ → ℕ → State → Result (Bool × ℤ) × State
  unfolding window_transaction window_answer
  allow_sliding_window float64 enabled key limit window now s =
      if not enabled
      then (err not_enabled, s)
      else if leb_ℤ limit (pos 0)
      then (err (message "rate limit must be positive"), s)
      else if leb_ℤ window (pos 0)
      then (err (message "rate limit window must be positive"), s)
      else window_answer (R.link s) limit (window_transaction float64 key (pos_part window) now s) s
