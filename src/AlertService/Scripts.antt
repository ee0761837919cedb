-- ===== src/AlertService/Scripts.antt =====
-- alert-service/redis/client.go: the two Lua scripts and the methods that run them.
pub mod Firing
pub mod Effects
use Prim.Native.String.{◌++◌}
pub mod Resolved
pub mod Replies
use server_monitor.Base.{
  ℕ, String, ◌≡◌, refl, Bool, true, false, not, Option, none, some, eqb, if◌then◌else◌,
}
use server_monitor.Errors.{GoError, message, wrapped, Result, ok, err}
use server_monitor.RedisServer.{Redis, Answer, done, refused}

-- How a script ends: with the integer that it returns, with an error raised by `redis.call`, or
-- with one of its own `redis.error_reply`s.
pub data Reply : Type 0 where
  stored : ℕ → Reply
  raised : String → Reply
  store_failed : String → Reply
  delete_failed : String → Reply
  increment_failed : String → Reply
  rollback_failed : String → String → Reply

pub record Keys : Type 0 where
  pub dedup_key : String
  pub active_key : String
  pub stats_key : String

pub record Args : Type 0 where
  pub ttl : ℕ
  pub fingerprint : String
  pub payload : String
  pub stats_field : String

module _ (R : Redis) (k : Keys) (a : Args) where
  open R use {State}

  pub finish : Answer State → State → Reply × State
  finish (done t) s = (stored 1, t)
  finish (refused e) s = (raised e, s)

  restored : String → Answer State → State → Reply × State
  restored e (done t) s = (increment_failed e, t)
  restored e (refused d) s = (rollback_failed e d, s)

  rollback : String → Option String → State → Reply × State
  unfolding restored
  rollback e (some previous) s = restored e (R.hset k.active_key a.fingerprint previous s) s
  rollback e none s = restored e (R.hdel k.active_key a.fingerprint s) s

  after_increment : Option String → Answer State → State → Reply × State
  unfolding finish rollback
  after_increment previous (done t) s = finish (R.set_px k.dedup_key "1" a.ttl t) t
  after_increment previous (refused e) s = rollback e previous s

  after_hset : Option String → Answer State → State → Reply × State
  unfolding after_increment
  after_hset previous (done t) s =
      after_increment previous (R.hincrby k.stats_key a.stats_field 1 t) t
  after_hset previous (refused e) s = (store_failed e, s)

  after_hget : Answer (Option String) → State → Reply × State
  unfolding after_hset
  after_hget (done previous) s =
      after_hset previous (R.hset k.active_key a.fingerprint a.payload s) s
  after_hget (refused e) s = (raised e, s)

  -- applyFiringEventScript
  unfoldable pub apply_firing_event_script : State → Reply × State
  unfolding after_hget
  apply_firing_event_script s =
      if R.exists k.dedup_key s
      then (stored 0, s)
      else after_hget (R.hget k.active_key a.fingerprint s) s

  after_hdel : Answer State → State → Reply × State
  unfolding finish
  after_hdel (done t) s = finish (R.set_px k.dedup_key "1" a.ttl t) t
  after_hdel (refused e) s = (delete_failed e, s)

  -- applyResolvedEventScript; it is given no stats key, no payload and no field
  unfoldable pub apply_resolved_event_script : State → Reply × State
  unfolding after_hdel
  apply_resolved_event_script s =
      if R.exists k.dedup_key s
      then (stored 0, s)
      else after_hdel (R.hdel k.active_key a.fingerprint s) s

-- scriptStored of the reply, after the client library has made an error of an error reply
unfoldable pub script_stored : Reply → Result Bool
script_stored (stored n) = ok (eqb n 1)
script_stored (raised e) = err (message e)
script_stored (store_failed e) = err (message ("store active alert: " ++ e))
script_stored (delete_failed e) = err (message ("delete active alert: " ++ e))
script_stored (increment_failed e) = err (message ("increment alert stats: " ++ e))
script_stored (rollback_failed e d) =
    err (message ("increment alert stats: " ++ (e ++ ("; rollback active alert: " ++ d))))

module _ (R : Redis) where
  open R use {State}

  -- ApplyFiringEvent and ApplyResolvedEvent on a client that is enabled or not
  unfoldable pub apply_firing_event : Bool → String → Args → State → Result Bool × State
  unfolding script_stored
  apply_firing_event enabled dedup_key a s =
      if not enabled
      then (err (message "redis is not enabled"), s)
      else (let (reply, t) =
            apply_firing_event_script R
              (record {
                dedup_key = dedup_key;
                active_key = "alert:active";
                stats_key = "alert:stats";
              })
              a s in
          (script_stored reply, t))

  unfoldable pub apply_resolved_event : Bool → String → Args → State → Result Bool × State
  unfolding script_stored
  apply_resolved_event enabled dedup_key a s =
      if not enabled
      then (err (message "redis is not enabled"), s)
      else (let (reply, t) =
            apply_resolved_event_script R
              (record {
                dedup_key = dedup_key;
                active_key = "alert:active";
                stats_key = "alert:stats";
              })
              a s in
          (script_stored reply, t))
