-- ===== src/AlertService/Store/Outcomes.antt =====
-- What a call of `Process` reports: its error, and its observation.
use server_monitor.Base.{
  String, ◌≡◌, refl, Bool, true, false, Option, none, some, [], ◌∷◌, arith, ◌==◌, inl, inr,
  Bool-cases,
}
use server_monitor.Errors.{GoError}
use server_monitor.Times.{TimeFormat}
use server_monitor.RedisServer.{Redis}
use server_monitor.AlertService.Event.{AlertEvent, validate_event, status_firing, status_resolved}
use server_monitor.AlertService.Scripts.{
  Args, Reply, stored, raised, store_failed, delete_failed, increment_failed, rollback_failed,
  script_stored, apply_firing_event, apply_resolved_event,
}
use server_monitor.AlertService.Scripts.Replies.{
  Replied, apply_firing-Replied, apply_resolved-Replied,
}
use server_monitor.AlertService.Store.{
  Store, event_stored, event_deduped, event_failed, Processed, is_permanent, permanent,
  normalize_status, observe, process, settle, process_firing, process_valid, process_validated,
}

abbrev pub is_none {ℓ} : {A : Type ℓ} → Option A → Bool
is_none none = true
is_none (some a) = false

-- The error and the one observation of a call that started from `s` fit: no error and `stored`; no
-- error, `deduped` and the state untouched; or an error and `failed`. The error is permanent
-- exactly where the event is invalid, and then the state is untouched too.
pub data Accounted {S : Type 0} (status : String) (valid : Bool) (s : S) (p : Processed S)
    : Type 0 where
  was_stored :
      valid ≡ true
      → p.error ≡ none
      → p.observed ≡ (normalize_status status, event_stored) ∷ []
      → Accounted status valid s p
  was_deduped :
      valid ≡ true
      → p.error ≡ none
      → p.observed ≡ (normalize_status status, event_deduped) ∷ []
      → p.redis ≡ s
      → Accounted status valid s p
  was_refused :
      (e : GoError)
      → valid ≡ false
      → p.error ≡ some e
      → is_permanent e ≡ true
      → p.observed ≡ (normalize_status status, event_failed) ∷ []
      → p.redis ≡ s
      → Accounted status valid s p
  had_failed :
      (e : GoError)
      → valid ≡ true
      → p.error ≡ some e
      → is_permanent e ≡ false
      → p.observed ≡ (normalize_status status, event_failed) ∷ []
      → Accounted status valid s p

permanent-is_permanent : (e : GoError) → is_permanent (permanent e) ≡ true
unfolding permanent is_permanent
permanent-is_permanent e = elim (Bool-cases (is_permanent e)) [ inl p ↦ rw p p | inr p ↦ rw p ]

module _ (R : Redis) (fmt : TimeFormat) (marshal : AlertEvent → Option String) where
  open R use {State}

  -- What `settle` makes of the reply of a script.
  settle-Accounted :
      (c : Store) (event : AlertEvent) (there : Bool) (s : State) (reply : Reply) (t : State)
      → c.has_observer ≡ true
      → Replied there s (reply, t)
      → Accounted event.status true s (settle R fmt marshal c event (script_stored reply, t))
  unfolding settle script_stored observe is_permanent
  settle-Accounted c event there s (stored n) t o (inl (e, f)) =
      rw (e, settle) (was_stored refl refl (rw o))
  settle-Accounted c event there s (stored n) t o (inr (e, f, g)) =
      rw (e, settle) (was_deduped refl refl (rw o) f)
  settle-Accounted c event there s (raised e) t o h = had_failed _ refl refl refl (rw o)
  settle-Accounted c event there s (store_failed e) t o h = had_failed _ refl refl refl (rw o)
  settle-Accounted c event there s (delete_failed e) t o h = had_failed _ refl refl refl (rw o)
  settle-Accounted c event there s (increment_failed e) t o h = had_failed _ refl refl refl (rw o)
  settle-Accounted c event there s (rollback_failed e d) t o h = had_failed _ refl refl refl (rw o)

  enabled_firing-Accounted :
      (c : Store) (event : AlertEvent) (enabled : Bool) (key : String) (a : Args) (s : State)
      → c.has_observer ≡ true
      → Accounted event.status true s
          (settle R fmt marshal c event (apply_firing_event R enabled key a s))
  unfolding apply_firing_event settle observe is_permanent
  enabled_firing-Accounted c event true key a s o =
      settle-Accounted c event _ s _ _ o (apply_firing-Replied R _ a s)
  enabled_firing-Accounted c event false key a s o = had_failed _ refl refl refl (rw o)

  enabled_resolved-Accounted :
      (c : Store) (event : AlertEvent) (enabled : Bool) (key : String) (a : Args) (s : State)
      → c.has_observer ≡ true
      → Accounted event.status true s
          (settle R fmt marshal c event (apply_resolved_event R enabled key a s))
  unfolding apply_resolved_event settle observe is_permanent
  enabled_resolved-Accounted c event true key a s o =
      settle-Accounted c event _ s _ _ o (apply_resolved-Replied R _ a s)
  enabled_resolved-Accounted c event false key a s o = had_failed _ refl refl refl (rw o)

  process_firing-Accounted :
      (c : Store) (event : AlertEvent) (payload : Option String) (s : State)
      → c.has_observer ≡ true
      → Accounted event.status true s (process_firing R fmt marshal c event payload s)
  unfolding process_firing observe is_permanent
  process_firing-Accounted c event none s o = had_failed _ refl refl refl (rw o)
  process_firing-Accounted c event (some payload) s o =
      enabled_firing-Accounted c event c.client_enabled _ _ s o

  process_valid-Accounted :
      (c : Store) (event : AlertEvent) (s : State)
      → c.has_observer ≡ true
      → validate_event event ≡ none
      → Accounted event.status true s (process_valid R fmt marshal c event s)
  unfolding process_valid validate_event
  process_valid-Accounted c event s o valid = elim (Bool-cases (event.status == status_firing)) [
    | inl f ↦ rw f (process_firing-Accounted c event (marshal event) s o)
    | inr f ↦ elim (Bool-cases (event.status == status_resolved)) [
      | inl r ↦ rw (f, r) (enabled_resolved-Accounted c event c.client_enabled _ _ s o)
      | inr r ↦ absurd (ground arith)
    ]
  ]

  process_validated-Accounted :
      (c : Store) (event : AlertEvent) (o : Option GoError) (s : State)
      → c.has_observer ≡ true
      → validate_event event ≡ o
      → Accounted event.status (is_none o) s (process_validated R fmt marshal c event o s)
  unfolding process_validated observe
  process_validated-Accounted c event none s on v = process_valid-Accounted c event s on v
  process_validated-Accounted c event (some e) s on v =
      was_refused (permanent e) refl refl (permanent-is_permanent e) (rw on) refl

  -- A store with a client and an observer makes exactly one observation of each event, and it fits
  -- the error and the state: no error and `stored`; no error, `deduped` and Redis untouched; or an
  -- error and `failed`. The error is permanent exactly where the event is invalid, and then Redis is
  -- untouched too.
  pub process-Accounted :
      (c : Store) (event : AlertEvent) (s : State)
      → c.has_client ≡ true
      → c.has_observer ≡ true
      → Accounted event.status
          (is_none (validate_event event))
          s
          (process R fmt marshal (some c) event s)
  unfolding process
  process-Accounted c event s client o =
      rw client (process_validated-Accounted c event (validate_event event) s o refl)

  -- An invalid event is refused: a permanent error, and Redis untouched.
  pub process-refused :
      (c : Store) (event : AlertEvent) (s : State) (e : GoError)
      → c.has_client ≡ true
      → validate_event event ≡ some e
      → ((process R fmt marshal (some c) event s).error ≡ some (permanent e))
        × ((process R fmt marshal (some c) event s).redis ≡ s)
  unfolding process process_validated
  process-refused c event s e client bad = (rw (client, bad), rw (client, bad))
