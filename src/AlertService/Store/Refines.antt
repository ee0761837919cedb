-- ===== src/AlertService/Store/Refines.antt =====
-- `Process` as a step on the abstract view: what a call without an error does to Redis.
use server_monitor.Base.{
  ◌∙◌, subst, String, ◌≡◌, refl, sym, Bool, true, false, Option, none, some, arith, ◌==◌, eq_iff,
  inl, inr, Bool-cases, Option-cases,
}
use server_monitor.Errors.{Result, ok, err}
use server_monitor.Times.{TimeFormat}
use server_monitor.RedisServer.{Redis, RedisLaws}
use server_monitor.AlertService.Event.{
  AlertEvent, status_firing, status_resolved, validate_event, dedup_key, alert_name_or_fallback,
}
use server_monitor.AlertService.Scripts.{
  Args, Reply, stored, raised, store_failed, delete_failed, increment_failed, rollback_failed,
  apply_firing_event_script, apply_resolved_event_script, script_stored, apply_firing_event,
  apply_resolved_event,
}
use server_monitor.AlertService.Scripts.Effects.{IsStored, stored-IsStored}
use server_monitor.AlertService.Scripts.Resolved.{IsCleared, stored-IsCleared}
use server_monitor.AlertService.Scripts.Replies.{
  Replied, apply_firing-Replied, apply_resolved-Replied,
}
use server_monitor.AlertService.Store.{
  Store, process, settle, process_firing, process_valid, process_validated, script_args,
}
use server_monitor.AlertService.Store.View.{View, keys, keys-KeysDiffer, apply_event, Shows}

module _ (R : Redis) (L : RedisLaws R) (fmt : TimeFormat) (event : AlertEvent) (a : Args) where
  open R use {State}

  IsStored-Shows :
      (s t : State) (v : View)
      → a.fingerprint ≡ event.fingerprint
      → a.stats_field ≡ alert_name_or_fallback event
      → (event.status == status_firing) ≡ true
      → v.seen (dedup_key fmt event) ≡ false
      → Shows R s v
      → IsStored R L (keys fmt event) (keys-KeysDiffer fmt event) a s t
      → Shows R t (apply_event fmt event a.payload v)
  unfolding apply_event
  IsStored-Shows s t v p q f n h w = record {
    active = λ g. ground (arith, w.active g, h.active g);
    count = λ g. ground (arith, w.stats g, h.count g);
    seen = λ j x y.
        ground (arith, eq_iff (dedup_key fmt event) j, w.deduped, w.other_keys j, h.seen j x y);
  }

  IsCleared-Shows :
      (s t : State) (v : View) (payload : String)
      → a.fingerprint ≡ event.fingerprint
      → (event.status == status_firing) ≡ false
      → v.seen (dedup_key fmt event) ≡ false
      → Shows R s v
      → IsCleared R L (keys fmt event) (keys-KeysDiffer fmt event) a s t
      → Shows R t (apply_event fmt event payload v)
  unfolding apply_event
  IsCleared-Shows s t v payload p f n h w = record {
    active = λ g. ground (arith, w.active g, h.active g);
    count = λ g. ground (arith, w.stats g, h.count g);
    seen = λ j x y.
        ground (arith, eq_iff (dedup_key fmt event) j, w.deduped, w.other_keys j, h.seen j x y);
  }

apply_event_seen :
    (fmt : TimeFormat) (event : AlertEvent) (payload : String) (v : View)
    → v.seen (dedup_key fmt event) ≡ true
    → apply_event fmt event payload v ≡ v
unfolding apply_event
apply_event_seen fmt event payload v h = rw h

module _ (R : Redis) (L : RedisLaws R) (fmt : TimeFormat) (event : AlertEvent) (a : Args) where
  open R use {State}

  firing-Shows :
      (s t : State) (v : View) (reply : Reply) (b : Bool)
      → a.fingerprint ≡ event.fingerprint
      → a.stats_field ≡ alert_name_or_fallback event
      → (event.status == status_firing) ≡ true
      → Shows R s v
      → apply_firing_event_script R (keys fmt event) a s ≡ (reply, t)
      → script_stored reply ≡ ok b
      → Replied (R.exists (dedup_key fmt event) s) s (reply, t)
      → Shows R t (apply_event fmt event a.payload v)
  unfolding script_stored
  firing-Shows s t v (stored n) b p q f h e d (inl (one, fresh)) =
      IsStored-Shows R L fmt event a s t v p q f
        (sym (
            h.seen _ ((keys-KeysDiffer fmt event).active-dedup)
              ((keys-KeysDiffer fmt event).stats-dedup))
          ∙ fresh)
        h (stored-IsStored R L (keys fmt event) (keys-KeysDiffer fmt event) a s t (rw one at e))
  firing-Shows s t v (stored n) b p q f h e d (inr (zero, same, there)) =
      rw
        (apply_event_seen fmt event a.payload v (
          sym (
            h.seen _ ((keys-KeysDiffer fmt event).active-dedup)
              ((keys-KeysDiffer fmt event).stats-dedup))
          ∙ there))
        (subst (λ x. Shows R x v) (sym same) h)
  firing-Shows s t v (raised x) b p q f h e d w = cc
  firing-Shows s t v (store_failed x) b p q f h e d w = cc
  firing-Shows s t v (delete_failed x) b p q f h e d w = cc
  firing-Shows s t v (increment_failed x) b p q f h e d w = cc
  firing-Shows s t v (rollback_failed x y) b p q f h e d w = cc

  resolved-Shows :
      (s t : State) (v : View) (payload : String) (reply : Reply) (b : Bool)
      → a.fingerprint ≡ event.fingerprint
      → (event.status == status_firing) ≡ false
      → Shows R s v
      → apply_resolved_event_script R (keys fmt event) a s ≡ (reply, t)
      → script_stored reply ≡ ok b
      → Replied (R.exists (dedup_key fmt event) s) s (reply, t)
      → Shows R t (apply_event fmt event payload v)
  unfolding script_stored
  resolved-Shows s t v payload (stored n) b p f h e d (inl (one, fresh)) =
      IsCleared-Shows R L fmt event a s t v payload p f
        (sym (
            h.seen _ ((keys-KeysDiffer fmt event).active-dedup)
              ((keys-KeysDiffer fmt event).stats-dedup))
          ∙ fresh)
        h (stored-IsCleared R L (keys fmt event) (keys-KeysDiffer fmt event) a s t (rw one at e))
  resolved-Shows s t v payload (stored n) b p f h e d (inr (zero, same, there)) =
      rw
        (apply_event_seen fmt event payload v (
          sym (
            h.seen _ ((keys-KeysDiffer fmt event).active-dedup)
              ((keys-KeysDiffer fmt event).stats-dedup))
          ∙ there))
        (subst (λ x. Shows R x v) (sym same) h)
  resolved-Shows s t v payload (raised x) b p f h e d w = cc
  resolved-Shows s t v payload (store_failed x) b p f h e d w = cc
  resolved-Shows s t v payload (delete_failed x) b p f h e d w = cc
  resolved-Shows s t v payload (increment_failed x) b p f h e d w = cc
  resolved-Shows s t v payload (rollback_failed x y) b p f h e d w = cc

  enabled_firing-Shows :
      (enabled : Bool) (s : State) (v : View) (b : Bool)
      → a.fingerprint ≡ event.fingerprint
      → a.stats_field ≡ alert_name_or_fallback event
      → (event.status == status_firing) ≡ true
      → Shows R s v
      → (apply_firing_event R enabled (dedup_key fmt event) a s).0 ≡ ok b
      → Shows R
          (apply_firing_event R enabled (dedup_key fmt event) a s).1
          (apply_event fmt event a.payload v)
  unfolding apply_firing_event
  enabled_firing-Shows true s v b p q f h e =
      let run : Reply × State = apply_firing_event_script R (keys fmt event) a s in
      firing-Shows s run.1 v run.0 b p q f h refl e (apply_firing-Replied R (keys fmt event) a s)
  enabled_firing-Shows false s v b p q f h e = cc

  enabled_resolved-Shows :
      (enabled : Bool) (s : State) (v : View) (payload : String) (b : Bool)
      → a.fingerprint ≡ event.fingerprint
      → (event.status == status_firing) ≡ false
      → Shows R s v
      → (apply_resolved_event R enabled (dedup_key fmt event) a s).0 ≡ ok b
      → Shows R
          (apply_resolved_event R enabled (dedup_key fmt event) a s).1
          (apply_event fmt event payload v)
  unfolding apply_resolved_event
  enabled_resolved-Shows true s v payload b p f h e =
      let run : Reply × State = apply_resolved_event_script R (keys fmt event) a s in
      resolved-Shows s run.1 v payload run.0 b p f h refl e
        (apply_resolved-Replied R (keys fmt event) a s)
  enabled_resolved-Shows false s v payload b p f h e = cc

module _ (R : Redis) (L : RedisLaws R) (fmt : TimeFormat)
    (marshal : AlertEvent → Option String) where
  open R use {State}

  settle-none :
      (c : Store) (event : AlertEvent) (r : Result Bool) (t : State)
      → (settle R fmt marshal c event (r, t)).error ≡ none
      → (b : Bool) × (r ≡ ok b) × ((settle R fmt marshal c event (r, t)).redis ≡ t)
  unfolding settle
  settle-none c event (ok true) t h = (true, refl, refl)
  settle-none c event (ok false) t h = (false, refl, refl)
  settle-none c event (err e) t h = cc

  settle-Shows :
      (c : Store) (event : AlertEvent) (payload : String) (v : View) (p : Result Bool × State)
      → ((b : Bool) → p.0 ≡ ok b → Shows R p.1 (apply_event fmt event payload v))
      → (settle R fmt marshal c event p).error ≡ none
      → Shows R (settle R fmt marshal c event p).redis (apply_event fmt event payload v)
  settle-Shows c event payload v p keep e =
      let (b, d, same) = settle-none c event p.0 p.1 e in
      subst (λ x. Shows R x (apply_event fmt event payload v)) (sym same) (keep b d)

  process_valid-Shows :
      (c : Store) (event : AlertEvent) (payload : String) (s : State) (v : View)
      → marshal event ≡ some payload
      → validate_event event ≡ none
      → Shows R s v
      → (process_valid R fmt marshal c event s).error ≡ none
      → Shows R (process_valid R fmt marshal c event s).redis (apply_event fmt event payload v)
  unfolding process_valid process_firing validate_event script_args
  process_valid-Shows c event payload s v m valid h e =
      elim (Bool-cases (event.status == status_firing)) [
        | inl f ↦
            rw (f, process_valid, m, process_firing)
              (settle-Shows c event payload v _
                (λ b d.
                  enabled_firing-Shows R L fmt event (script_args R fmt marshal c event payload)
                    c.client_enabled s v b refl refl f h d)
                (rw (f, process_valid, m, process_firing) at e))
        | inr f ↦ elim (Bool-cases (event.status == status_resolved)) [
          | inl r ↦
              rw (f, process_valid, r)
                (settle-Shows c event payload v _
                  (λ b d.
                    enabled_resolved-Shows R L fmt event (script_args R fmt marshal c event "")
                      c.client_enabled s v payload b refl f h d)
                  (rw (f, process_valid, r) at e))
          | inr r ↦ absurd (ground arith)
        ]
      ]

  -- A call of `Process` that returns no error, from a state that shows a view, leaves a state that
  -- shows the view after the event: nothing new where the event was seen before, else the alert set
  -- and counted, or cleared.
  pub process-Shows :
      (c : Store) (event : AlertEvent) (payload : String) (s : State) (v : View)
      → marshal event ≡ some payload
      → Shows R s v
      → (process R fmt marshal (some c) event s).error ≡ none
      → Shows R (process R fmt marshal (some c) event s).redis (apply_event fmt event payload v)
  unfolding process process_validated
  process-Shows c event payload s v m h e = elim (Bool-cases c.has_client) [
    | inr n ↦ absurd (ground arith)
    | inl y ↦ elim (Option-cases (validate_event event)) [
      | inr (x, bad) ↦ absurd (ground arith)
      | inl valid ↦
          rw (y, process, valid, process_validated)
            (process_valid-Shows c event payload s v m valid h
              (rw (y, process, valid, process_validated) at e))
    ]
  ]
