-- ===== src/AlertService/Scripts/Effects.antt =====
-- What a run of the firing script that stores its event leaves behind.
use server_monitor.Base.{
  ◌+◌, String, ◌≡◌, ◌≢◌, refl, true, false, Option, none, some, arith, ◌==◌, eq_iff, if◌then◌else◌,
  Bool-cases, inl, inr,
}
use server_monitor.RedisServer.{Redis, RedisLaws, Answer, done, refused}
use server_monitor.AlertService.Scripts.{
  Keys, Args, stored, apply_firing_event_script, after_hget, after_hset, after_increment, rollback,
  restored, finish,
}
use server_monitor.AlertService.Scripts.Firing.{KeysDiffer}

module _ (R : Redis) (k : Keys) (a : Args) where
  open R use {State}

  -- The commands of a run that stores its event, in their order.
  pub record Ran (s u : State) : Type 0 where
    pub after_store : State
    pub after_count : State
    pub fresh : R.exists k.dedup_key s ≡ false
    pub hset : R.hset k.active_key a.fingerprint a.payload s ≡ done after_store
    pub hincrby : R.hincrby k.stats_key a.stats_field 1 after_store ≡ done after_count
    pub set_px : R.set_px k.dedup_key "1" a.ttl after_count ≡ done u

  pub finish-Ran : (u w : State) (r : Answer State) → finish R k a r w ≡ (stored 1, u) → r ≡ done u
  unfolding finish
  finish-Ran u w (done x) h = cc
  finish-Ran u w (refused x) h = cc

  restored_ne_stored :
      (e : String) (s u : State) (r : Answer State) → restored R k a e r s ≢ (stored 1, u)
  unfolding restored
  restored_ne_stored e s u (done x) h = cc
  restored_ne_stored e s u (refused x) h = cc

  rollback_ne_stored :
      (e : String) (previous : Option String) (s u : State)
      → rollback R k a e previous s ≢ (stored 1, u)
  unfolding rollback
  rollback_ne_stored e (some v) s u h = restored_ne_stored e s u _ h
  rollback_ne_stored e none s u h = restored_ne_stored e s u _ h

  after_increment-Ran :
      (previous : Option String) (s t u : State) (r : Answer State)
      → R.exists k.dedup_key s ≡ false
      → R.hset k.active_key a.fingerprint a.payload s ≡ done t
      → R.hincrby k.stats_key a.stats_field 1 t ≡ r
      → after_increment R k a previous r t ≡ (stored 1, u)
      → Ran s u
  unfolding after_increment
  after_increment-Ran previous s t u (done w) f p q h = record {
    after_store = t;
    after_count = w;
    fresh = f;
    hset = p;
    hincrby = q;
    set_px = finish-Ran u w (R.set_px k.dedup_key "1" a.ttl w) h;
  }
  after_increment-Ran previous s t u (refused e) f p q h =
      absurd (rollback_ne_stored e previous t u h)

  after_hset-Ran :
      (previous : Option String) (s u : State) (r : Answer State)
      → R.exists k.dedup_key s ≡ false
      → R.hset k.active_key a.fingerprint a.payload s ≡ r
      → after_hset R k a previous r s ≡ (stored 1, u)
      → Ran s u
  unfolding after_hset
  after_hset-Ran previous s u (done t) f p h =
      after_increment-Ran previous s t u (R.hincrby k.stats_key a.stats_field 1 t) f p refl h
  after_hset-Ran previous s u (refused e) f p h = cc

  after_hget-Ran :
      (s u : State) (r : Answer (Option String))
      → R.exists k.dedup_key s ≡ false
      → after_hget R k a r s ≡ (stored 1, u)
      → Ran s u
  unfolding after_hget
  after_hget-Ran s u (done previous) f h =
      after_hset-Ran previous s u (R.hset k.active_key a.fingerprint a.payload s) f refl h
  after_hget-Ran s u (refused e) f h = cc

  pub stored-Ran : (s u : State) → apply_firing_event_script R k a s ≡ (stored 1, u) → Ran s u
  unfolding apply_firing_event_script
  stored-Ran s u h = elim (Bool-cases (R.exists k.dedup_key s)) [
    | inl old ↦ absurd (ground arith)
    | inr fresh ↦ after_hget-Ran s u (R.hget k.active_key a.fingerprint s) fresh (rw fresh at h)
  ]

module _ (R : Redis) (L : RedisLaws R) (k : Keys) (d : KeysDiffer k) (a : Args) where
  open R use {State}

  -- One event stored: its payload is the active alert of its fingerprint, its counter is one up,
  -- every other active alert and counter is as before, and the dedup key is there.
  pub record IsStored (s u : State) : Type 0 where
    pub active :
        (f : String)
        → R.hget k.active_key f u
          ≡ (if a.fingerprint == f then done (some a.payload) else R.hget k.active_key f s)
    pub stats :
        (f : String)
        → R.hcount k.stats_key f u
          ≡ (if a.stats_field == f then R.hcount k.stats_key f s + 1 else R.hcount k.stats_key f s)
    pub deduped : R.exists k.dedup_key u ≡ true
    pub other_keys :
        (j : String)
        → k.dedup_key ≢ j
        → k.active_key ≢ j
        → k.stats_key ≢ j
        → R.exists j u ≡ R.exists j s

  -- A run of the firing script that returns 1 has stored the event, and done nothing else to the
  -- active alerts and the counters.
  pub stored-IsStored :
      (s u : State) → apply_firing_event_script R k a s ≡ (stored 1, u) → IsStored s u
  stored-IsStored s u h =
      let ran : Ran R k a s u = stored-Ran R k a s u h in
      record {
        active = λ f. ground (
          arith,
          L.hget-hset k.active_key a.fingerprint a.payload k.active_key f s ran.after_store
              ran.hset,
          L.hget-hincrby k.stats_key a.stats_field k.active_key f 1 ran.after_store ran.after_count
              ran.hincrby (λ e. d.active-stats (ground (arith, eq_iff k.stats_key k.active_key))),
          L.hget-set_px k.dedup_key "1" k.active_key f a.ttl ran.after_count u ran.set_px
              (λ e. d.active-dedup (cc)),
          eq_iff k.active_key k.active_key,
        );
        stats = λ f. ground (
          arith,
          L.hcount-hset k.active_key a.fingerprint a.payload k.stats_key f s ran.after_store
              ran.hset d.active-stats,
          L.hcount-hincrby k.stats_key a.stats_field f 1 ran.after_store ran.after_count
              ran.hincrby,
          L.hcount-set_px k.dedup_key "1" k.stats_key f a.ttl ran.after_count u ran.set_px
              (λ e. d.stats-dedup (cc)),
        );
        deduped = L.exists-set_px k.dedup_key "1" a.ttl ran.after_count u ran.set_px;
        other_keys = λ j p q r. cc (
          L.exists-hset k.active_key a.fingerprint a.payload j s ran.after_store ran.hset q,
          L.exists-hincrby k.stats_key a.stats_field j 1 ran.after_store ran.after_count ran.hincrby
              r,
          L.exists-set_px_ne k.dedup_key "1" j a.ttl ran.after_count u ran.set_px p,
        );
      }

  -- Redelivery: as long as the dedup key has not expired, a second run, even with another payload,
  -- returns 0 and leaves the state alone.
  pub stored_then_ignored :
      (s u : State) (b : Args)
      → apply_firing_event_script R k a s ≡ (stored 1, u)
      → apply_firing_event_script R k b u ≡ (stored 0, u)
  stored_then_ignored s u b h =
      let there : R.exists k.dedup_key u ≡ true = (stored-IsStored s u h).deduped in
      unfold apply_firing_event_script in rw there
