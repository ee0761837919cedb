-- ===== src/AlertService/Scripts/Firing.antt =====
-- What the firing script does to the active alerts, the counters and the dedup key.
use server_monitor.Base.{
  String, ◌≡◌, ◌≢◌, refl, Option, none, some, arith, eq_iff, Bool-cases, inl, inr,
}
use server_monitor.RedisServer.{Redis, RedisLaws, Answer, done, refused}
use server_monitor.AlertService.Scripts.{
  Keys, Args, increment_failed, apply_firing_event_script, after_hget, after_hset, after_increment,
  rollback, restored, finish,
}

-- The three keys of a run are different keys.
pub record KeysDiffer (k : Keys) : Type 0 where
  pub active-dedup : k.active_key ≢ k.dedup_key
  pub stats-dedup : k.stats_key ≢ k.dedup_key
  pub active-stats : k.active_key ≢ k.stats_key

module _ (R : Redis) (L : RedisLaws R) (k : Keys) (d : KeysDiffer k) (a : Args) where
  open R use {State}

  -- A failed run shows the active alerts, the counters and the dedup key of its start.
  pub record IsRolledBack (s t : State) : Type 0 where
    pub active : (f : String) → R.hget k.active_key f t ≡ R.hget k.active_key f s
    pub stats : (f : String) → R.hcount k.stats_key f t ≡ R.hcount k.stats_key f s
    pub not_deduped : R.exists k.dedup_key t ≡ R.exists k.dedup_key s

  restored-IsRolledBack :
      (v : String) (s t u : State) (e e' : String) (r : Answer State)
      → R.hget k.active_key a.fingerprint s ≡ done (some v)
      → R.hset k.active_key a.fingerprint a.payload s ≡ done t
      → R.hset k.active_key a.fingerprint v t ≡ r
      → restored R k a e r t ≡ (increment_failed e', u)
      → IsRolledBack s u
  unfolding restored
  restored-IsRolledBack v s t u e e' (done w) g p q h =
      let same : w ≡ u = cc in
      record {
        active = λ f. ground (
          arith,
          eq_iff a.fingerprint f,
          L.hget-hset k.active_key a.fingerprint a.payload k.active_key f s t p,
          L.hget-hset k.active_key a.fingerprint v k.active_key f t w q,
          eq_iff k.active_key k.active_key,
        );
        stats = λ f. cc (
          L.hcount-hset k.active_key a.fingerprint a.payload k.stats_key f s t p d.active-stats,
          L.hcount-hset k.active_key a.fingerprint v k.stats_key f t w q d.active-stats,
        );
        not_deduped = cc (
          L.exists-hset k.active_key a.fingerprint a.payload k.dedup_key s t p d.active-dedup,
          L.exists-hset k.active_key a.fingerprint v k.dedup_key t w q d.active-dedup,
        );
      }
  restored-IsRolledBack v s t u e e' (refused x) g p q h = cc

  deleted-IsRolledBack :
      (s t u : State) (e e' : String) (r : Answer State)
      → R.hget k.active_key a.fingerprint s ≡ done none
      → R.hset k.active_key a.fingerprint a.payload s ≡ done t
      → R.hdel k.active_key a.fingerprint t ≡ r
      → restored R k a e r t ≡ (increment_failed e', u)
      → IsRolledBack s u
  unfolding restored
  deleted-IsRolledBack s t u e e' (done w) g p q h =
      let same : w ≡ u = cc in
      record {
        active = λ f. ground (
          arith,
          eq_iff a.fingerprint f,
          L.hget-hset k.active_key a.fingerprint a.payload k.active_key f s t p,
          L.hget-hdel k.active_key a.fingerprint k.active_key f t w q,
          eq_iff k.active_key k.active_key,
        );
        stats = λ f. cc (
          L.hcount-hset k.active_key a.fingerprint a.payload k.stats_key f s t p d.active-stats,
          L.hcount-hdel k.active_key a.fingerprint k.stats_key f t w q d.active-stats,
        );
        not_deduped = cc (
          L.exists-hset k.active_key a.fingerprint a.payload k.dedup_key s t p d.active-dedup,
          L.exists-hdel k.active_key a.fingerprint k.dedup_key t w q d.active-dedup,
        );
      }
  deleted-IsRolledBack s t u e e' (refused x) g p q h = cc

  rollback-IsRolledBack :
      (previous : Option String) (s t u : State) (e e' : String)
      → R.hget k.active_key a.fingerprint s ≡ done previous
      → R.hset k.active_key a.fingerprint a.payload s ≡ done t
      → rollback R k a e previous t ≡ (increment_failed e', u)
      → IsRolledBack s u
  unfolding rollback
  rollback-IsRolledBack (some v) s t u e e' g p h =
      restored-IsRolledBack v s t u e e' (R.hset k.active_key a.fingerprint v t) g p refl h
  rollback-IsRolledBack none s t u e e' g p h =
      deleted-IsRolledBack s t u e e' (R.hdel k.active_key a.fingerprint t) g p refl h

  after_increment-IsRolledBack :
      (previous : Option String) (s t u : State) (e' : String) (r : Answer State)
      → R.hget k.active_key a.fingerprint s ≡ done previous
      → R.hset k.active_key a.fingerprint a.payload s ≡ done t
      → after_increment R k a previous r t ≡ (increment_failed e', u)
      → IsRolledBack s u
  unfolding after_increment
  after_increment-IsRolledBack previous s t u e' (done w) g p h =
      absurd (finish_never (R.set_px k.dedup_key "1" a.ttl w) h)
    where
      finish_never : (r : Answer State) → finish R k a r w ≡ (increment_failed e', u) → ⊥
      finish_never (done x) e = cc
      finish_never (refused x) e = cc
  after_increment-IsRolledBack previous s t u e' (refused e) g p h =
      rollback-IsRolledBack previous s t u e e' g p h

  after_hset-IsRolledBack :
      (previous : Option String) (s u : State) (e' : String) (r : Answer State)
      → R.hget k.active_key a.fingerprint s ≡ done previous
      → R.hset k.active_key a.fingerprint a.payload s ≡ r
      → after_hset R k a previous r s ≡ (increment_failed e', u)
      → IsRolledBack s u
  unfolding after_hset
  after_hset-IsRolledBack previous s u e' (done t) g p h =
      after_increment-IsRolledBack previous s t u e' (R.hincrby k.stats_key a.stats_field 1 t) g p h
  after_hset-IsRolledBack previous s u e' (refused x) g p h = cc

  after_hget-IsRolledBack :
      (s u : State) (e' : String) (r : Answer (Option String))
      → R.hget k.active_key a.fingerprint s ≡ r
      → after_hget R k a r s ≡ (increment_failed e', u)
      → IsRolledBack s u
  unfolding after_hget
  after_hget-IsRolledBack s u e' (done previous) g h =
      after_hset-IsRolledBack previous s u e' (R.hset k.active_key a.fingerprint a.payload s) g refl
        h
  after_hget-IsRolledBack s u e' (refused x) g h = cc

  -- Where the counter cannot be incremented and the script reports just that, it has put back the
  -- active alert: every active alert, every counter and the dedup key are as before the run.
  pub increment_failed-IsRolledBack :
      (s u : State) (e : String)
      → apply_firing_event_script R k a s ≡ (increment_failed e, u)
      → IsRolledBack s u
  unfolding apply_firing_event_script
  increment_failed-IsRolledBack s u e h = elim (Bool-cases (R.exists k.dedup_key s)) [
    | inl yes_it ↦ absurd (ground arith)
    | inr fresh ↦
        after_hget-IsRolledBack s u e (R.hget k.active_key a.fingerprint s) refl (rw fresh at h)
  ]
