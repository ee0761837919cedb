-- ===== src/AlertService/Scripts/Resolved.antt =====
-- What a run of the resolving script does to the active alerts.
use server_monitor.Base.{
  String, ◌≡◌, ◌≢◌, refl, true, none, arith, ◌==◌, eq_iff, if◌then◌else◌, Bool-cases, inl, inr,
}
use server_monitor.RedisServer.{Redis, RedisLaws, Answer, done, refused}
use server_monitor.AlertService.Scripts.{
  Keys, Args, stored, apply_resolved_event_script, after_hdel,
}
use server_monitor.AlertService.Scripts.Firing.{KeysDiffer}
use server_monitor.AlertService.Scripts.Effects.{finish-Ran}

module _ (R : Redis) (L : RedisLaws R) (k : Keys) (d : KeysDiffer k) (a : Args) where
  open R use {State}

  -- The alert of the fingerprint is gone, all else that is counted or active is as before.
  pub record IsCleared (s u : State) : Type 0 where
    pub active :
        (f : String)
        → R.hget k.active_key f u
          ≡ (if a.fingerprint == f then done none else R.hget k.active_key f s)
    pub stats : (f : String) → R.hcount k.stats_key f u ≡ R.hcount k.stats_key f s
    pub deduped : R.exists k.dedup_key u ≡ true
    pub other_keys : (j : String) → k.dedup_key ≢ j → k.active_key ≢ j → R.exists j u ≡ R.exists j s

  after_hdel-IsCleared :
      (s u : State) (r : Answer State)
      → R.hdel k.active_key a.fingerprint s ≡ r
      → after_hdel R k a r s ≡ (stored 1, u)
      → IsCleared s u
  unfolding after_hdel
  after_hdel-IsCleared s u (done t) p h =
      let q : R.set_px k.dedup_key "1" a.ttl t ≡ done u = finish-Ran R k a u t _ h in
      record {
        active = λ f. ground (
          arith,
          L.hget-hdel k.active_key a.fingerprint k.active_key f s t p,
          L.hget-set_px k.dedup_key "1" k.active_key f a.ttl t u q (λ e. d.active-dedup (cc)),
          eq_iff k.active_key k.active_key,
        );
        stats = λ f. cc (
          L.hcount-hdel k.active_key a.fingerprint k.stats_key f s t p d.active-stats,
          L.hcount-set_px k.dedup_key "1" k.stats_key f a.ttl t u q (λ e. d.stats-dedup (cc)),
        );
        deduped = L.exists-set_px k.dedup_key "1" a.ttl t u q;
        other_keys = λ j x y. cc (
          L.exists-hdel k.active_key a.fingerprint j s t p y,
          L.exists-set_px_ne k.dedup_key "1" j a.ttl t u q x,
        );
      }
  after_hdel-IsCleared s u (refused e) p h = cc

  -- A run of the resolving script that returns 1 has removed the active alert of its fingerprint
  -- and no other, and has left every firing counter as it was.
  pub stored-IsCleared :
      (s u : State) → apply_resolved_event_script R k a s ≡ (stored 1, u) → IsCleared s u
  unfolding apply_resolved_event_script
  stored-IsCleared s u h = elim (Bool-cases (R.exists k.dedup_key s)) [
    | inl old ↦ absurd (ground arith)
    | inr fresh ↦
        after_hdel-IsCleared s u (R.hdel k.active_key a.fingerprint s) refl (rw fresh at h)
  ]
