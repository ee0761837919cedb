-- ===== src/AlertService/Scripts/Replies.antt =====
-- What the two scripts can reply, and the runs that change nothing.
use server_monitor.Base.{
  String, ◌≡◌, refl, Bool, true, false, Option, none, some, ◌⊎◌, inl, inr, Bool-cases,
}
use server_monitor.RedisServer.{Redis, Answer, done, refused}
use server_monitor.AlertService.Scripts.{
  Keys, Args, Reply, stored, raised, store_failed, delete_failed, increment_failed, rollback_failed,
  apply_firing_event_script, apply_resolved_event_script, after_hget, after_hset, after_increment,
  after_hdel, rollback, restored, finish,
}

-- An integer reply is 1, unless the dedup key was there: then it is 0 and the state is untouched.
abbrev pub Replied : {S : Type 0} → Bool → S → Reply × S → Type 0
Replied there s (stored n, t) = ((n ≡ 1) × (there ≡ false)) ⊎ ((n ≡ 0) × (t ≡ s) × (there ≡ true))
Replied there s (raised e, t) = there ≡ false
Replied there s (store_failed e, t) = there ≡ false
Replied there s (delete_failed e, t) = there ≡ false
Replied there s (increment_failed e, t) = there ≡ false
Replied there s (rollback_failed e d, t) = there ≡ false

module _ (R : Redis) (k : Keys) (a : Args) where
  open R use {State}

  -- Each helper of a run that has found no dedup key.
  finish-Replied : (r : Answer State) (s t : State) → Replied false s (finish R k a r t)
  unfolding finish
  finish-Replied (done u) s t = inl (refl, refl)
  finish-Replied (refused e) s t = refl

  restored-Replied :
      (e : String) (r : Answer State) (s t : State) → Replied false s (restored R k a e r t)
  unfolding restored
  restored-Replied e (done u) s t = refl
  restored-Replied e (refused d) s t = refl

  rollback-Replied :
      (e : String) (o : Option String) (s t : State) → Replied false s (rollback R k a e o t)
  unfolding rollback
  rollback-Replied e (some v) s t = restored-Replied e _ s t
  rollback-Replied e none s t = restored-Replied e _ s t

  after_increment-Replied :
      (o : Option String) (r : Answer State) (s t : State)
      → Replied false s (after_increment R k a o r t)
  unfolding after_increment
  after_increment-Replied o (done u) s t = finish-Replied _ s u
  after_increment-Replied o (refused e) s t = rollback-Replied e o s t

  after_hset-Replied :
      (o : Option String) (r : Answer State) (s t : State)
      → Replied false s (after_hset R k a o r t)
  unfolding after_hset
  after_hset-Replied o (done u) s t = after_increment-Replied o _ s u
  after_hset-Replied o (refused e) s t = refl

  after_hget-Replied :
      (r : Answer (Option String)) (s t : State) → Replied false s (after_hget R k a r t)
  unfolding after_hget
  after_hget-Replied (done o) s t = after_hset-Replied o _ s t
  after_hget-Replied (refused e) s t = refl

  after_hdel-Replied : (r : Answer State) (s t : State) → Replied false s (after_hdel R k a r t)
  unfolding after_hdel
  after_hdel-Replied (done u) s t = finish-Replied _ s u
  after_hdel-Replied (refused e) s t = refl

  pub apply_firing-Replied :
      (s : State) → Replied (R.exists k.dedup_key s) s (apply_firing_event_script R k a s)
  unfolding apply_firing_event_script
  apply_firing-Replied s = elim (Bool-cases (R.exists k.dedup_key s)) [
    | inl old ↦ rw old (inr (refl, refl, refl))
    | inr fresh ↦ rw fresh (after_hget-Replied _ s s)
  ]

  pub apply_resolved-Replied :
      (s : State) → Replied (R.exists k.dedup_key s) s (apply_resolved_event_script R k a s)
  unfolding apply_resolved_event_script
  apply_resolved-Replied s = elim (Bool-cases (R.exists k.dedup_key s)) [
    | inl old ↦ rw old (inr (refl, refl, refl))
    | inr fresh ↦ rw fresh (after_hdel-Replied _ s s)
  ]
