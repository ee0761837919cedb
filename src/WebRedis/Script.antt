-- ===== src/WebRedis/Script.antt =====
-- What the script of AddAlertEventOnce does, and what Redis documents of its commands.
use server_monitor.Base.{
  ℕ, ◌/◌, String, ◌≡◌, ◌≢◌, refl, ◌∙◌, Bool, true, false, ◌&&◌, none, some, arith, ◌==◌, eq_iff,
  eqb, if◌then◌else◌, Bool-cases, inl, inr, ◌⊎◌,
}
use server_monitor.Base.Int.{ℤ, pos_part}
use server_monitor.Errors.{Result, ok, err}
use server_monitor.RedisServer.{Answer, done, refused}
use server_monitor.WebRedis.{
  Link, delivered, lost_before, lost_after, Server, add_script, after_x_add, after_set_px,
  stored_one, sent_script,
}

-- What Redis documents of the commands that the alert service uses.
pub record ServerLaws (R : Server) : Type 0 where
  pub field-h_set :
      (k f v j g : String) (s t : R.State)
      → R.h_set k f v s ≡ (none, t)
      → R.field j g t ≡ (if (k == j) && (f == g) then some v else R.field j g s)
  pub field-h_del :
      (k f j g : String) (s t : R.State)
      → R.h_del k f s ≡ (none, t)
      → R.field j g t ≡ (if (k == j) && (f == g) then none else R.field j g s)
  pub exists-h_set :
      (k f v j : String) (s : R.State) → k ≢ j → R.exists j (R.h_set k f v s).1 ≡ R.exists j s
  pub exists-h_del :
      (k f j : String) (s : R.State) → k ≢ j → R.exists j (R.h_del k f s).1 ≡ R.exists j s
  pub exists-x_add :
      (k v j : String) (n : ℤ) (s t : R.State)
      → R.x_add k n v s ≡ done t
      → R.exists j t ≡ (if k == j then true else R.exists j s)
  pub exists-set_px :
      (k v j : String) (n : ℕ) (s t : R.State)
      → R.set_px k v n s ≡ done t
      → R.exists j t ≡ (if k == j then true else R.exists j s)
  pub field-x_add :
      (k v j g : String) (n : ℤ) (s t : R.State)
      → R.x_add k n v s ≡ done t
      → k ≢ j
      → R.field j g t ≡ R.field j g s
  pub field-set_px :
      (k v j g : String) (n : ℕ) (s t : R.State)
      → R.set_px k v n s ≡ done t
      → k ≢ j
      → R.field j g t ≡ R.field j g s
  pub exists-publish :
      (channel text j : String) (s : R.State)
      → R.exists j (R.publish channel text s).1 ≡ R.exists j s
  pub field-publish :
      (channel text j g : String) (s : R.State)
      → R.field j g (R.publish channel text s).1 ≡ R.field j g s

module _ (R : Server) (L : ServerLaws R) where
  -- What a run of the script leaves, whatever it answers.
  pub record Left (k d : String) (s t : R.State) : Type 0 where
    pub keeps : (j : String) → R.exists j s ≡ true → R.exists j t ≡ true
    pub same : (j g : String) → k ≢ j → d ≢ j → R.field j g t ≡ R.field j g s

  pub untouched : (k d : String) (s : R.State) → Left k d s s
  untouched k d s = record { keeps = λ j h. h; same = λ j g a b. refl }

  x_add-Left : (k d v : String) (n : ℤ) (s t : R.State) → R.x_add k n v s ≡ done t → Left k d s t
  x_add-Left k d v n s t p = record {
    keeps = λ j h. ground (arith, L.exists-x_add k v j n s t p);
    same = λ j g a b. L.field-x_add k v j g n s t p a;
  }

  set_px-Left :
      (k d w : String) (m : ℕ) (s t u : R.State)
      → Left k d s t
      → R.set_px d w m t ≡ done u
      → Left k d s u
  set_px-Left k d w m s t u l p = record {
    keeps = λ j h. ground (arith, L.exists-set_px d w j m t u p, l.keeps j h);
    same = λ j g a b. L.field-set_px d w j g m t u p b ∙ l.same j g a b;
  }

  after_set_px-Left :
      (k d w : String) (m : ℕ) (s t : R.State) (r : Answer R.State)
      → Left k d s t
      → R.set_px d w m t ≡ r
      → Left k d s (after_set_px R r t).1
  unfolding after_set_px
  after_set_px-Left k d w m s t (done u) l p = set_px-Left k d w m s t u l p
  after_set_px-Left k d w m s t (refused e) l p = l

  after_x_add-Left :
      (k d v w : String) (n ttl : ℤ) (s : R.State) (r : Answer R.State)
      → R.x_add k n v s ≡ r
      → Left k d s (after_x_add R d w ttl r s).1
  unfolding after_x_add
  after_x_add-Left k d v w n ttl s (done t) p =
      after_set_px-Left k d w _ s t _ (x_add-Left k d v n s t p) refl
  after_x_add-Left k d v w n ttl s (refused e) p = untouched k d s

  pub add_script-Left :
      (k d v w : String) (n ttl : ℤ) (s : R.State) → Left k d s (add_script R k d n v w ttl s).1
  unfolding add_script
  add_script-Left k d v w n ttl s = elim (Bool-cases (R.exists d s)) [
    | inl old ↦ rw old (untouched k d s)
    | inr new ↦ rw new (after_x_add-Left k d v w n ttl s _ refl)
  ]

  -- A run that answers 1 began without the key, and has made the entry and the key.
  after_set_px-one :
      (d w : String) (m : ℕ) (t u : R.State) (r : Answer R.State)
      → after_set_px R r t ≡ (ok 1, u)
      → r ≡ done u
  unfolding after_set_px
  after_set_px-one d w m t u (done x) h = cc
  after_set_px-one d w m t u (refused e) h = cc

  after_x_add-one :
      (k d v w j : String) (n ttl : ℤ) (s u : R.State) (r : Answer R.State)
      → R.x_add k n v s ≡ r
      → after_x_add R d w ttl r s ≡ (ok 1, u)
      → k ≢ j
      → R.exists j u ≡ (if d == j then true else R.exists j s)
  unfolding after_x_add
  after_x_add-one k d v w j n ttl s u (refused e) p h a = cc
  after_x_add-one k d v w j n ttl s u (done t) p h a = ground (
    arith,
    eq_iff k j,
    L.exists-x_add k v j n s t p,
    L.exists-set_px d w j (pos_part ttl / 1000000) t u
        (after_set_px-one d w (pos_part ttl / 1000000) t u _ h),
  )

  after_set_px-ok :
      (t u : R.State) (n : ℕ) (r : Answer R.State) → after_set_px R r t ≡ (ok n, u) → n ≡ 1
  unfolding after_set_px
  after_set_px-ok t u n (done x) h = cc
  after_set_px-ok t u n (refused e) h = cc

  after_x_add-ok :
      (d w : String) (ttl : ℤ) (s u : R.State) (n : ℕ) (r : Answer R.State)
      → after_x_add R d w ttl r s ≡ (ok n, u)
      → n ≡ 1
  unfolding after_x_add
  after_x_add-ok d w ttl s u n (done t) h = after_set_px-ok t u n _ h
  after_x_add-ok d w ttl s u n (refused e) h = cc

  -- How the script answers: 1 from a state without the dedupe key, or 0 from one with it, which it
  -- leaves.
  pub add_script-cases :
      (k d v w : String) (n ttl : ℤ) (m : ℕ) (s t : R.State)
      → add_script R k d n v w ttl s ≡ (ok m, t)
      → ((m ≡ 1)
          × (R.exists d s ≡ false)
          × ((j : String) → k ≢ j → R.exists j t ≡ (if d == j then true else R.exists j s)))
        ⊎ ((m ≡ 0) × (R.exists d s ≡ true) × (t ≡ s))
  unfolding add_script
  add_script-cases k d v w n ttl m s t h = elim (Bool-cases (R.exists d s)) [
    | inl old ↦
        let q : Path (Result ℕ × R.State) (ok 0, s) (ok m, t) = rw (add_script, old) at h in
        inr (cc, old, cc)
    | inr new ↦
        let q : after_x_add R d w ttl (R.x_add k n v s) s ≡ (ok m, t) = rw (add_script, new) at h in
        let one : m ≡ 1 = after_x_add-ok d w ttl s t m _ q in
        inl (one, new, λ j a. after_x_add-one k d v w j n ttl s t _ refl (rw one at q) a)
  ]

  stored_one-inv :
      (p : Result ℕ × R.State) (b : Bool) (t : R.State)
      → stored_one R p ≡ (ok b, t)
      → (n : ℕ) × (p ≡ (ok n, t)) × (eqb n 1 ≡ b)
  unfolding stored_one
  stored_one-inv (ok n, u) b t h = (n, cc, cc)
  stored_one-inv (err e, u) b t h = cc

  pub sent_script-inv :
      (l : Link) (p : Result ℕ × R.State) (s t : R.State) (b : Bool)
      → sent_script R l p s ≡ (ok b, t)
      → (n : ℕ) × (p ≡ (ok n, t)) × (eqb n 1 ≡ b)
  unfolding sent_script
  sent_script-inv delivered (r, u) s t b h = stored_one-inv (r, u) b t h
  sent_script-inv (lost_before e) (r, u) s t b h = cc
  sent_script-inv (lost_after e) (r, u) s t b h = cc

  pub sent_script-Left :
      (k d : String) (l : Link) (p : Result ℕ × R.State) (s : R.State)
      → Left k d s p.1
      → Left k d s (sent_script R l p s).1
  unfolding sent_script stored_one
  sent_script-Left k d delivered (ok n, u) s h = h
  sent_script-Left k d delivered (err e, u) s h = h
  sent_script-Left k d (lost_before e) (r, u) s h = untouched k d s
  sent_script-Left k d (lost_after e) (r, u) s h = h
