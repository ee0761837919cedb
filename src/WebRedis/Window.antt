-- ===== src/WebRedis/Window.antt =====
-- The rate limit: how many calls AllowSlidingWindow lets through in a window.
use server_monitor.Base.{
  ℕ, ◌+◌, ◌-◌, ◌≤◌, String, ◌≡◌, refl, sym, ◌∙◌, Bool, true, false, not, List, [], ◌∷◌, arith,
  length, filter_by, ltb, leb, if◌then◌else◌, Bool-cases, inl, inr,
}
use server_monitor.Base.Int.{ℤ, pos, negsuc, leb_ℤ, pos_part}
use server_monitor.Errors.{ok}
use server_monitor.WebRedis.{
  Link, delivered, lost_before, lost_after, Server, window_transaction, window_answer,
  allow_sliding_window,
}

-- The scores of a sorted set, and what Redis documents of the four commands on them. The member that
-- is added is new, since it holds a number that no other call has.
pub record WindowLaws (R : Server) : Type 0 where
  pub scores-z_rem :
      (k : String) (bound : ℕ) (s : R.State)
      → R.scores k (R.z_rem_range_below k bound s)
        ≡ filter_by (λ x. not (ltb x bound)) (R.scores k s)
  pub scores-z_add :
      (k : String) (x : ℕ) (s : R.State) → R.scores k (R.z_add k x s) ≡ x ∷ R.scores k s
  pub z_card-length : (k : String) (s : R.State) → R.z_card k s ≡ length (R.scores k s)
  pub scores-expire :
      (k : String) (ttl : ℕ) (s : R.State) → R.scores k (R.expire k ttl s) ≡ R.scores k s

-- How many of the times are not before a moment.
abbrev pub count_from : ℕ → List ℕ → ℕ
count_from b [] = 0
count_from b (t ∷ ts) = let rest = count_from b ts in if leb b t then rest + 1 else rest

count_from-filter :
    (bound b : ℕ) (ts : List ℕ)
    → bound ≤ b
    → count_from b ts ≤ count_from b (filter_by (λ x. not (ltb x bound)) ts)
unfolding filter_by
count_from-filter bound b [] h = omega arith
count_from-filter bound b (t ∷ ts) h = ground (arith, count_from-filter bound b ts h)

count_from-length : (b : ℕ) (ts : List ℕ) → count_from b ts ≤ length ts
count_from-length b [] = omega arith
count_from-length b (t ∷ ts) = ground (arith, count_from-length b ts)

module _ (R : Server) (L : WindowLaws R) (float64 : ℕ → ℕ) where
  -- The scores account for the calls of a key: from each moment after the start of the last window,
  -- there are at least as many scores as there were calls.
  abbrev pub Accounts : String → ℕ → List ℕ → R.State → Type 0
  Accounts key start calls s =
      (b : ℕ) → start ≤ b → count_from b calls ≤ count_from (float64 b) (R.scores key s)

  transaction-Accounts :
      (key : String) (window now start : ℕ) (calls : List ℕ) (s : R.State)
      → ((a b : ℕ) → a ≤ b → float64 a ≤ float64 b)
      → start ≤ now - window
      → Accounts key start calls s
      → Accounts key (now - window) (now ∷ calls) (window_transaction R float64 key window now s).1
  unfolding window_transaction
  transaction-Accounts key window now start calls s mono later h b p =
      rw (L.scores-expire, L.scores-z_add, L.scores-z_rem)
        (ground (
          arith,
          h b (omega (arith, later, p)),
          count_from-filter (float64 (now - window)) (float64 b) (R.scores key s) (mono _ _ p),
          now_counted,
        ))
    where
      now_counted : leb b now ≡ true → float64 b ≤ float64 now
      now_counted e = mono b now (ground arith)

  transaction-used :
      (key : String) (window now : ℕ) (s : R.State)
      → (window_transaction R float64 key window now s).0
        ≡ length (R.scores key (window_transaction R float64 key window now s).1)
  unfolding window_transaction
  transaction-used key window now s = rw (L.z_card-length, L.scores-expire) refl

  answered :
      (link : Link) (limit remaining : ℤ) (allowed : Bool) (p : ℕ × R.State) (s t : R.State)
      → window_answer R link limit p s ≡ (ok (allowed, remaining), t)
      → (allowed ≡ leb_ℤ (pos p.0) limit) × (t ≡ p.1)
  unfolding window_answer
  answered delivered limit remaining allowed (used, u) s t h = (cc, cc)
  answered (lost_before e) limit remaining allowed (used, u) s t h = cc
  answered (lost_after e) limit remaining allowed (used, u) s t h = cc

  allow-answered :
      (enabled : Bool) (key : String) (limit window remaining : ℤ) (now : ℕ) (allowed : Bool)
      (s t : R.State)
      → allow_sliding_window R float64 enabled key limit window now s ≡ (ok (allowed, remaining), t)
      → (allowed ≡ leb_ℤ (pos (window_transaction R float64 key (pos_part window) now s).0) limit)
        × (t ≡ (window_transaction R float64 key (pos_part window) now s).1)
  unfolding allow_sliding_window
  allow-answered false key limit window remaining now allowed s t h = cc
  allow-answered true key limit window remaining now allowed s t h =
      elim (Bool-cases (leb_ℤ limit (pos 0))) [
        | inl bad ↦ absurd (ground arith)
        | inr limit_ok ↦ elim (Bool-cases (leb_ℤ window (pos 0))) [
          | inl bad ↦ absurd (ground arith)
          | inr window_ok ↦
              answered (R.link s) limit remaining allowed _ s t
                (rw (allow_sliding_window, limit_ok, window_ok) at h)
        ]
      ]

  within_limit : (n m : ℕ) (limit : ℤ) → n ≤ m → leb_ℤ (pos m) limit ≡ true → n ≤ pos_part limit
  within_limit n m (pos l) h e = ground arith
  within_limit n m (negsuc l) h e = absurd (ground arith)

  -- The calls of a key that were answered so far are accounted for by the scores, and time has not
  -- gone back. Then a call that is answered is accounted for as well, and if it is allowed, the calls
  -- answered within the window that ends now, this one included, are at most as many as the limit.
  -- Rounding times to floating-point scores, which keeps their order, loses none.
  pub allowed_within_limit :
      (enabled : Bool) (key : String) (limit window remaining : ℤ) (now start : ℕ) (calls : List ℕ)
      (allowed : Bool) (s t : R.State)
      → ((a b : ℕ) → a ≤ b → float64 a ≤ float64 b)
      → start ≤ now - pos_part window
      → Accounts key start calls s
      → allow_sliding_window R float64 enabled key limit window now s ≡ (ok (allowed, remaining), t)
      → Accounts key (now - pos_part window) (now ∷ calls) t
        × (allowed ≡ true → count_from (now - pos_part window) (now ∷ calls) ≤ pos_part limit)
  allowed_within_limit enabled key limit window remaining now start calls allowed s t mono later h
        e =
      let (verdict, state) = allow-answered enabled key limit window remaining now allowed s t e in
      let accounts = transaction-Accounts key (pos_part window) now start calls s mono later h in
      (
        rw state accounts,
        λ yes_allowed.
            within_limit _ _ limit
              (counted _ _ _ (accounts (now - pos_part window) (omega arith))
                (count_from-length (float64 (now - pos_part window))
                  (R.scores key (window_transaction R float64 key (pos_part window) now s).1))
                (transaction-used key (pos_part window) now s))
              (sym verdict ∙ yes_allowed),
      )
    where
      counted : (a b c : ℕ) {d : ℕ} → a ≤ b → b ≤ c → d ≡ c → a ≤ d
      counted a b c p q r = omega (arith, p, q, r)

  window_answer-delivered :
      (link : Link) (limit : ℤ) (p : ℕ × R.State) (s : R.State)
      → link ≡ delivered
      → (allowed : Bool) × (remaining : ℤ) × window_answer R link limit p s
          ≡ (ok (allowed, remaining), p.1)
  unfolding window_answer
  window_answer-delivered delivered limit (used, t) s h = (_, _, refl)
  window_answer-delivered (lost_before e) limit p s h = absurd cc
  window_answer-delivered (lost_after e) limit p s h = absurd cc

  -- A call with a limit and a window that are positive answers, if it is delivered.
  pub allow_sliding_window-delivered :
      (key : String) (limit window : ℤ) (now : ℕ) (s : R.State)
      → leb_ℤ limit (pos 0) ≡ false
      → leb_ℤ window (pos 0) ≡ false
      → R.link s ≡ delivered
      → (allowed : Bool) × (remaining : ℤ) × (t : R.State) × (allow_sliding_window R float64 true
            key limit window now s
          ≡ (ok (allowed, remaining), t))
  unfolding allow_sliding_window
  allow_sliding_window-delivered key limit window now s limit_ok window_ok h =
      let (allowed, remaining, answer) =
        window_answer-delivered (R.link s) limit
          (window_transaction R float64 key (pos_part window) now s) s h in
      (
        allowed,
        remaining,
        (window_transaction R float64 key (pos_part window) now s).1,
        rw (limit_ok, window_ok) answer,
      )
