-- ===== src/PubSub/Reconnect.antt =====
-- The waits of the subscriber between its attempts, and when it gives up.
use server_monitor.Base.{
  ℕ, ◌+◌, ◌*◌, ◌/◌, ◌≤◌, ◌<◌, String, ◌≡◌, refl, ap, Bool, true, false, ◌||◌, some, List, [], ◌∷◌,
  suc, length, ◌==◌, All, arith, Bool-cases, inl, inr,
}
use server_monitor.Errors.{GoError}
use server_monitor.PubSub.{
  reconnect_initial_delay, taken, not_taken, Picked, context_done, channel_closed, received,
  Attempt, subscribe_failed, subscribed, Ended, ended_well, still_waiting, broken, pick_loop,
  subscribe_once, with_jitter, next_delay, Turn, Progress, after_attempt, run_loop, run,
}

-- rand.Int64N, in each turn.
abbrev pub IsRandom : Turn → Type 0
IsRandom turn = (n : ℕ) → 0 < n → turn.int64_n n < n

-- Between 0.8 and 36 seconds.
abbrev pub InBounds : ℕ → Type 0
InBounds wait = (800000000 ≤ wait) × (wait ≤ 36000000000)

-- Between the initial and the longest delay.
abbrev IsDelay : ℕ → Type 0
IsDelay delay = (1000000000 ≤ delay) × (delay ≤ 30000000000)

next_delay-IsDelay : (delay : ℕ) → IsDelay delay → IsDelay (next_delay delay)
unfolding next_delay
next_delay-IsDelay delay (low, high) = ground (arith, low, high)

with_jitter-InBounds :
    (int64_n : ℕ → ℕ) (delay : ℕ)
    → ((n : ℕ) → 0 < n → int64_n n < n)
    → IsDelay delay
    → InBounds (with_jitter int64_n delay)
unfolding with_jitter
with_jitter-InBounds int64_n delay random (low, high) =
    ground (arith, random (delay / 5 * 2 + 1) (omega arith), low, high)

-- What cancels the context, as the loop sees it.
abbrev pub pick_cancelled : Picked → Bool
pick_cancelled context_done = true
pick_cancelled channel_closed = false
pick_cancelled (received text taken) = false
pick_cancelled (received text (not_taken e cancelled)) = cancelled

abbrev pub any_cancelled : List Picked → Bool
any_cancelled [] = false
any_cancelled (pick ∷ picks) = let rest = any_cancelled picks in pick_cancelled pick || rest

abbrev pub attempt_cancelled : Attempt → Bool
attempt_cancelled (subscribe_failed e) = false
attempt_cancelled (subscribed picks) = any_cancelled picks

abbrev pub turns_cancelled : List Turn → Bool
turns_cancelled [] = false
turns_cancelled (turn ∷ turns) =
    let rest = turns_cancelled turns in
    attempt_cancelled turn.attempt || (turn.done_in_wait || rest)

pick_loop-cancelled :
    (picks : List Picked) → (pick_loop picks).0 ≡ ended_well → any_cancelled picks ≡ true
unfolding pick_loop
pick_loop-cancelled [] h = absurd cc
pick_loop-cancelled (context_done ∷ picks) h = refl
pick_loop-cancelled (channel_closed ∷ picks) h = absurd cc
pick_loop-cancelled (received text taken ∷ picks) h = pick_loop-cancelled picks h
pick_loop-cancelled (received text (not_taken e true) ∷ picks) h = refl
pick_loop-cancelled (received text (not_taken e false) ∷ picks) h = absurd cc

subscribe_once-cancelled :
    (attempt : Attempt) → (subscribe_once attempt).0 ≡ ended_well → attempt_cancelled attempt ≡ true
unfolding subscribe_once
subscribe_once-cancelled (subscribe_failed e) h = absurd cc
subscribe_once-cancelled (subscribed picks) h = pick_loop-cancelled picks h

-- A turn that breaks and in whose wait nothing is cancelled.
abbrev pub Breaks : Turn → Type 0
Breaks turn =
    ((e : GoError) × ((subscribe_once turn.attempt).0 ≡ broken e)) × (turn.done_in_wait ≡ false)

-- The waits are in bounds, the loop has returned only if it was cancelled, and after turns that all
-- break it has waited once for each.
abbrev pub Persists : List Turn → Progress → Type 0
Persists turns p =
    All InBounds p.waits
    × (p.returned ≡ true → turns_cancelled turns ≡ true)
    × (All Breaks turns → length p.waits ≡ length turns)

after_attempt-Persists :
    (turn : Turn) (turns : List Turn) (e : Ended × List String) (wait : ℕ) (rest : Progress)
    → (e.0 ≡ (subscribe_once turn.attempt).0)
    → (e.0 ≡ ended_well → attempt_cancelled turn.attempt ≡ true)
    → InBounds wait
    → Persists turns rest
    → Persists (turn ∷ turns) (after_attempt e wait turn.done_in_wait rest)
unfolding after_attempt
after_attempt-Persists turn turns (ended_well, passed) wait rest q c b h =
    (tt, λ r. ground (arith, c refl), λ all. absurd (ended all.0.0.1))
  where
    ended : {e : GoError} → (subscribe_once turn.attempt).0 ≡ broken e → ⊥
    ended r = cc
after_attempt-Persists turn turns (still_waiting, passed) wait rest q c b h =
    (tt, λ r. absurd cc, λ all. absurd (ended all.0.0.1))
  where
    ended : {e : GoError} → (subscribe_once turn.attempt).0 ≡ broken e → ⊥
    ended r = cc
after_attempt-Persists turn turns (broken e, passed) wait rest q c b h =
    elim (Bool-cases turn.done_in_wait) [
      | inl done ↦
          rw done ((b, tt), λ r. ground arith, λ all. absurd (ground (arith, all.0.1, done)))
      | inr waits ↦ rw waits ((b, h.0), λ r. ground (arith, h.1 r), λ all. ap suc (h.2 all.1))
    ]

run_loop-Persists :
    (delay : ℕ) (turns : List Turn)
    → IsDelay delay
    → All IsRandom turns
    → Persists turns (run_loop delay turns)
unfolding run_loop
run_loop-Persists delay [] d r = (tt, λ h. absurd cc, λ h. refl)
run_loop-Persists delay (turn ∷ turns) d (random, more) =
    after_attempt-Persists turn turns (subscribe_once turn.attempt) _ _ refl
      (subscribe_once-cancelled turn.attempt) (with_jitter-InBounds turn.int64_n delay random d)
      (run_loop-Persists (next_delay delay) turns (next_delay-IsDelay delay d) more)

-- A subscriber with a client that is enabled, a hub and a channel keeps its subscription up: between
-- its attempts it waits between 0.8 and 36 seconds, however often they have failed; it returns only
-- if its context is cancelled; and as long as attempts break and nothing is cancelled, each of them is
-- followed by a wait, so by the next attempt.
pub run-Persists :
    (channel : String) (turns : List Turn)
    → (channel == "") ≡ false
    → All IsRandom turns
    → Persists turns (run (some true) true channel turns)
unfolding run
run-Persists channel turns named random =
    rw named (run_loop-Persists reconnect_initial_delay turns (omega arith, omega arith) random)
