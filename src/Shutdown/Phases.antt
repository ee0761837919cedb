-- ===== src/Shutdown/Phases.antt =====
-- The phases of a shutdown, in order, and their time limits.
use native.Mathlib.Nat.{mul-div-le, le-div_iff_mul-le}
use server_monitor.Base.{
  ℕ, ◌+◌, ◌*◌, ◌/◌, ◌≤◌, ◌<◌, ◌≡◌, true, false, List, [], ◌∷◌, ltb, leb, arith, Bool-cases, inl,
  inr,
}
use server_monitor.Base.Int.{pos, pos_part, ltb_ℤ}
use server_monitor.Shutdown.{Phase, Ran, per_phase}

pub share_fits : (total n : ℕ) → 0 < n → n ≤ total → n * pos_part (per_phase (pos total) n) ≤ total
unfolding per_phase
share_fits total n p q = elim (Bool-cases (ltb 1 n)) [
  | inl many ↦ rw (total_positive, many, share_positive) (mul-div-le total n)
  | inr one ↦ rw (total_positive, one, is_one one) (omega arith)
]
  where
    total_positive : ltb 0 (total + 0) ≡ true
    total_positive = ground (arith, p, q)

    is_one : ltb 1 n ≡ false → n ≡ 1
    is_one h = ground (arith, p, h)

    share_positive : leb (total / n + 0) 0 ≡ false
    share_positive = ground (arith, (le-div_iff_mul-le {x = 1} {y = total} p).1 (omega (arith, q)))

module _ {S : Type 0} where
  -- The time that the phases may take together.
  abbrev pub total_limit : List (Ran S) → ℕ
  total_limit [] = 0
  total_limit (r ∷ rs) = total_limit rs + pos_part r.limit

  abbrev pub HasNoTimeout : Phase S → Type 0
  HasNoTimeout phase = ltb_ℤ (pos 0) phase.timeout ≡ false
