-- ===== src/Shutdown.antt =====
-- pkg/shutdown/shutdown.go: the phases of a shutdown. A phase is a function of its time limit and the
-- state; log lines are left out.
pub mod Phases
mod Tests
use server_monitor.Base.{
  ℕ, ◌/◌, String, Bool, true, false, not, ◌&&◌, Option, List, [], ◌∷◌, length, ltb, if◌then◌else◌,
}
use server_monitor.Base.Int.{ℤ, pos, pos_part, leb_ℤ, ltb_ℤ}
use server_monitor.Errors.{GoError}

-- What each of the phases may take, when there are that many.
unfoldable pub per_phase : ℤ → ℕ → ℤ
per_phase total phases =
    if ltb_ℤ (pos 0) total && ltb 1 phases
    then (let share = pos (pos_part total / phases) in if leb_ℤ share (pos 0) then total else share)
    else total

module _ (S : Type 0) where
  pub record Phase : Type 0 where
    pub name : String
    pub timeout : ℤ
    pub run : ℤ → S → Option GoError × S

  -- What is logged of a phase.
  pub record Ran : Type 0 where
    pub phase : String
    pub limit : ℤ
    pub failure : Option GoError

  unfoldable pub phase_limit : ℤ → Phase → ℤ
  phase_limit share phase = if ltb_ℤ (pos 0) phase.timeout then phase.timeout else share

  unfoldable pub run_phases : ℤ → List Phase → S → List Ran × S
  unfolding phase_limit
  run_phases share [] s = ([], s)
  run_phases share (phase ∷ phases) s =
      let limit = phase_limit share phase in
      let (failure, t) = phase.run limit s in
      let (rest, last) = run_phases share phases t in
      (record { phase = phase.name; limit = limit; failure = failure } ∷ rest, last)

  unfoldable pub graceful : ℤ → List Phase → S → List Ran × S
  unfolding run_phases per_phase
  graceful total [] s = ([], s)
  graceful total (phase ∷ phases) s =
      run_phases (per_phase total (length (phase ∷ phases))) (phase ∷ phases) s
