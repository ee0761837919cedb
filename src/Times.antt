-- ===== src/Times.antt =====
-- Go's `time.Time`, and the texts that the standard library makes of it.
pub mod Unary
use server_monitor.Base.{ℕ, ◌/◌, String, ◌≡◌, Bool, eqb}
use server_monitor.Base.Int.{ℤ, sub_ℕ}

-- Nanoseconds since the zero time, the start of year 1. `IsZero` is the test for 0.
abbrev pub Time : Type 0
Time = ℕ

abbrev pub is_zero : Time → Bool
is_zero t = eqb t 0

-- `t.UTC().Format(time.RFC3339Nano)` names the instant to the nanosecond.
pub record TimeFormat : Type 0 where
  pub rfc3339_nano : Time → String
  pub rfc3339_nano_exact : (s t : Time) → rfc3339_nano s ≡ rfc3339_nano t → s ≡ t

-- t.Unix(): whole seconds since 1970.
unfoldable pub unix : Time → ℤ
unix t = sub_ℕ (t / 1000000000) 62135596800
