-- ===== src/Config/Env.antt =====
-- pkg/configutil/env.go. The environment is a function: `none` is a variable that is not set.
use server_monitor.Base.{
  ℕ, ◌+◌, ◌*◌, ◌-◌, ◌^◌, ◌%◌, String, Bool, true, false, not, ◌||◌, Option, none, some, List, [],
  ◌∷◌, ◌==◌, ltb, if◌then◌else◌,
}
use server_monitor.Base.Int.{ℤ, pos, negsuc, leb_ℤ, ltb_ℤ}
use server_monitor.Base.Text.{trim_space, split}
use server_monitor.Base.Keyed.{member}
use server_monitor.Base.Numbers.{parse_int}

abbrev pub Env : Type 0
Env = String → Option String

-- os.Getenv
abbrev pub value_of : Option String → String
value_of none = ""
value_of (some text) = text

-- String
unfoldable pub string : Env → String → String → String
string env key fallback = elim (env key) [ none ↦ fallback | some value ↦ value ]

-- NonEmptyString
unfoldable pub non_empty_string : Env → String → String → String
non_empty_string env key fallback = elim (env key) [
  | none ↦ fallback
  | some value ↦ if trim_space value == "" then fallback else value
]

unfoldable pub int_or : (ℤ → Bool) → ℤ → Option ℤ → ℤ
int_or rejected fallback none = fallback
int_or rejected fallback (some n) = if rejected n then fallback else n

-- strconv.Atoi reads what strconv.ParseInt reads in base 10.
unfoldable pub non_negative_int : Env → String → ℤ → ℤ
unfolding int_or
non_negative_int env key fallback =
    let value = value_of (env key) in
    if value == "" then fallback else int_or (λ n. ltb_ℤ n (pos 0)) fallback (parse_int value)

unfoldable pub positive_int : Env → String → ℤ → ℤ
unfolding int_or
positive_int env key fallback =
    let value = value_of (env key) in
    if value == "" then fallback else int_or (λ n. leb_ℤ n (pos 0)) fallback (parse_int value)

-- A product of a number and a unit as an int64, which wraps.
unfoldable pub wrap_int64 : ℕ → ℤ
wrap_int64 n = let r = n % 2 ^ 64 in if ltb r (2 ^ 63) then pos r else negsuc (2 ^ 64 - r - 1)

unfoldable pub times : ℤ → ℕ → ℤ
unfolding wrap_int64
times (pos n) unit = wrap_int64 (n * unit)
times (negsuc n) unit = wrap_int64 ((2 ^ 64 - (n * unit + unit) % 2 ^ 64) % 2 ^ 64)

abbrev pub second : ℕ
second = 1000000000

-- DurationSeconds and DurationMilliseconds, in nanoseconds
unfoldable pub duration_seconds : Env → String → ℤ → ℤ
unfolding positive_int times
duration_seconds env key fallback = times (positive_int env key fallback) second

unfoldable pub duration_milliseconds : Env → String → ℤ → ℤ
unfolding positive_int times
duration_milliseconds env key fallback = times (positive_int env key fallback) 1000000

-- strconv.ParseBool
unfoldable pub parse_bool : String → Option Bool
unfolding member
parse_bool text =
    if member text ("1" ∷ "t" ∷ "T" ∷ "true" ∷ "TRUE" ∷ "True" ∷ [])
    then some true
    else if member text ("0" ∷ "f" ∷ "F" ∷ "false" ∷ "FALSE" ∷ "False" ∷ [])
    then some false
    else none

-- Bool
unfoldable pub bool : Env → String → Bool → Bool
unfolding parse_bool
bool env key fallback =
    let value = trim_space (value_of (env key)) in
    if value == "" then fallback else elim (parse_bool value) [ none ↦ fallback | some b ↦ b ]

-- The loop of splitList, on the parts that are trimmed.
split_loop : List String → List String
split_loop [] = []
split_loop (part ∷ parts) =
    let rest = split_loop parts in
    let trimmed = trim_space part in if not (trimmed == "") then trimmed ∷ rest else rest

unfoldable pub split_list : String → List String
unfolding split_loop split
split_list value = split_loop (split value b',')

-- List
unfoldable pub list : Env → String → List String
unfolding split_list
list env key =
    let value = trim_space (value_of (env key)) in if value == "" then [] else split_list value

-- ListWithFallback
unfoldable pub list_with_fallback : Env → String → List String → List String
unfolding split_list
list_with_fallback env key fallback = elim (env key) [
  | none ↦ fallback
  | some value ↦ split_list (trim_space value)
]

-- FloatRange over floating-point numbers that are given: strconv.ParseFloat and a test for less.
module _ {Float : Type 0} (parse_float : String → Option Float) (less : Float → Float → Bool) where
  float_or : Float → Float → Float → Option Float → Float
  float_or fallback min_value max_value none = fallback
  float_or fallback min_value max_value (some parsed) =
      if less parsed min_value || less max_value parsed then fallback else parsed

  unfoldable pub float_range : Env → String → Float → Float → Float → Float
  unfolding float_or
  float_range env key fallback min_value max_value =
      let value = trim_space (value_of (env key)) in
      if value == "" then fallback else float_or fallback min_value max_value (parse_float value)
