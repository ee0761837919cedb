-- ===== src/Config/Tests.antt =====
-- The start with the configuration of the tests.
use server_monitor.Base.{
  ℕ, ◌≤◌, String, ◌≡◌, refl, Bool, true, false, Option, none, some, ◌==◌, ltb, if◌then◌else◌, arith,
  ap,
}
use server_monitor.Base.Int.{ℤ, pos, ltb_ℤ, pos_part}
use server_monitor.Base.Text.{trim_space}
use server_monitor.Base.Numbers.{parse_int}
use server_monitor.Auth.Accounts.{ensure_initial_admin}
use server_monitor.Auth.Toy.Table.{users, passwords, root_user}
use server_monitor.Config.Env.{value_of, bool, positive_int, duration_seconds, times}
use server_monitor.Config.Web
use server_monitor.Config.Start.{init_auth_service}
use server_monitor.Config.Start.Accepted.{SetUp, tokens_of, init_auth_service-SetUp}
use server_monitor.Config.Durations.{Small, AllPositive, durations, load-AllPositive}
use server_monitor.Config.Sample.{plain, environment, web, web_valid}

hours_loaded : web.jwt_expire_hours ≡ pos 24
unfolding Web.load positive_int
hours_loaded = refl

auth_on : web.auth_enabled ≡ true
unfolding Web.load bool trim_space
auth_on = refl

init_auth_service-SetUp_example :
    let init = init_auth_service users passwords true web root_user in
    let admin = ensure_initial_admin users passwords web.admin_password root_user in
    SetUp users passwords (tokens_of web) admin.0 init.0 × (init.1 ≡ admin.1)
init_auth_service-SetUp_example =
    init_auth_service-SetUp users passwords plain web root_user web_valid auth_on
      (omega (arith, ap pos_part hours_loaded))

-- A number of seconds that is too large gives a duration that is negative.
wrapped_interval :
    ltb_ℤ
      (duration_seconds (λ key. some "9223372037") "HOSTS_BROADCAST_INTERVAL_SECONDS" (pos 5))
      (pos 0)
    ≡ true
unfolding duration_seconds parse_int
wrapped_interval = refl

-- A value of the environment is small if it is, as a number.
abbrev SmallValue : Option String → Type 0
SmallValue value = (n : ℕ) → parse_int (value_of value) ≡ some (pos n) → n ≤ 9223372036

set_or :
    (this : Bool) (a b : Option String)
    → SmallValue a
    → SmallValue b
    → SmallValue (if this then a else b)
set_or true a b p q = p
set_or false a b p q = q

read_as :
    (read : Option ℤ) (m n : ℕ)
    → read ≡ some (pos m)
    → read ≡ some (pos n)
    → m ≤ 9223372036
    → n ≤ 9223372036
read_as none m n p q h = absurd cc
read_as (some r) m n p q h = ground (arith, p, q, h)

no_number : (value : Option String) → parse_int (value_of value) ≡ none → SmallValue value
no_number value p n h = absurd cc

environment-Small : Small environment
unfolding parse_int
environment-Small key =
    set_or (key == "JWT_SECRET") _ _ (no_number (some " 0123456789abcdef0123456789abcdef ") refl) (
      set_or (key == "RATE_LIMIT_ENABLED") _ _ (no_number (some "true") refl) (
        set_or (key == "RATE_LIMIT_REQUESTS") _ _
          (λ n h. read_as (parse_int "2") 2 n refl h (omega arith))
          (set_or (key == "RATE_LIMIT_WINDOW_SECONDS") _ _
            (λ n h. read_as (parse_int "10") 10 n refl h (omega arith)) (no_number none refl))))

load-AllPositive_example : AllPositive (durations web)
load-AllPositive_example = load-AllPositive (λ text. none) ltb 0 1 environment environment-Small

-- A number of hours that is too large gives a time to live of 25 minutes.
wrapped_hours : times (pos 5124096) 3600000000000 ≡ pos 1526290448384
unfolding times
wrapped_hours = refl
