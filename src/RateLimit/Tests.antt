-- ===== src/RateLimit/Tests.antt =====
-- The limit of requests around a server in memory, with a configuration that is loaded.
use server_monitor.Base.{ℕ, ◌≡◌, refl, true, false, some, [], ◌∷◌, arith, filter_by, ap}
use server_monitor.Base.Int.{pos, pos_part}
use server_monitor.Base.Text.{has_prefix, trim_space}
use server_monitor.Base.Numbers.{parse_int}
use server_monitor.WebRedis.{allow_sliding_window}
use server_monitor.WebRedis.Window.{Accounts}
use server_monitor.WebRedis.Memory.{Memory, empty, server, server-WindowLaws}
use server_monitor.Config.Env.{bool, positive_int, duration_seconds, duration_milliseconds}
use server_monitor.Config.Web
use server_monitor.Config.Sample.{plain, web, web_valid}
use server_monitor.RateLimit.{Limited, should_skip_rate_limit, rate_limit}
use server_monitor.RateLimit.Limits.{Within, key_of, rate_limit-Within}

abbrev exact : ℕ → ℕ
exact n = n

abbrev request : ℕ → Memory → Limited × Memory
request now s =
    rate_limit server exact (some true) web.rate_limit "10.0.0.1" "/api/hosts" "/api/hosts" now s

-- Two requests, the second six seconds after the first; the limit is 2 in 10 seconds.
abbrev before : Memory
before = (request 26000000000 (request 20000000000 empty).1).1

loaded : web.rate_limit ≡ record {
  enabled = true;
  requests = pos 2;
  window = pos 10000000000;
  operation_timeout = pos 500000000;
}
unfolding Web.load bool positive_int duration_seconds duration_milliseconds parse_int trim_space
loaded = refl

before-Accounts :
    Accounts server server-WindowLaws exact
      (key_of "10.0.0.1" "/api/hosts" "/api/hosts")
      16000000000
      (26000000000 ∷ 20000000000 ∷ [])
      before
unfolding rate_limit allow_sliding_window filter_by Web.load bool positive_int duration_seconds
    duration_milliseconds parse_int trim_space has_prefix
before-Accounts b h = ground arith

seen : should_skip_rate_limit "/api/hosts" ≡ false
unfolding should_skip_rate_limit
seen = refl

-- A third request, five seconds later, is within the window of the second one only.
rate_limit-Within_example :
    Within server server-WindowLaws exact web.rate_limit
      (key_of "10.0.0.1" "/api/hosts" "/api/hosts")
      31000000000
      (26000000000 ∷ 20000000000 ∷ [])
      (request 31000000000 before)
rate_limit-Within_example =
    rate_limit-Within server server-WindowLaws exact plain web "10.0.0.1" "/api/hosts" "/api/hosts"
      31000000000 16000000000 (26000000000 ∷ 20000000000 ∷ []) before web_valid
      (ap (λ r. r.enabled) loaded) seen refl (λ a b h. h)
      (omega (arith, ap (λ r. pos_part r.window) loaded)) before-Accounts
