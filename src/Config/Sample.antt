-- ===== src/Config/Sample.antt =====
-- A configuration for the tests, which is loaded from an environment. Floating-point numbers are whole.
use server_monitor.Base.{ℕ, String, ◌≡◌, refl, none, some, List, [], ◌∷◌, ◌==◌, ltb, if◌then◌else◌}
use server_monitor.Base.Text.{split, trim_space}
use server_monitor.Base.Numbers.{parse_int}
use server_monitor.Errors.{message, Result, ok, err}
use server_monitor.Config.Addresses.{
  Addresses, validate_host_port, validate_http_url, validate_brokers,
}
use server_monitor.Config.Env.{
  Env, bool, string, non_empty_string, list, list_with_fallback, duration_seconds,
}
use server_monitor.Config.Web
use server_monitor.Config.Consumer

abbrev pub two_parts : List String → Result (String × String)
two_parts [] = err (message "missing port in address")
two_parts (host ∷ []) = err (message "missing port in address")
two_parts (host ∷ port ∷ []) = ok (host, port)
two_parts (host ∷ port ∷ more ∷ parts) = err (message "too many colons in address")

-- The addresses of the tests; the one URL is the default of PROMETHEUS_URL and what follows from it.
abbrev pub plain : Addresses
plain = record {
  split_host_port = λ raw. two_parts (split raw b':');
  parse_url = λ raw. some ("http", "prometheus:9090", "9090");
}

abbrev pub environment : Env
environment key =
    if key == "JWT_SECRET"
    then some " 0123456789abcdef0123456789abcdef "
    else if key == "RATE_LIMIT_ENABLED"
    then some "true"
    else if key == "RATE_LIMIT_REQUESTS"
    then some "2"
    else if key == "RATE_LIMIT_WINDOW_SECONDS"
    then some "10"
    else none

abbrev pub web : Web.Config ℕ
web = Web.load (λ text. none) ltb 0 1 environment

abbrev pub consumer : Consumer.Config ℕ
consumer = Consumer.load (λ text. none) ltb 0 1 environment

pub web_valid : Web.validate plain web ≡ none
unfolding Web.validate Web.load split bool trim_space string validate_host_port parse_int
    validate_http_url non_empty_string validate_brokers list duration_seconds
web_valid = refl

pub consumer_valid : Consumer.validate plain consumer ≡ none
unfolding Consumer.validate Consumer.load split trim_space string validate_host_port parse_int
    non_empty_string validate_brokers list_with_fallback duration_seconds
consumer_valid = refl
