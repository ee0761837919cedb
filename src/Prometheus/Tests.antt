-- ===== src/Prometheus/Tests.antt =====
-- The client on answers that are made up: numbers are whole, an instant is a number of seconds, which
-- is written in digits.
use server_monitor.Base.{
  ℕ, ◌+◌, ◌/◌, String, ◌≡◌, refl, false, none, some, List, [], ◌∷◌, ◌==◌, eqb, leb, ltb,
  if◌then◌else◌,
}
use server_monitor.Base.Int.{pos, pos_part}
use server_monitor.Base.Text.{text_less}
use server_monitor.Base.Numbers.{parse_int, format_uint}
use server_monitor.Base.Sort.{sort_stable}
use server_monitor.Errors.{message, ok, err}
use server_monitor.Hosts.{Floats, Host}
use server_monitor.Prometheus.{Readings, raw_number, raw_text, VectorResult, Fetched, answered}
use server_monitor.Prometheus.HostList.{query_host_up, query_cpu_usage, get_hosts}

abbrev whole : Floats
whole = record {
  Float = ℕ;
  of_nat = λ n. n;
  at_least = λ a b. leb b a;
  same = eqb;
  above = λ a b. ltb b a;
  plus = ◌+◌;
  divided = ◌/◌;
}

abbrev seconds : Readings whole
seconds = record {
  Moment = ℕ;
  parse_float_text = λ text. elim (parse_int text) [
    | none ↦ err (message "invalid syntax")
    | some n ↦ ok (pos_part n)
  ];
  to_int64 = pos;
  of_int64 = pos_part;
  minus = λ a b. 0;
  times = λ a b. 0;
  unix = λ sec nsec. pos_part sec;
  after = λ a b. ltb b a;
  rfc3339 = format_uint;
  parse_rfc3339 = λ text. elim (parse_int text) [ none ↦ none | some n ↦ some (pos_part n) ];
  is_zero = λ t. false;
  format_prometheus_time = format_uint;
  format_prometheus_step = λ d. format_uint (pos_part d);
}

abbrev sample : String → ℕ → String → VectorResult whole
sample name at value = record {
  metric = ("instance", name) ∷ [];
  value = raw_number at ∷ raw_text value ∷ [];
  values = [];
}

abbrev answer : List (VectorResult whole) → Fetched whole
answer items = answered 200 (ok (record { status = "success"; error = ""; result = items }))

-- Two hosts are up or down, one of which has a load, and a third has only a memory.
abbrev fetch : String → Fetched whole
fetch query =
    if query == query_host_up
    then answer (sample "b" 100 "1" ∷ sample "a" 100 "0" ∷ [])
    else if query == query_cpu_usage
    then answer (sample "b" 110 "42" ∷ [])
    else answer (sample "c" 90 "7" ∷ [])

abbrev host_b : Host whole
host_b = record { host_instance = "b"; cpu = 42; memory = 0; status = "up"; last_scrape = "110" }

abbrev hosts : List (Host whole)
hosts =
    record { host_instance = "a"; cpu = 0; memory = 0; status = "down"; last_scrape = "100" }
    ∷ host_b
    ∷ record { host_instance = "c"; cpu = 0; memory = 7; status = "unknown"; last_scrape = "90" }
    ∷ []

got : get_hosts whole seconds fetch ≡ ok hosts
unfolding get_hosts format_uint parse_int sort_stable text_less
got = refl
