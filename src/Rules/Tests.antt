-- ===== src/Rules/Tests.antt =====
-- A rule, a file system that works, and a Prometheus that cannot be reloaded.
use server_monitor.Base.{◌≡◌, refl, true, none, some}
use server_monitor.Base.Text.{trim_space, to_lower}
use server_monitor.Errors.{message}
use server_monitor.Rules.{
  AlertRule, AlertRuleRequest, break_at, has_char, contains_promql_subquery,
  normalize_alert_rule_request, validate_alert_rule_expr, validate_alert_rule_duration,
}
use server_monitor.Rules.Subquery.{with_subquery, contains_promql_subquery-finds}
use server_monitor.Rules.Accepted.{FromApi}
use server_monitor.Rules.Sync.{System}

no_bracket : break_at b']' "5m:1m" ≡ none
unfolding break_at
no_bracket = refl

colon : has_char b':' "5m:1m" ≡ true
unfolding has_char break_at
colon = refl

contains_promql_subquery-finds_example :
    contains_promql_subquery (with_subquery "max_over_time(x" "5m:1m" ") > 1") ≡ true
contains_promql_subquery-finds_example =
    contains_promql_subquery-finds "max_over_time(x" "5m:1m" ") > 1" no_bracket colon

abbrev cpu_request : AlertRuleRequest
cpu_request = record {
  name = " HighCpu ";
  expr = "cpu_usage > 90";
  duration = "";
  severity = "critical";
  summary = "CPU is high";
  description = "";
  enabled = none;
}

abbrev cpu_rule : AlertRule
cpu_rule = record {
  name = "HighCpu";
  expr = "cpu_usage > 90";
  duration = "2m";
  severity = "critical";
  summary = "CPU is high";
  description = "";
  enabled = true;
}

cpu_rule-FromApi : FromApi cpu_rule
unfolding normalize_alert_rule_request trim_space to_lower contains_promql_subquery
    validate_alert_rule_expr validate_alert_rule_duration
cpu_rule-FromApi = (cpu_request, refl)

-- Prometheus does not answer.
abbrev disk : System
disk = record {
  write_temp = λ text. none;
  promtool_check = λ text. none;
  read_error = none;
  write_file = λ text file. (none, some text);
  write_back = λ text file. (none, some text);
  remove_file = λ file. (none, none);
  reload = some (message "connection refused");
}
