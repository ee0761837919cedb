-- ===== src/Rules/Routes/Tests.antt =====
-- The routes on a table in memory: a rule is created and replaced, another request is refused, and the
-- rules are read for a sync.
use server_monitor.Base.{
  ℕ, ◌+◌, String, ◌≡◌, refl, Bool, true, false, not, Option, none, some, List, [], ◌∷◌, eqb, map,
  filter_by, length, if◌then◌else◌, All,
}
use server_monitor.Base.Text.{trim_space, to_lower}
use server_monitor.Base.Numbers.{parse_uint}
use server_monitor.Errors.{message, ok}
use server_monitor.Rules.{
  AlertRule, AlertRuleRequest, normalize_alert_rule_request, validate_alert_rule_expr,
  validate_alert_rule_duration, contains_promql_subquery, render_alert_rules_yaml,
}
use server_monitor.Rules.Sync.{System}
use server_monitor.Rules.Routes.{
  Row, RuleTable, RuleTableLaws, replace_row, Request, create_alert_rule, update_alert_rule,
  SyncConfig, bound_rule, handle, handle_all,
}
use server_monitor.Rules.Routes.Stored.{Sound, handle_all-renders}

abbrev first_row : ℕ → List Row → Option Row
first_row id [] = none
first_row id (row ∷ rows) = let rest = first_row id rows in if eqb row.0 id then some row else rest

abbrev enabled_rows : List Row → List Row
enabled_rows rows = filter_by (λ row. row.1.enabled) rows

abbrev table : RuleTable
table = record {
  State = List Row;
  find_all = λ s. ok s;
  find_enabled = λ s. ok (enabled_rows s);
  first = λ id s. ok (first_row id s);
  create = λ rule s. (ok (length s + 1, rule), (length s + 1, rule) ∷ s);
  save = λ row s. (none, replace_row row s);
  delete = λ id s. (none, filter_by (λ r. not (eqb r.0 id)) s);
}

kept_or_not :
    (P : Row → Type 0) (wanted : Bool) (row : Row) (found : List Row)
    → P row
    → All P found
    → All P (if wanted then row ∷ found else found)
kept_or_not P true row found h hs = (h, hs)
kept_or_not P false row found h hs = hs

enabled_rows-All : (P : Row → Type 0) (rows : List Row) → All P rows → All P (enabled_rows rows)
unfolding filter_by
enabled_rows-All P [] h = tt
enabled_rows-All P (row ∷ rows) h =
    kept_or_not P row.1.enabled row (enabled_rows rows) h.0 (enabled_rows-All P rows h.1)

table-RuleTableLaws : RuleTableLaws table
table-RuleTableLaws = record {
  rows = λ s. s;
  enabled_queried = λ s P h. enabled_rows-All P s h;
  row_created = λ rule s. (refl, refl);
  row_saved = λ row s. refl;
  row_deleted = λ id s. refl;
}

abbrev no_disk : System
no_disk = record {
  write_temp = λ text. some (message "no space left on device");
  promtool_check = λ text. none;
  read_error = none;
  write_file = λ text file. (none, some text);
  write_back = λ text file. (none, some text);
  remove_file = λ file. (none, none);
  reload = none;
}

abbrev config : SyncConfig
config = record { enabled = true; file_path = "/etc/rules.yml"; reload_url = "" }

abbrev request : String → AlertRuleRequest
request duration = record {
  name = "HighCpu";
  expr = "cpu_usage > 90";
  duration = duration;
  severity = "critical";
  summary = "CPU is high";
  description = "";
  enabled = none;
}

abbrev rule : AlertRule
rule = record {
  name = "HighCpu";
  expr = "cpu_usage > 90";
  duration = "5m";
  severity = "critical";
  summary = "CPU is high";
  description = "";
  enabled = true;
}

abbrev requests : List Request
requests =
    create_alert_rule (some (request ""))
    ∷ update_alert_rule "1" (some (request "5m"))
    ∷ update_alert_rule "1" (some (request "soon"))
    ∷ []

abbrev after : List Row × Option String
after = handle_all table no_disk (λ s. s) true config requests ([], none)

stored : after ≡ ((1, rule) ∷ [], none)
unfolding handle_all handle bound_rule normalize_alert_rule_request trim_space to_lower
    contains_promql_subquery validate_alert_rule_expr validate_alert_rule_duration parse_uint
stored = refl

handle_all-renders_example :
    Sound table no_disk (λ s. s) true config table-RuleTableLaws after
    × ((text : String) × (render_alert_rules_yaml
            (λ s. s)
            (map (λ row. row.1) (enabled_rows after.0))
          ≡ ok text))
unfolding table-RuleTableLaws
handle_all-renders_example =
    handle_all-renders table no_disk (λ s. s) true config table-RuleTableLaws requests ([], none)
      (enabled_rows after.0) tt refl
