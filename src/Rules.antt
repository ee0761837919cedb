-- ===== src/Rules.antt =====
-- server-web/api/handlers/alert_rules.go: the checks of an alert rule, and the sync of the rules file
-- with Prometheus. The gin handlers around them answer with what these return.
pub mod Subquery
pub mod Accepted
pub mod Sync
pub mod Routes
mod Tests
use Prim.Native.Char.{Char, code}
use server_monitor.Base.{
  ℕ, zero, suc, ◌+◌, String, len, Bool, true, false, not, ◌&&◌, ◌||◌, Option, none, some, List, [],
  ◌∷◌, ◌==◌, eqb, ltb, leb, if◌then◌else◌,
}
use server_monitor.Base.Text.{append, trim_space, to_lower, contains, is_digit}
use server_monitor.Base.Keyed.{member}
use server_monitor.Errors.{GoError, message, wrapped, Result, ok, err}

-- Index of a character, and the slices before and after it.
unfoldable pub break_at : ℕ → String → Option (String × String)
break_at x String.[] = none
break_at x (String.◌∷◌ c s) =
    let rest = break_at x s in
    if eqb (code c) x
    then some ("", s)
    else elim rest [ none ↦ none | some (p, q) ↦ some (String.◌∷◌ c p, q) ]

unfoldable pub has_char : ℕ → String → Bool
has_char x String.[] = false
has_char x (String.◌∷◌ c s) = if eqb (code c) x then true else has_char x s

abbrev pub chars : String → ℕ
chars String.[] = 0
chars (String.◌∷◌ c s) = chars s + 1

-- The loop of containsPromQLSubquery on what is left of the expression. Each turn goes beyond a
-- bracket, so that there are fewer turns than characters.
subquery_turn : Option (String × String) → (String → Bool) → Bool
unfolding has_char
subquery_turn none again = false
subquery_turn (some (inside, remaining)) again =
    if has_char b':' inside then true else again remaining

close_of : Option (String × String) → Option (String × String)
unfolding break_at
close_of none = none
close_of (some (before, after)) = break_at b']' after

subquery_loop : ℕ → String → Bool
unfolding subquery_turn close_of
subquery_loop zero expr = false
subquery_loop (suc fuel) expr =
    subquery_turn (close_of (break_at b'[' expr)) (λ remaining. subquery_loop fuel remaining)

unfoldable pub contains_promql_subquery : String → Bool
unfolding subquery_loop
contains_promql_subquery expr = subquery_loop (chars expr) expr

abbrev pub forbidden_alert_rule_expr_terms : List String
forbidden_alert_rule_expr_terms = "admin_api" ∷ "scrape_interval" ∷ "scrape_duration" ∷ []

any_contained : String → List String → Bool
any_contained text [] = false
any_contained text (term ∷ terms) = if contains text term then true else any_contained text terms

-- `none` is a nil error
unfoldable pub validate_alert_rule_expr : String → Option GoError
unfolding any_contained contains
validate_alert_rule_expr expr =
    if expr == ""
    then some (message "expr is required")
    else if ltb 2048 (len expr)
    then some (message "expr too long")
    else if any_contained (to_lower expr) forbidden_alert_rule_expr_terms
    then some (message "expr contains forbidden reference")
    else if contains_promql_subquery expr
    then some (message "expr subquery is not allowed")
    else none

-- Where the loop of validateAlertRuleDuration stands: before a number, in its digits (and whether
-- one is not 0), or after an `m` that an `s` may follow.
pub data DurationState : Type 0 where
  at_number : DurationState
  in_digits : Bool → DurationState
  after_m : DurationState

abbrev is_unit : ℕ → Bool
is_unit c = eqb c b's' || (eqb c b'h' || (eqb c b'd' || (eqb c b'w' || eqb c b'y')))

-- `none` is the error
duration_step : DurationState → ℕ → Option DurationState
unfolding is_digit
duration_step at_number c = if is_digit c then some (in_digits (not (eqb c b'0'))) else none
duration_step (in_digits positive) c =
    if is_digit c
    then some (in_digits (positive || not (eqb c b'0')))
    else if not positive
    then none
    else if eqb c b'm'
    then some after_m
    else if is_unit c
    then some at_number
    else none
duration_step after_m c =
    if eqb c b's'
    then some at_number
    else if is_digit c
    then some (in_digits (not (eqb c b'0')))
    else none

duration_end : DurationState → Bool
duration_end at_number = true
duration_end (in_digits positive) = false
duration_end after_m = true

duration_run : Option DurationState → String → Bool
unfolding duration_step duration_end
duration_run none s = false
duration_run (some state) String.[] = duration_end state
duration_run (some state) (String.◌∷◌ c s) = duration_run (duration_step state (code c)) s

unfoldable pub validate_alert_rule_duration : String → Option GoError
unfolding duration_run
validate_alert_rule_duration duration =
    if (duration == "") || not (duration_run (some at_number) duration)
    then some (message "duration must be a positive prometheus duration")
    else none

pub record AlertRule : Type 0 where
  pub name : String
  pub expr : String
  pub duration : String
  pub severity : String
  pub summary : String
  pub description : String
  pub enabled : Bool

-- The request has the rule's texts, and may leave `enabled` out.
pub record AlertRuleRequest : Type 0 where
  pub name : String
  pub expr : String
  pub duration : String
  pub severity : String
  pub summary : String
  pub description : String
  pub enabled : Option Bool

abbrev pub valid_severities : List String
valid_severities = "critical" ∷ "warning" ∷ "info" ∷ []

-- An empty text stands for a default.
abbrev or_default : String → String → String
or_default default text = if text == "" then default else text

checked : Option GoError → Result AlertRule → Result AlertRule
checked (some e) rest = err e
checked none rest = rest

-- The last two checks, and the rule.
finished : AlertRule → Result AlertRule
unfolding member
finished rule =
    if not (member rule.severity valid_severities)
    then err (message "invalid severity")
    else if ltb 512 (len rule.summary)
    then err (message "summary must be at most 512 characters")
    else ok rule

abbrev normalized : AlertRuleRequest → AlertRule
normalized req = record {
  name = trim_space req.name;
  expr = trim_space req.expr;
  duration = or_default "2m" (trim_space req.duration);
  severity = or_default "warning" (trim_space req.severity);
  summary = trim_space req.summary;
  description = trim_space req.description;
  enabled = elim req.enabled [ none ↦ true | some b ↦ b ];
}

-- normalizeAlertRuleRequest; an error is answered with status 400
unfoldable pub normalize_alert_rule_request : AlertRuleRequest → Result AlertRule
unfolding checked finished
normalize_alert_rule_request req =
    let rule = normalized req in
    if (rule.name == "") || ltb 128 (len rule.name)
    then err (message "name must be 1-128 characters")
    else checked (validate_alert_rule_expr rule.expr)
        (checked (validate_alert_rule_duration rule.duration) (finished rule))

-- validateAlertRuleForRender; its messages also have the rule's name or number.
unfoldable pub validate_alert_rule_for_render : AlertRule → Option GoError
unfolding member
validate_alert_rule_for_render rule =
    if (rule.name == "") || ltb 128 (len rule.name)
    then some (message "invalid alert rule name")
    else elim (validate_alert_rule_expr rule.expr) [
      | some e ↦ some (wrapped "invalid alert rule expr" e)
      | none ↦ elim (validate_alert_rule_duration rule.duration) [
        | some e ↦ some (wrapped "invalid alert rule duration" e)
        | none ↦
            if not (member rule.severity valid_severities)
            then some (message "invalid alert rule severity")
            else if ltb 512 (len rule.summary)
            then some (message "invalid alert rule summary")
            else none
      ]
    ]

-- `yaml_string` is strconv.Quote
unfoldable pub render_rule : (String → String) → AlertRule → String
render_rule yaml_string rule = append "      - alert: " (
    append (yaml_string rule.name) (
      append "\n        expr: " (
        append (yaml_string rule.expr) (
          append "\n        for: " (
            append (yaml_string rule.duration) (
              append "\n        labels:\n          severity: " (
                append (yaml_string rule.severity) (
                  append "\n        annotations:\n          summary: " (
                    append (yaml_string rule.summary) (
                      append "\n          description: "
                        (append (yaml_string rule.description) "\n")))))))))))

-- The loop of renderAlertRulesYAML: the rules rendered and their number, or the first error.
unfoldable pub render_loop : (String → String) → List AlertRule → ℕ → Result (String × ℕ)
unfolding render_rule
render_loop yaml_string [] count = ok ("", count)
render_loop yaml_string (rule ∷ rules) count =
    let rest = render_loop yaml_string rules in
    if not rule.enabled then rest count else elim (validate_alert_rule_for_render rule) [
      | some e ↦ err e
      | none ↦ elim (rest (count + 1)) [
        | err e ↦ err e
        | ok (text, total) ↦ ok (
          append (if eqb count 0 then "    rules:\n" else "")
              (append (render_rule yaml_string rule) text),
          total,
        )
      ]
    ]

unfoldable pub render_alert_rules_yaml : (String → String) → List AlertRule → Result String
unfolding render_loop
render_alert_rules_yaml yaml_string rules = elim (render_loop yaml_string rules 0) [
  | err e ↦ err e
  | ok (text, count) ↦ ok (
      append "groups:\n  - name: custom_alerts\n"
        (append text (if eqb count 0 then "    rules: []\n" else "")))
]
