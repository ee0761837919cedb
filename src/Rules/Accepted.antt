-- ===== src/Rules/Accepted.antt =====
-- What the API accepts, the sync renders.
use server_monitor.Base.{
  ℕ, ◌+◌, String, len, ◌≡◌, refl, subst, true, false, ◌||◌, Option, none, some, List, [], ◌∷◌,
  arith, All, ◌==◌, eqb, ltb, if◌then◌else◌, Bool-cases, inl, inr,
}
use server_monitor.Base.Text.{append}
use server_monitor.Base.Keyed.{member}
use server_monitor.Errors.{GoError, Result, ok}
use server_monitor.Rules.{
  AlertRule, AlertRuleRequest, checked, finished, normalized, valid_severities,
  validate_alert_rule_expr, validate_alert_rule_duration, normalize_alert_rule_request,
  validate_alert_rule_for_render, render_rule, render_loop, render_alert_rules_yaml,
}

checked-inv :
    (o : Option GoError) (r : Result AlertRule) (rule : AlertRule)
    → checked o r ≡ ok rule
    → (o ≡ none) × (r ≡ ok rule)
unfolding checked
checked-inv none r rule h = (refl, h)
checked-inv (some e) r rule h = cc

finished-inv :
    (made rule : AlertRule)
    → finished made ≡ ok rule
    → (made ≡ rule)
      × (member made.severity valid_severities ≡ true)
      × (ltb 512 (len made.summary) ≡ false)
unfolding finished
finished-inv made rule h = elim (Bool-cases (member made.severity valid_severities)) [
  | inr bad ↦ absurd (ground arith)
  | inl severity_ok ↦ elim (Bool-cases (ltb 512 (len made.summary))) [
    | inl bad ↦ absurd (ground arith)
    | inr summary_ok ↦
        let e : Path (Result AlertRule) (ok made) (ok rule) =
          rw (finished, severity_ok, summary_ok) at h in
        (cc, severity_ok, summary_ok)
  ]
]

normalize-validates :
    (req : AlertRuleRequest) (rule : AlertRule)
    → normalize_alert_rule_request req ≡ ok rule
    → validate_alert_rule_for_render rule ≡ none
unfolding normalize_alert_rule_request
normalize-validates req rule h =
    let made = normalized req in
    elim (Bool-cases ((made.name == "") || ltb 128 (len made.name))) [
      | inl bad ↦ absurd (ground arith)
      | inr name_ok ↦
          let (expr_ok, rest) =
            checked-inv (validate_alert_rule_expr made.expr)
              (checked (validate_alert_rule_duration made.duration) (finished made)) rule
              (rw (normalize_alert_rule_request, name_ok) at h) in
          let (duration_ok, last) =
            checked-inv (validate_alert_rule_duration made.duration) (finished made) rule rest in
          let (same, severity_ok, summary_ok) = finished-inv made rule last in
          subst (λ r. validate_alert_rule_for_render r ≡ none) same
            (unfold validate_alert_rule_for_render in
              rw (name_ok, expr_ok, duration_ok, severity_ok, summary_ok) refl)
    ]

-- The rules that are enabled are such as the API makes.
abbrev pub FromApi : AlertRule → Type 0
FromApi rule = (req : AlertRuleRequest) × (normalize_alert_rule_request req ≡ ok rule)

render_loop-ok :
    (yaml_string : String → String) (rules : List AlertRule) (count : ℕ)
    → All FromApi rules
    → (text : String) × (total : ℕ) × (render_loop yaml_string rules count ≡ ok (text, total))
unfolding render_loop
render_loop-ok yaml_string [] count h = ("", count, refl)
render_loop-ok yaml_string (rule ∷ rules) count h =
    let valid : validate_alert_rule_for_render rule ≡ none = normalize-validates h.0.0 rule h.0.1 in
    elim (Bool-cases rule.enabled) [
      | inr off ↦
          let (text, total, e) = render_loop-ok yaml_string rules count h.1 in
          (text, total, rw (off, render_loop) e)
      | inl on ↦
          let (text, total, e) = render_loop-ok yaml_string rules (count + 1) h.1 in
          (
            append (if eqb count 0 then "    rules:\n" else "")
                (append (render_rule yaml_string rule) text),
            total,
            simp (on, valid, render_loop, e),
          )
    ]

-- Rules that went through the checks of the API are always rendered: a sync never fails on a rule
-- that was accepted.
pub render_alert_rules_yaml-ok :
    (yaml_string : String → String) (rules : List AlertRule)
    → All FromApi rules
    → (text : String) × (render_alert_rules_yaml yaml_string rules ≡ ok text)
unfolding render_alert_rules_yaml
render_alert_rules_yaml-ok yaml_string rules h =
    let (text, total, e) = render_loop-ok yaml_string rules 0 h in
    (
      append "groups:\n  - name: custom_alerts\n"
          (append text (if eqb total 0 then "    rules: []\n" else "")),
      rw (render_alert_rules_yaml, e) refl,
    )
