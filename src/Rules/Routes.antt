-- ===== src/Rules/Routes.antt =====
-- The routes of server-web/api/handlers/alert_rules.go on the table of rules. A body that is no JSON of
-- the expected kind is `none`; the handlers run one after the other.
pub mod Stored
mod Tests
use server_monitor.Base.{
  ℕ, String, ◌≡◌, Bool, true, false, not, Option, none, some, List, [], ◌∷◌, ◌==◌, eqb, map,
  filter_by, if◌then◌else◌, All,
}
use server_monitor.Base.Text.{trim_space}
use server_monitor.Base.Numbers.{parse_uint}
use server_monitor.Errors.{GoError, Result, ok, err, error_text}
use server_monitor.Rules.{
  AlertRule, AlertRuleRequest, normalize_alert_rule_request, render_alert_rules_yaml,
}
use server_monitor.Rules.Sync.{System, Synced, sync_alert_rules}

-- A row: the id, and the rule.
abbrev pub Row : Type 0
Row = ℕ × AlertRule

-- The table as gorm and MySQL give it; `ok none` is ErrRecordNotFound.
pub record RuleTable : Type 1 where
  pub State : Type 0
  pub find_all : State → Result (List Row)
  pub find_enabled : State → Result (List Row)
  pub first : ℕ → State → Result (Option Row)
  pub create : AlertRule → State → Result Row × State
  pub save : Row → State → Option GoError × State
  pub delete : ℕ → State → Option GoError × State

abbrev pub replace_row : Row → List Row → List Row
replace_row row rows = map (λ r. if eqb r.0 row.0 then row else r) rows

abbrev pub RowCreated : AlertRule → List Row → List Row → Result Row → Type 0
RowCreated rule before after (err e) = after ≡ before
RowCreated rule before after (ok row) = (after ≡ row ∷ before) × (row.1 ≡ rule)

abbrev pub RowSaved : Row → List Row → List Row → Option GoError → Type 0
RowSaved row before after (some e) = after ≡ before
RowSaved row before after none = after ≡ replace_row row before

abbrev pub RowDeleted : ℕ → List Row → List Row → Option GoError → Type 0
RowDeleted id before after (some e) = after ≡ before
RowDeleted id before after none = after ≡ filter_by (λ r. not (eqb r.0 id)) before

-- A query gives rows of the table: what holds of all rows holds of those that it gives.
abbrev pub given : Result (List Row) → List Row
given (err e) = []
given (ok rows) = rows

abbrev pub Queried : List Row → Result (List Row) → Type 1
Queried rows r = (P : Row → Type 0) → All P rows → All P (given r)

-- What the statements do to the rows.
pub record RuleTableLaws (T : RuleTable) : Type 1 where
  pub rows : T.State → List Row
  pub enabled_queried : (s : T.State) → Queried (rows s) (T.find_enabled s)
  pub row_created :
      (rule : AlertRule) (s : T.State)
      → RowCreated rule (rows s) (rows (T.create rule s).1) (T.create rule s).0
  pub row_saved :
      (row : Row) (s : T.State) → RowSaved row (rows s) (rows (T.save row s).1) (T.save row s).0
  pub row_deleted :
      (id : ℕ) (s : T.State) → RowDeleted id (rows s) (rows (T.delete id s).1) (T.delete id s).0

pub data Request : Type 0 where
  list_alert_rules : Request
  get_alert_rule : String → Request
  create_alert_rule : Option AlertRuleRequest → Request
  update_alert_rule : String → Option AlertRuleRequest → Request
  delete_alert_rule : String → Request
  sync_rules : Request

pub data Body : Type 0 where
  error_body : String → Body
  rule_list : List Row → Body
  rule_body : Row → Body
  sync_body : Synced → Body
  no_content : Body

pub record Response : Type 0 where
  pub status : ℕ
  pub body : Body

abbrev pub failed_with : ℕ → String → Response
failed_with code text = record { status = code; body = error_body text }

-- A check of a handler: it goes on with a value, or the handler has answered.
pub data Checked (A : Type 0) : Type 0 where
  passes_with : A → Checked A
  answered : Response → Checked A

infixl 5 ◌>>=◌
abbrev pub ◌>>=◌ : {A B : Type 0} → Checked A → (A → Checked B) → Checked B
passes_with a >>= next = next a
answered r >>= next = answered r

-- How a handler goes on after its checks.
abbrev pub answer_with : {A S : Type 0} → Checked A → (A → S → Response × S) → S → Response × S
answer_with (passes_with a) rest s = rest a s
answer_with (answered r) rest s = (r, s)

-- requireDB
unfoldable pub require_db : Bool → Checked (Unit {0})
require_db true = passes_with tt
require_db false = answered (failed_with 503 "database unavailable")

positive_id : Option ℕ → Checked ℕ
positive_id none = answered (failed_with 400 "invalid id")
positive_id (some id) = if eqb id 0 then answered (failed_with 400 "invalid id") else passes_with id

-- parseIDParam
unfoldable pub parse_id_param : String → Checked ℕ
unfolding positive_id
parse_id_param raw = positive_id (parse_uint (trim_space raw))

rule_of : Result AlertRule → Checked AlertRule
rule_of (err e) = answered (failed_with 400 (error_text e))
rule_of (ok rule) = passes_with rule

-- ShouldBindJSON and normalizeAlertRuleRequest
unfoldable pub bound_rule : Option AlertRuleRequest → Checked AlertRule
unfolding rule_of normalize_alert_rule_request error_text
bound_rule none = answered (failed_with 400 "invalid alert rule request")
bound_rule (some req) = rule_of (normalize_alert_rule_request req)

-- What of Handler.ruleSync the route looks at.
pub record SyncConfig : Type 0 where
  pub enabled : Bool
  pub file_path : String
  pub reload_url : String

module _ (T : RuleTable) (o : System) (yaml_string : String → String) (has_db : Bool)
    (cfg : SyncConfig) where
  -- The table, and the file of the rules.
  abbrev pub Store : Type 0
  Store = T.State × Option String

  found : Result (Option Row) → Checked Row
  found (err e) = answered (failed_with 500 "query alert rule failed")
  found (ok none) = answered (failed_with 404 "alert rule not found")
  found (ok (some row)) = passes_with row

  -- findAlertRule
  unfoldable pub find_alert_rule : ℕ → Store → Checked Row
  unfolding found
  find_alert_rule id (s, file) = found (T.first id s)

  listed : Result (List Row) → Response
  listed (err e) = failed_with 500 "list alert rules failed"
  listed (ok rows) = record { status = 200; body = rule_list rows }

  created : Option String → Result Row × T.State → Response × Store
  created file (err e, t) = (failed_with 409 "create alert rule failed", (t, file))
  created file (ok row, t) = (record { status = 201; body = rule_body row }, (t, file))

  updated : Option String → Row → Option GoError × T.State → Response × Store
  updated file row (some e, t) = (failed_with 409 "update alert rule failed", (t, file))
  updated file row (none, t) = (record { status = 200; body = rule_body row }, (t, file))

  deleted : Option String → Option GoError × T.State → Response × Store
  deleted file (some e, t) = (failed_with 500 "delete alert rule failed", (t, file))
  deleted file (none, t) = (record { status = 204; body = no_content }, (t, file))

  get_checks : String → Store → Checked Row
  unfolding require_db parse_id_param find_alert_rule
  get_checks raw s = do _ ← require_db has_db; id ← parse_id_param raw; find_alert_rule id s

  create_checks : Option AlertRuleRequest → Checked AlertRule
  unfolding require_db bound_rule
  create_checks body = do _ ← require_db has_db; bound_rule body

  -- All fields of the rule are taken from the request; the row keeps its id.
  update_checks : String → Option AlertRuleRequest → Store → Checked Row
  unfolding require_db parse_id_param bound_rule find_alert_rule
  update_checks raw body s = do
    _ ← require_db has_db
    id ← parse_id_param raw
    rule ← bound_rule body
    (row_id, _) ← find_alert_rule id s
    passes_with (row_id, rule)

  delete_checks : String → Store → Checked ℕ
  unfolding require_db parse_id_param find_alert_rule
  delete_checks raw s = do
    _ ← require_db has_db
    id ← parse_id_param raw
    _ ← find_alert_rule id s
    passes_with id

  sync_configured : Checked (Unit {0})
  sync_configured =
      if not cfg.enabled
      then answered (failed_with 503 "alert rule sync is disabled")
      else if trim_space cfg.file_path == ""
      then answered (failed_with 503 "alert rule sync is not configured")
      else passes_with tt

  sync_checks : Checked (Unit {0})
  unfolding require_db sync_configured
  sync_checks = do _ ← require_db has_db; sync_configured

  synced : T.State → Synced → Response × Store
  synced s r = (
    record { status = elim r.error [ none ↦ 200 | some e ↦ 502 ]; body = sync_body r },
    (s, r.file),
  )

  sync_found : Result (List Row) → Store → Response × Store
  unfolding synced sync_alert_rules render_alert_rules_yaml
  sync_found (err e) s = (failed_with 500 "list enabled alert rules failed", s)
  sync_found (ok rows) (s, file) = synced s (
      sync_alert_rules o cfg.reload_url
        (render_alert_rules_yaml yaml_string (map (λ row. row.1) rows)) file)

  unfoldable pub handle : Request → Store → Response × Store
  unfolding listed created updated deleted get_checks create_checks update_checks delete_checks
      sync_checks sync_found require_db
  handle list_alert_rules s =
      answer_with (require_db has_db) (λ _ t. (listed (T.find_all t.0), t)) s
  handle (get_alert_rule raw) s =
      answer_with (get_checks raw s) (λ row t. (record { status = 200; body = rule_body row }, t)) s
  handle (create_alert_rule body) s =
      answer_with (create_checks body) (λ rule t. created t.1 (T.create rule t.0)) s
  handle (update_alert_rule raw body) s =
      answer_with (update_checks raw body s) (λ row t. updated t.1 row (T.save row t.0)) s
  handle (delete_alert_rule raw) s =
      answer_with (delete_checks raw s) (λ id t. deleted t.1 (T.delete id t.0)) s
  handle sync_rules s = answer_with sync_checks (λ _ t. sync_found (T.find_enabled t.0) t) s

  -- Requests, one after the other.
  unfoldable pub handle_all : List Request → Store → Store
  unfolding handle
  handle_all [] s = s
  handle_all (req ∷ reqs) s = handle_all reqs (handle req s).1
