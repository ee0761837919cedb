-- ===== src/Rules/Routes/Stored.antt =====
-- The rules that the routes store, and what a sync reads of them.
use server_monitor.Base.{
  ℕ, String, ◌≡◌, refl, sym, subst, Bool, not, Option, none, some, List, [], ◌∷◌, eqb, map,
  filter_by, All, Bool-cases, inl, inr,
}
use server_monitor.Errors.{GoError, Result, ok, err}
use server_monitor.Rules.{
  AlertRule, AlertRuleRequest, normalize_alert_rule_request, render_alert_rules_yaml,
}
use server_monitor.Rules.Accepted.{FromApi, render_alert_rules_yaml-ok}
use server_monitor.Rules.Sync.{System}
use server_monitor.Rules.Routes.{
  Row, RuleTable, RuleTableLaws, replace_row, RowCreated, RowSaved, RowDeleted, given, Request,
  list_alert_rules, get_alert_rule, create_alert_rule, update_alert_rule, delete_alert_rule,
  sync_rules, Response, Checked, passes_with, answered, ◌>>=◌, answer_with, rule_of, bound_rule,
  SyncConfig, Store, require_db, parse_id_param, find_alert_rule, created, updated, deleted,
  create_checks, update_checks, delete_checks, get_checks, sync_checks, sync_found, synced, handle,
  handle_all,
}

-- A row whose rule the API made.
abbrev pub Made : Row → Type 0
Made row = FromApi row.1

-- What holds of the value with which a check passes.
abbrev Passing : {A : Type 0} → (A → Type 0) → Checked A → Type 0
Passing Q (passes_with a) = Q a
Passing Q (answered r) = Unit

>>=-Passing :
    {A B : Type 0} (Q : B → Type 0) (m : Checked A) (f : A → Checked B)
    → ((a : A) → m ≡ passes_with a → Passing Q (f a))
    → Passing Q (m >>= f)
>>=-Passing Q (passes_with a) f h = h a refl
>>=-Passing Q (answered r) f h = tt

answer_with_keeps :
    {A S : Type 0} (P : S → Type 0) (Q : A → Type 0) (r : Checked A) (rest : A → S → Response × S)
    (s : S)
    → P s
    → Passing Q r
    → ((a : A) → Q a → P (rest a s).1)
    → P (answer_with r rest s).1
answer_with_keeps P Q (passes_with a) rest s h y k = k a y
answer_with_keeps P Q (answered r) rest s h y k = h

Passing-unit : {A : Type 0} (r : Checked A) → Passing (λ a. Unit {0}) r
Passing-unit (passes_with a) = tt
Passing-unit (answered r) = tt

-- A rule that is bound is one that the API made.
bound_rule-FromApi : (body : Option AlertRuleRequest) → Passing FromApi (bound_rule body)
unfolding bound_rule rule_of
bound_rule-FromApi none = tt
bound_rule-FromApi (some req) = by_result (normalize_alert_rule_request req) refl
  where
    by_result :
        (r : Result AlertRule) → normalize_alert_rule_request req ≡ r → Passing FromApi (rule_of r)
    by_result (err e) h = tt
    by_result (ok rule) h = (req, h)

replace_row-Made :
    (row : Row) (rows : List Row) → Made row → All Made rows → All Made (replace_row row rows)
replace_row-Made row [] m h = tt
replace_row-Made row (r ∷ rows) m h = (
  elim (Bool-cases (eqb r.0 row.0)) [ inl y ↦ rw y m | inr n ↦ rw n h.0 ],
  replace_row-Made row rows m h.1,
)

filter_by-Made : (p : Row → Bool) (rows : List Row) → All Made rows → All Made (filter_by p rows)
unfolding filter_by
filter_by-Made p [] h = tt
filter_by-Made p (r ∷ rows) h = elim (Bool-cases (p r)) [
  | inl y ↦ rw y (h.0, filter_by-Made p rows h.1)
  | inr n ↦ rw n (filter_by-Made p rows h.1)
]

created-Made :
    (rule : AlertRule) (before after : List Row) (r : Result Row)
    → FromApi rule
    → RowCreated rule before after r
    → All Made before
    → All Made after
created-Made rule before after (err e) m same h = subst (All Made) (sym same) h
created-Made rule before after (ok row) m (same, is_rule) h =
    subst (All Made) (sym same) (subst FromApi (sym is_rule) m, h)

saved-Made :
    (row : Row) (before after : List Row) (r : Option GoError)
    → Made row
    → RowSaved row before after r
    → All Made before
    → All Made after
saved-Made row before after (some e) m same h = subst (All Made) (sym same) h
saved-Made row before after none m same h =
    subst (All Made) (sym same) (replace_row-Made row before m h)

deleted-Made :
    (id : ℕ) (before after : List Row) (r : Option GoError)
    → RowDeleted id before after r
    → All Made before
    → All Made after
deleted-Made id before after (some e) same h = subst (All Made) (sym same) h
deleted-Made id before after none same h =
    subst (All Made) (sym same) (filter_by-Made (λ r. not (eqb r.0 id)) before h)

module _ (T : RuleTable) (o : System) (yaml_string : String → String) (has_db : Bool)
    (cfg : SyncConfig) (laws : RuleTableLaws T) where
  open laws use {rows}

  abbrev pub Sound : Store T o yaml_string has_db cfg → Type 0
  Sound s = All Made (rows s.0)

  update_checks-Made :
      (raw : String) (body : Option AlertRuleRequest) (s : Store T o yaml_string has_db cfg)
      → Passing Made (update_checks T o yaml_string has_db cfg raw body s)
  unfolding update_checks
  update_checks-Made raw body s = >>=-Passing Made (require_db has_db) _ (λ u e.
      >>=-Passing Made (parse_id_param raw) _ (λ id e.
        >>=-Passing Made (bound_rule body) _ (λ rule bound.
          >>=-Passing Made (find_alert_rule T o yaml_string has_db cfg id s) _
            (λ row e. subst (Passing FromApi) bound (bound_rule-FromApi body)))))

  create_checks-FromApi :
      (body : Option AlertRuleRequest)
      → Passing FromApi (create_checks T o yaml_string has_db cfg body)
  unfolding create_checks
  create_checks-FromApi body =
      >>=-Passing FromApi (require_db has_db) _ (λ u e. bound_rule-FromApi body)

  created-Sound :
      (file : Option String) (r : Result Row × T.State)
      → All Made (rows r.1)
      → Sound (created T o yaml_string has_db cfg file r).1
  unfolding created
  created-Sound file (err e, t) h = h
  created-Sound file (ok row, t) h = h

  updated-Sound :
      (file : Option String) (row : Row) (r : Option GoError × T.State)
      → All Made (rows r.1)
      → Sound (updated T o yaml_string has_db cfg file row r).1
  unfolding updated
  updated-Sound file row (some e, t) h = h
  updated-Sound file row (none, t) h = h

  deleted-Sound :
      (file : Option String) (r : Option GoError × T.State)
      → All Made (rows r.1)
      → Sound (deleted T o yaml_string has_db cfg file r).1
  unfolding deleted
  deleted-Sound file (some e, t) h = h
  deleted-Sound file (none, t) h = h

  sync_found-Sound :
      (found : Result (List Row)) (s : Store T o yaml_string has_db cfg)
      → Sound s
      → Sound (sync_found T o yaml_string has_db cfg found s).1
  unfolding sync_found synced
  sync_found-Sound (err e) s h = h
  sync_found-Sound (ok found) (s, file) h = h

  handle-Sound :
      (req : Request) (s : Store T o yaml_string has_db cfg)
      → Sound s
      → Sound (handle T o yaml_string has_db cfg req s).1
  unfolding handle
  handle-Sound list_alert_rules s h =
      answer_with_keeps Sound (λ u. Unit {0}) (require_db has_db) _ s h
        (Passing-unit (require_db has_db)) (λ u y. h)
  handle-Sound (get_alert_rule raw) s h =
      let checks = get_checks T o yaml_string has_db cfg raw s in
      answer_with_keeps Sound (λ u. Unit {0}) checks _ s h (Passing-unit checks) (λ u y. h)
  handle-Sound (create_alert_rule body) s h =
      answer_with_keeps Sound FromApi (create_checks T o yaml_string has_db cfg body) _ s h
        (create_checks-FromApi body)
        (λ rule made.
          created-Sound s.1 (T.create rule s.0) (
            created-Made rule (rows s.0) _ (T.create rule s.0).0 made (laws.row_created rule s.0)
              h))
  handle-Sound (update_alert_rule raw body) s h =
      answer_with_keeps Sound Made (update_checks T o yaml_string has_db cfg raw body s) _ s h
        (update_checks-Made raw body s)
        (λ row made.
          updated-Sound s.1 row (T.save row s.0)
            (saved-Made row (rows s.0) _ (T.save row s.0).0 made (laws.row_saved row s.0) h))
  handle-Sound (delete_alert_rule raw) s h =
      let checks = delete_checks T o yaml_string has_db cfg raw s in
      answer_with_keeps Sound (λ u. Unit {0}) checks _ s h (Passing-unit checks)
        (λ id y.
          deleted-Sound s.1 (T.delete id s.0)
            (deleted-Made id (rows s.0) _ (T.delete id s.0).0 (laws.row_deleted id s.0) h))
  handle-Sound sync_rules s h =
      let checks = sync_checks T o yaml_string has_db cfg in
      answer_with_keeps Sound (λ u. Unit {0}) checks _ s h (Passing-unit checks)
        (λ u y. sync_found-Sound (T.find_enabled s.0) s h)

  handle_all-Sound :
      (reqs : List Request) (s : Store T o yaml_string has_db cfg)
      → Sound s
      → Sound (handle_all T o yaml_string has_db cfg reqs s)
  unfolding handle_all
  handle_all-Sound [] s h = h
  handle_all-Sound (req ∷ reqs) s h = handle_all-Sound reqs _ (handle-Sound req s h)

  rules_of-FromApi : (found : List Row) → All Made found → All FromApi (map (λ row. row.1) found)
  rules_of-FromApi [] h = tt
  rules_of-FromApi (row ∷ found) h = (h.0, rules_of-FromApi found h.1)

  given_ok : (r : Result (List Row)) (found : List Row) → r ≡ ok found → given r ≡ found
  given_ok (ok known) found h = cc
  given_ok (err e) found h = absurd cc

  -- The table begins with rules that the API made, as an empty one does. After any requests it holds
  -- only such rules, and a sync that reads the enabled ones renders them: it never fails on a rule
  -- that is stored.
  pub handle_all-renders :
      (reqs : List Request) (s : Store T o yaml_string has_db cfg) (found : List Row)
      → Sound s
      → T.find_enabled (handle_all T o yaml_string has_db cfg reqs s).0 ≡ ok found
      → Sound (handle_all T o yaml_string has_db cfg reqs s)
        × ((text : String) × (render_alert_rules_yaml yaml_string (map (λ row. row.1) found)
              ≡ ok text))
  handle_all-renders reqs s found h e =
      let after = handle_all T o yaml_string has_db cfg reqs s in
      let sound = handle_all-Sound reqs s h in
      (
        sound,
        render_alert_rules_yaml-ok yaml_string (map (λ row. row.1) found) (
            rules_of-FromApi found (
              subst (All Made) (given_ok (T.find_enabled after.0) found e)
                (laws.enabled_queried after.0 Made sound))),
      )
