-- ===== src/Rules/Sync.antt =====
-- The sync of server-web/api/handlers/alert_rules.go: the rules file that Prometheus reads is checked
-- before it is written, and put back if Prometheus cannot be reloaded.
use server_monitor.Base.{
  String, ◌≡◌, Bool, true, false, Option, none, some, ◌==◌, if◌then◌else◌, ◌⊎◌,
}
use server_monitor.Base.Text.{trim_space}
use server_monitor.Errors.{GoError, wrapped, Result, ok, err}

-- What the operating system, promtool and Prometheus answer. The state of the file is its content,
-- or `none` where there is no file.
pub record System : Type 0 where
  -- writeTempAlertRulesFile
  pub write_temp : String → Option GoError
  -- runPromtoolCheck of a file with this content
  pub promtool_check : String → Option GoError
  -- os.ReadFile failed for another reason than a missing file
  pub read_error : Option GoError
  -- os.WriteFile, the first time and when it restores: an error, and the file
  pub write_file : String → Option String → Option GoError × Option String
  pub write_back : String → Option String → Option GoError × Option String
  pub remove_file : Option String → Option GoError × Option String
  -- the POST to the reload URL
  pub reload : Option GoError

pub record SystemLaws (o : System) : Type 0 where
  pub written : (c : String) (f g : Option String) → o.write_file c f ≡ (none, g) → g ≡ some c
  pub written_back : (c : String) (f g : Option String) → o.write_back c f ≡ (none, g) → g ≡ some c
  pub removed : (f g : Option String) → o.remove_file f ≡ (none, g) → g ≡ none

-- The parts of alertRuleSyncResponse that say what happened, the error, and the file.
pub record Synced : Type 0 where
  pub error : Option GoError
  pub validated : Bool
  pub restored : Bool
  pub reloaded : Bool
  pub success : Bool
  pub file : Option String

abbrev failed_before : Bool → GoError → Option String → Synced
failed_before validated e file = record {
  error = some e;
  validated = validated;
  restored = false;
  reloaded = false;
  success = false;
  file = file;
}

abbrev is_nil : Option GoError → Bool
is_nil none = true
is_nil (some e) = false

module _ (o : System) where
  -- restoreRulesFile; a file that is not there is removed well
  restore_rules_file : Option String → Option String → Bool × Option String
  restore_rules_file (some previous) file =
      let (e, now) = o.write_back previous file in (is_nil e, now)
  restore_rules_file none none = (true, none)
  restore_rules_file none (some content) =
      let (e, now) = o.remove_file (some content) in (is_nil e, now)

  after_reload : Option GoError → Option String → Option String → Synced
  unfolding restore_rules_file
  after_reload none previous file = record {
    error = none;
    validated = true;
    restored = false;
    reloaded = true;
    success = true;
    file = file;
  }
  after_reload (some e) previous file =
      let (restored, now) = restore_rules_file previous file in
      record {
        error = some (wrapped "reload prometheus" e);
        validated = true;
        restored = restored;
        reloaded = false;
        success = false;
        file = now;
      }

  after_write : String → Option String → Option GoError × Option String → Synced
  unfolding after_reload
  after_write reload_url previous (some e, file) =
      failed_before true (wrapped "write alert rules file" e) file
  after_write reload_url previous (none, file) =
      if reload_url == ""
      then record {
        error = none;
        validated = true;
        restored = false;
        reloaded = false;
        success = true;
        file = file;
      }
      else after_reload o.reload previous file

  after_read : String → String → Option GoError → Option String → Synced
  unfolding after_write
  after_read reload_url rendered (some e) file =
      failed_before true (wrapped "read current alert rules file" e) file
  after_read reload_url rendered none file =
      after_write reload_url file (o.write_file rendered file)

  after_check : String → String → Option GoError → Option String → Synced
  unfolding after_read
  after_check reload_url rendered (some e) file = failed_before false e file
  after_check reload_url rendered none file = after_read reload_url rendered o.read_error file

  after_temp : String → String → Option GoError → Option String → Synced
  unfolding after_check
  after_temp reload_url rendered (some e) file = failed_before false e file
  after_temp reload_url rendered none file =
      after_check reload_url rendered (o.promtool_check rendered) file

  -- syncAlertRules on what renderAlertRulesYAML returned
  unfoldable pub sync_alert_rules : String → Result String → Option String → Synced
  unfolding after_temp
  sync_alert_rules reload_url (err e) file = failed_before false e file
  sync_alert_rules reload_url (ok rendered) file =
      after_temp (trim_space reload_url) rendered (o.write_temp rendered) file

  -- What a sync has done, for a reload URL that is trimmed.
  pub record Sound (reload_url : String) (rendered : Result String) (file : Option String)
      (r : Synced) : Type 0 where
    pub success_file :
        r.success ≡ true
        → (text : String) × (rendered ≡ ok text)
          × (r.file ≡ some text)
          × (o.promtool_check text ≡ none)
    pub success_error : r.success ≡ is_nil r.error
    pub success_reload : r.success ≡ true → ((reload_url == "") ≡ true) ⊎ (r.reloaded ≡ true)
    pub unvalidated : r.validated ≡ false → r.file ≡ file
    pub restored_file : r.restored ≡ true → r.file ≡ file
