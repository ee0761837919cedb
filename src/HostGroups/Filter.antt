-- ===== src/HostGroups/Filter.antt =====
-- The group that a request for hosts is narrowed to: parseHostGroupFilter.
use server_monitor.Base.{ℕ, String, Bool, not, Option, none, some, List, ◌==◌, eqb, if◌then◌else◌}
use server_monitor.Base.Text.{trim_space}
use server_monitor.Base.Numbers.{parse_uint}
use server_monitor.Errors.{Result, ok, err}
use server_monitor.HostGroups.{Reply, proceed, answered, failed_with, ◌>>=◌}
use server_monitor.HostGroups.Database.{Database, Loaded}

unfoldable pub filter_id : Option ℕ → Reply ℕ
filter_id none = answered (failed_with 400 "invalid group")
filter_id (some id) = if eqb id 0 then answered (failed_with 400 "invalid group") else proceed id

module _ (D : Database) (has_db : Bool) where
  open D use {State}

  unfoldable pub group_known : Result (Option Loaded) → Reply (Unit {0})
  group_known (err e) = answered (failed_with 500 "query host group failed")
  group_known (ok none) = answered (failed_with 404 "host group not found")
  group_known (ok (some loaded)) = proceed tt

  unfoldable pub plucked_names : Result (List String) → Reply (Option (List String))
  plucked_names (err e) = answered (failed_with 500 "query host group members failed")
  plucked_names (ok names) = proceed (some names)

  -- `none` where no group is asked for, else the instances that are allowed.
  unfoldable pub parse_host_group_filter : String → State → Reply (Option (List String))
  unfolding filter_id group_known plucked_names
  parse_host_group_filter query s =
      let raw = trim_space query in
      if raw == ""
      then proceed none
      else if not has_db
      then answered (failed_with 503 "database unavailable")
      else (filter_id (parse_uint raw) >>= λ id.
          group_known (D.first id s) >>= λ _. plucked_names (D.pluck_instances id s))
