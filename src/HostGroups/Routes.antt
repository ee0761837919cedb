-- ===== src/HostGroups/Routes.antt =====
-- The routes of host groups. A body that is no JSON of the expected kind is `none`.
pub mod Kept
pub mod Handled
mod Created
mod Refused
pub mod Narrowed
use server_monitor.Base.{
  ℕ, String, Bool, true, false, Option, none, some, List, [], ◌∷◌, ◌==◌, eqb, length, map,
  if◌then◌else◌,
}
use server_monitor.Base.Text.{trim_space}
use server_monitor.Base.Numbers.{parse_uint}
use server_monitor.Errors.{GoError, Result, ok, err}
use server_monitor.Times.{Time}
use server_monitor.HostGroups.{
  HostGroup, HostGroupMember, HostGroupRequest, HostGroupMemberResponse, HostGroupResponse, Body,
  error_body, group_list, group_body, member_body, no_content, Response, failed_with, Reply,
  proceed, answered, ◌>>=◌, normalize_instance, normalize_host_group_request,
}
use server_monitor.HostGroups.Database.{Database, Loaded}
use server_monitor.HostGroups.Steps.{
  Request, list_host_groups, get_host_group, create_host_group, update_host_group,
  delete_host_group, add_host_group_member, delete_host_group_member, require_db, parse_id_param,
  bound, answer_with, build_host_group_member_response, build_host_group_response,
}

module _ (rfc3339 : Time → String) where
  module _ (D : Database) (has_db : Bool) where
    open D use {State}

    found : Result (Option Loaded) → Reply Loaded
    found (err e) = answered (failed_with 500 "query host group failed")
    found (ok none) = answered (failed_with 404 "host group not found")
    found (ok (some loaded)) = proceed loaded

    unfoldable pub find_host_group : ℕ → State → Reply Loaded
    unfolding found
    find_host_group id s = found (D.first id s)

    -- The group as it is read back after a change.
    show_group : ℕ → ℕ → State → Response × State
    unfolding find_host_group build_host_group_response
    show_group status id s =
        answer_with (find_host_group id s)
          (λ loaded t. (
            record {
              status = status;
              body = group_body (build_host_group_response rfc3339 loaded true);
            },
            t,
          ))
          s

    listed : Result (List Loaded) → Response
    unfolding build_host_group_response
    listed (err e) = failed_with 500 "list host groups failed"
    listed (ok groups) = record {
      status = 200;
      body = group_list (map (λ loaded. build_host_group_response rfc3339 loaded false) groups);
    }

    -- The id of the group goes along with the error of a statement.
    with_id : ℕ → Option GoError × State → Result ℕ × State
    with_id id (none, t) = (ok id, t)
    with_id id (some e, t) = (err e, t)

    -- The body of the transaction, with the id that the group was given.
    members_for : ℕ → List String → State → Result ℕ × State
    unfolding with_id
    members_for id [] s = (ok id, s)
    members_for id (name ∷ names) s = with_id id (D.create_members id (name ∷ names) s)

    group_and_members : List String → Result HostGroup × State → Result ℕ × State
    unfolding members_for
    group_and_members names (err e, t) = (err e, t)
    group_and_members names (ok g, t) = members_for g.id names t

    settled : State → Result ℕ × State → Result ℕ × State
    unfolding with_id
    settled before (err e, now) = (err e, D.rollback before now)
    settled before (ok id, now) = with_id id (D.commit before now)

    -- Transaction
    pub create_in_transaction : String → String → List String → State → Result ℕ × State
    unfolding group_and_members settled
    create_in_transaction name description names s = elim (D.begin s) [
      | some e ↦ (err e, s)
      | none ↦ settled s (group_and_members names (D.create_group name description s))
    ]

    pub created : Result ℕ × State → Response × State
    unfolding show_group
    created (err e, t) = (failed_with 409 "create host group failed", t)
    created (ok id, t) = show_group 201 id t

    pub updated : ℕ → Option GoError × State → Response × State
    unfolding show_group
    updated id (some e, t) = (failed_with 409 "update host group failed", t)
    updated id (none, t) = show_group 200 id t

    pub deleted : Option GoError × State → Response × State
    deleted (some e, t) = (failed_with 500 "delete host group failed", t)
    deleted (none, t) = (record { status = 204; body = no_content }, t)

    pub member_added : Result HostGroupMember × State → Response × State
    unfolding build_host_group_member_response
    member_added (err e, t) = (failed_with 409 "add host group member failed", t)
    member_added (ok m, t) = (
      record { status = 201; body = member_body (build_host_group_member_response rfc3339 m) },
      t,
    )

    pub member_deleted : Result ℕ × State → Response × State
    member_deleted (err e, t) = (failed_with 500 "delete host group member failed", t)
    member_deleted (ok count, t) = (
      if eqb count 0
          then failed_with 404 "host group member not found"
          else record { status = 204; body = no_content },
      t,
    )

    create_checks : Option HostGroupRequest → Reply (String × String × List String)
    unfolding bound require_db normalize_host_group_request
    create_checks body = do
      _ ← require_db has_db
      req ← bound "invalid host group request" body
      normalize_host_group_request req

    -- The checks of a route with an id and a body.
    update_checks :
        String → Option HostGroupRequest → State → Reply (ℕ × String × String × HostGroup)
    unfolding bound require_db parse_id_param normalize_host_group_request find_host_group
    update_checks raw body s = do
      _ ← require_db has_db
      id ← parse_id_param raw
      req ← bound "invalid host group request" body
      (name, description, _) ← normalize_host_group_request req
      (group, _) ← find_host_group id s
      proceed (id, name, description, group)

    get_checks : String → State → Reply Loaded
    unfolding require_db parse_id_param find_host_group
    get_checks raw s = do _ ← require_db has_db; id ← parse_id_param raw; find_host_group id s

    delete_checks : String → State → Reply ℕ
    unfolding require_db parse_id_param find_host_group
    delete_checks raw s = do
      _ ← require_db has_db
      id ← parse_id_param raw
      _ ← find_host_group id s
      proceed id

    member_checks : String → Option String → State → Reply (ℕ × String)
    unfolding bound require_db parse_id_param normalize_instance find_host_group
    member_checks raw body s = do
      _ ← require_db has_db
      id ← parse_id_param raw
      req ← bound "invalid host group member request" body
      name ← normalize_instance req
      _ ← find_host_group id s
      proceed (id, name)

    unfoldable pub handle : Request → State → Response × State
    unfolding listed create_checks create_in_transaction created update_checks updated get_checks
        delete_checks deleted member_checks member_added member_deleted build_host_group_response
        require_db
    handle list_host_groups s =
        answer_with (require_db has_db) (λ _ t. (listed (D.find_all t), t)) s
    handle (get_host_group raw) s =
        answer_with (get_checks raw s)
          (λ loaded t. (
            record {
              status = 200;
              body = group_body (build_host_group_response rfc3339 loaded true);
            },
            t,
          ))
          s
    handle (create_host_group body) s =
        answer_with (create_checks body)
          (λ (name, description, names) t. created (create_in_transaction name description names t))
          s
    handle (update_host_group raw body) s =
        answer_with (update_checks raw body s)
          (λ (id, name, description, group) t.
            updated id (D.save_group (record group { name = name; description = description }) t))
          s
    handle (delete_host_group raw) s =
        answer_with (delete_checks raw s) (λ id t. deleted (D.delete_group id t)) s
    handle (add_host_group_member raw body) s =
        answer_with (member_checks raw body s)
          (λ (id, name) t. member_added (D.create_member id name t)) s
    handle (delete_host_group_member raw body) s =
        answer_with (member_checks raw body s)
          (λ (id, name) t. member_deleted (D.delete_members id name t)) s
