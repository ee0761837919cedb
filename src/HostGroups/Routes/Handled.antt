-- ===== src/HostGroups/Routes/Handled.antt =====
-- The handlers of the routes, with their checks.
use server_monitor.Base.{
  ℕ, String, len, ◌≡◌, refl, Bool, true, false, Option, none, some, List, ltb, All,
}
use server_monitor.Errors.{Result, ok, err}
use server_monitor.Times.{Time}
use server_monitor.HostGroups.{
  HostGroup, HostGroupRequest, Tables, Reply, proceed, answered, has_group, normalize_instance,
  normalize_host_group_request,
}
use server_monitor.HostGroups.Database.{Database, DatabaseLaws, Loaded, Found}
use server_monitor.HostGroups.Instances.{
  IsText, normalize_instance-inv, normalize_instances-names, normalize_host_group_request-inv,
}
use server_monitor.HostGroups.Consistent.{IsConsistent}
use server_monitor.HostGroups.Steps.{
  Request, list_host_groups, get_host_group, create_host_group, update_host_group,
  delete_host_group, add_host_group_member, delete_host_group_member, require_db, parse_id_param,
  bound,
}
use server_monitor.HostGroups.Routes.{
  find_host_group, found, create_in_transaction, create_checks, update_checks, get_checks,
  delete_checks, member_checks, handle,
}
use server_monitor.HostGroups.Routes.Kept.{
  Keeps, Yields, Yields-unit, >>=-Yields, answer_with_keeps, create_in_transaction-Keeps,
  created-Keeps, updated-Keeps, deleted-Keeps, member_added-Keeps, member_deleted-Keeps,
}

abbrev ValidRequest : String × String × List String → Type 0
ValidRequest (name, description, names) =
    IsText 128 name × (ltb 512 (len description) ≡ false) × All (IsText 256) names

abbrev ValidUpdate : ℕ × String × String × HostGroup → Type 0
ValidUpdate (id, name, description, group) = IsText 128 name × (ltb 512 (len description) ≡ false)

abbrev ValidMember : Tables → ℕ × String → Type 0
ValidMember t (id, name) = IsText 256 name × (has_group id t.groups ≡ true)

request-valid : (req : HostGroupRequest) → Yields ValidRequest (normalize_host_group_request req)
request-valid req = go (normalize_host_group_request req) refl
  where
    go :
        (r : Reply (String × String × List String))
        → normalize_host_group_request req ≡ r
        → Yields ValidRequest r
    go (answered r) e = tt
    go (proceed (name, description, names)) e =
        let (_, _, n, d, i) = normalize_host_group_request-inv req name description names e in
        (n, d, (normalize_instances-names req.instances names i).0)

module _ (rfc3339 : Time → String) (D : Database) (has_db : Bool) (laws : DatabaseLaws D) where
  open D use {State}
  open laws use {tables}

  found-inv :
      (id : ℕ) (t : Tables) (r : Result (Option Loaded)) (loaded : Loaded)
      → Found id t r
      → found rfc3339 D has_db r ≡ proceed loaded
      → has_group id t.groups ≡ true
  unfolding found
  found-inv id t (err e) loaded f h = cc
  found-inv id t (ok none) loaded f h = cc
  found-inv id t (ok (some (g, members))) loaded f h = f.1

  create_checks-valid :
      (body : Option HostGroupRequest) → Yields ValidRequest (create_checks rfc3339 D has_db body)
  unfolding create_checks
  create_checks-valid body = >>=-Yields ValidRequest (require_db has_db) _ (λ u _.
      >>=-Yields ValidRequest (bound "invalid host group request" body) _
        (λ req _. request-valid req))

  update_checks-valid :
      (raw : String) (body : Option HostGroupRequest) (s : State)
      → Yields ValidUpdate (update_checks rfc3339 D has_db raw body s)
  unfolding update_checks
  update_checks-valid raw body s = >>=-Yields ValidUpdate (require_db has_db) _ (λ u _.
      >>=-Yields ValidUpdate (parse_id_param raw) _ (λ id _.
        >>=-Yields ValidUpdate (bound "invalid host group request" body) _ (λ req _.
          >>=-Yields ValidUpdate (normalize_host_group_request req) _
            (λ (name, description, names) n.
              >>=-Yields ValidUpdate (find_host_group rfc3339 D has_db id s) _
                (λ (group, members) f.
                  let (_, _, n', d, _) =
                    normalize_host_group_request-inv req name description names n in
                  (n', d))))))

  member_checks-valid :
      (raw : String) (body : Option String) (s : State)
      → Yields (ValidMember (tables s)) (member_checks rfc3339 D has_db raw body s)
  unfolding member_checks find_host_group
  member_checks-valid raw body s =
      let Q = ValidMember (tables s) in
      >>=-Yields Q (require_db has_db) _ (λ u _. >>=-Yields Q (parse_id_param raw) _ (λ id _.
        >>=-Yields Q (bound "invalid host group member request" body) _ (λ req _.
          >>=-Yields Q (normalize_instance req) _ (λ name n.
            >>=-Yields Q (find_host_group rfc3339 D has_db id s) _ (λ loaded f. (
              (normalize_instance-inv req name n).1,
              found-inv id (tables s) (D.first id s) loaded (laws.first_found id s) f,
            ))))))

  -- A request to any of the seven routes of host groups, whatever it holds and whatever the
  -- database answers, leaves the tables consistent if they were: each group with a name of 1 to 128
  -- bytes and a description of at most 512, each member with an instance of 1 to 256 bytes and of
  -- a group that exists. This needs that a statement does to the rows what it says or fails and
  -- changes none, and that deleting a group deletes its members.
  pub handle-IsConsistent :
      (request : Request) (s : State)
      → IsConsistent (tables s)
      → IsConsistent (tables (handle rfc3339 D has_db request s).1)
  unfolding handle
  handle-IsConsistent list_host_groups s c =
      answer_with_keeps (Keeps rfc3339 D has_db laws) (λ a. Unit {0}) (require_db has_db) _ s c
        (Yields-unit (require_db has_db)) (λ a y. c)
  handle-IsConsistent (get_host_group raw) s c =
      answer_with_keeps (Keeps rfc3339 D has_db laws) (λ a. Unit {0})
        (get_checks rfc3339 D has_db raw s) _ s c (Yields-unit (get_checks rfc3339 D has_db raw s))
        (λ a y. c)
  handle-IsConsistent (create_host_group body) s c =
      answer_with_keeps (Keeps rfc3339 D has_db laws) ValidRequest
        (create_checks rfc3339 D has_db body) _ s c (create_checks-valid body)
        (λ (name, description, names) (n, d, i).
          created-Keeps rfc3339 D has_db laws
            (create_in_transaction rfc3339 D has_db name description names s)
            (create_in_transaction-Keeps rfc3339 D has_db laws name description names s n d i c))
  handle-IsConsistent (update_host_group raw body) s c =
      answer_with_keeps (Keeps rfc3339 D has_db laws) ValidUpdate
        (update_checks rfc3339 D has_db raw body s) _ s c (update_checks-valid raw body s)
        (λ (id, name, description, group) valid.
          let saved = record group { name = name; description = description } in
          updated-Keeps rfc3339 D has_db laws id saved (tables s) (D.save_group saved s) valid c
            (laws.group_saved saved s))
  handle-IsConsistent (delete_host_group raw) s c =
      answer_with_keeps (Keeps rfc3339 D has_db laws) (λ a. Unit {0})
        (delete_checks rfc3339 D has_db raw s) _ s c
        (Yields-unit (delete_checks rfc3339 D has_db raw s))
        (λ id y.
          deleted-Keeps rfc3339 D has_db laws id (tables s) (D.delete_group id s) c
            (laws.group_deleted id s))
  handle-IsConsistent (add_host_group_member raw body) s c =
      answer_with_keeps (Keeps rfc3339 D has_db laws) (ValidMember (tables s))
        (member_checks rfc3339 D has_db raw body s) _ s c (member_checks-valid raw body s)
        (λ (id, name) (n, has).
          member_added-Keeps rfc3339 D has_db laws id name (tables s) (D.create_member id name s) n
            has c (laws.member_created id name s))
  handle-IsConsistent (delete_host_group_member raw body) s c =
      answer_with_keeps (Keeps rfc3339 D has_db laws) (ValidMember (tables s))
        (member_checks rfc3339 D has_db raw body s) _ s c (member_checks-valid raw body s)
        (λ (id, name) valid.
          member_deleted-Keeps rfc3339 D has_db laws id name (tables s) (D.delete_members id name s)
            c (laws.members_deleted id name s))
