-- ===== src/HostGroups/Steps.antt =====
-- What the routes of host groups are asked, check and answer. A body that is no JSON of the
-- expected kind is `none`.
use server_monitor.Base.{
  ℕ, String, Bool, true, false, Option, none, some, [], eqb, length, map, if◌then◌else◌,
}
use server_monitor.Base.Text.{trim_space}
use server_monitor.Base.Numbers.{parse_uint}
use server_monitor.Times.{Time}
use server_monitor.HostGroups.{
  HostGroupMember, HostGroupRequest, HostGroupMemberResponse, HostGroupResponse, Response,
  failed_with, Reply, proceed, answered,
}
use server_monitor.HostGroups.Database.{Loaded}

pub data Request : Type 0 where
  list_host_groups : Request
  get_host_group : String → Request
  create_host_group : Option HostGroupRequest → Request
  update_host_group : String → Option HostGroupRequest → Request
  delete_host_group : String → Request
  add_host_group_member : String → Option String → Request
  delete_host_group_member : String → Option String → Request

-- requireDB
unfoldable pub require_db : Bool → Reply (Unit {0})
require_db true = proceed tt
require_db false = answered (failed_with 503 "database unavailable")

positive_id : Option ℕ → Reply ℕ
positive_id none = answered (failed_with 400 "invalid id")
positive_id (some id) = if eqb id 0 then answered (failed_with 400 "invalid id") else proceed id

unfoldable pub parse_id_param : String → Reply ℕ
unfolding positive_id
parse_id_param raw = positive_id (parse_uint (trim_space raw))

-- ShouldBindJSON
unfoldable pub bound : {A : Type 0} → String → Option A → Reply A
bound text none = answered (failed_with 400 text)
bound text (some req) = proceed req

-- How a handler goes on, or returns.
abbrev pub answer_with : {A S : Type 0} → Reply A → (A → S → Response × S) → S → Response × S
answer_with (proceed a) rest s = rest a s
answer_with (answered r) rest s = (r, s)

module _ (rfc3339 : Time → String) where
  unfoldable pub build_host_group_member_response : HostGroupMember → HostGroupMemberResponse
  build_host_group_member_response m = record {
    id = m.id;
    group_id = m.group_id;
    instance = m.instance;
    created_at = rfc3339 m.created_at;
  }

  unfoldable pub build_host_group_response : Loaded → Bool → HostGroupResponse
  unfolding build_host_group_member_response
  build_host_group_response (group, members) include_members = record {
    id = group.id;
    name = group.name;
    description = group.description;
    member_count = length members;
    members = if include_members then map build_host_group_member_response members else [];
    created_at = rfc3339 group.created_at;
    updated_at = rfc3339 group.updated_at;
  }
