-- ===== src/HostGroups.antt =====
-- server-web/api/handlers/host_groups.go and server-web/model/host_group.go: groups of hosts on two
-- tables. The routes are in HostGroups/Routes.
pub mod Database
pub mod Steps
pub mod Routes
pub mod Instances
pub mod Consistent
pub mod Filter
mod Memory
mod Tests
use server_monitor.Base.{
  ℕ, String, len, Bool, true, false, ◌||◌, List, [], ◌∷◌, ◌==◌, ltb, eqb, length, filter_by,
  if◌then◌else◌,
}
use server_monitor.Base.Text.{trim_space}
use server_monitor.Base.Keyed.{member}
use server_monitor.Times.{Time}

pub record HostGroup : Type 0 where
  pub id : ℕ
  pub name : String
  pub description : String
  pub created_at : Time
  pub updated_at : Time

pub record HostGroupMember : Type 0 where
  pub id : ℕ
  pub group_id : ℕ
  pub instance : String
  pub created_at : Time

pub record HostGroupRequest : Type 0 where
  pub name : String
  pub description : String
  pub instances : List String

pub record HostGroupMemberResponse : Type 0 where
  pub id : ℕ
  pub group_id : ℕ
  pub instance : String
  pub created_at : String

pub record HostGroupResponse : Type 0 where
  pub id : ℕ
  pub name : String
  pub description : String
  pub member_count : ℕ
  pub members : List HostGroupMemberResponse
  pub created_at : String
  pub updated_at : String

-- What is written to a client: the error's text, or the data.
pub data Body : Type 0 where
  error_body : String → Body
  group_list : List HostGroupResponse → Body
  group_body : HostGroupResponse → Body
  member_body : HostGroupMemberResponse → Body
  no_content : Body

pub record Response : Type 0 where
  pub status : ℕ
  pub body : Body

abbrev pub failed_with : ℕ → String → Response
failed_with status text = record { status = status; body = error_body text }

-- What a helper returns that may have answered the request itself: Go's `…, ok`.
pub data Reply {ℓ} (A : Type ℓ) : Type ℓ where
  proceed : A → Reply A
  answered : Response → Reply A

infixl 5 ◌>>=◌
abbrev pub ◌>>=◌ {ℓ κ} : {A : Type ℓ} {B : Type κ} → Reply A → (A → Reply B) → Reply B
proceed a >>= f = f a
answered r >>= f = answered r

unfoldable pub normalize_instance : String → Reply String
normalize_instance raw =
    let instance_name = trim_space raw in
    if (instance_name == "") || ltb 256 (len instance_name)
    then answered (failed_with 400 "instance must be 1-256 characters")
    else proceed instance_name

-- The loop of normalizeInstances, with the instances seen so far.
unfoldable pub instances_loop : List String → List String → Reply (List String)
unfolding normalize_instance member
instances_loop seen [] = proceed []
instances_loop seen (item ∷ raw) = normalize_instance item >>= λ name. elim (member name seen) [
  | true ↦ instances_loop seen raw
  | false ↦ instances_loop (name ∷ seen) raw >>= λ rest. proceed (name ∷ rest)
]

unfoldable pub normalize_instances : List String → Reply (List String)
unfolding instances_loop
normalize_instances raw = instances_loop [] raw

unfoldable pub normalize_host_group_request :
    HostGroupRequest → Reply (String × String × List String)
unfolding normalize_instances
normalize_host_group_request req =
    let name = trim_space req.name in
    let description = trim_space req.description in
    if (name == "") || ltb 128 (len name)
    then answered (failed_with 400 "name must be 1-128 characters")
    else if ltb 512 (len description)
    then answered (failed_with 400 "description must be at most 512 characters")
    else (normalize_instances req.instances >>= λ instances. proceed (name, description, instances))

-- The rows that are in the tables.
pub record Tables : Type 0 where
  pub groups : List HostGroup
  pub members : List HostGroupMember

unfoldable pub has_group : ℕ → List HostGroup → Bool
has_group id [] = false
has_group id (g ∷ groups) = if eqb g.id id then true else has_group id groups

unfoldable pub members_of : ℕ → List HostGroupMember → List HostGroupMember
unfolding filter_by
members_of id members = filter_by (λ m. eqb m.group_id id) members

unfoldable pub replace_group : HostGroup → List HostGroup → List HostGroup
replace_group new [] = []
replace_group new (g ∷ groups) =
    let rest = replace_group new groups in if eqb g.id new.id then new ∷ rest else g ∷ rest
