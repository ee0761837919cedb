-- ===== src/HostGroups/Memory.antt =====
-- The tables of host groups in memory: a database that meets the laws.
use server_monitor.Base.{
  ℕ, ◌<◌, ◌+◌, ◌≤◌, max, String, ◌≡◌, refl, ap, false, not, ◌&&◌, Option, none, some, List, [], ◌∷◌,
  ◌++◌, map, ◌==◌, eqb, arith, filter_by, if◌then◌else◌, Bool-cases, inl, inr,
}
use server_monitor.Errors.{ok}
use server_monitor.HostGroups.{
  HostGroup, HostGroupMember, Tables, has_group, members_of, replace_group,
}
use server_monitor.HostGroups.Database.{Database, DatabaseLaws, Loaded, IsInserted, Found}

abbrev next_id : List HostGroup → ℕ
next_id [] = 1
next_id (g ∷ groups) = max (g.id + 1) (next_id groups)

abbrev loaded : List HostGroupMember → List HostGroup → List Loaded
loaded members [] = []
loaded members (g ∷ groups) = (g, members_of g.id members) ∷ loaded members groups

abbrev find : ℕ → List HostGroupMember → List HostGroup → Option Loaded
find id members [] = none
find id members (g ∷ groups) =
    let rest = find id members groups in
    if eqb g.id id then some (g, members_of g.id members) else rest

abbrev new_member : ℕ → String → HostGroupMember
new_member id name = record { id = 1; group_id = id; instance = name; created_at = 0 }

abbrev deleted_members : ℕ → String → Tables → Tables
deleted_members id name t = record t {
  members = filter_by (λ m. not (eqb m.group_id id && (m.instance == name))) t.members;
}

abbrev pub memory : Database
memory = record {
  State = Tables;
  find_all = λ t. ok (loaded t.members t.groups);
  first = λ id t. ok (find id t.members t.groups);
  create_group = λ name description t.
      let g : HostGroup = record {
        id = next_id t.groups;
        name = name;
        description = description;
        created_at = 0;
        updated_at = 0;
      } in
      (ok g, record t { groups = g ∷ t.groups });
  create_members =
      λ id names t. (none, record t { members = map (new_member id) names ++ t.members });
  create_member =
      λ id name t. (ok (new_member id name), record t { members = new_member id name ∷ t.members });
  save_group =
      λ g t. (none, record t { groups = replace_group (record g { updated_at = 0 }) t.groups });
  delete_group = λ id t. (
    none,
    record {
      groups = filter_by (λ g. not (eqb g.id id)) t.groups;
      members = filter_by (λ m. not (eqb m.group_id id)) t.members;
    },
  );
  delete_members = λ id name t. (ok 1, deleted_members id name t);
  pluck_instances = λ id t. ok (map (λ m. m.instance) (members_of id t.members));
  begin = λ t. none;
  rollback = λ before now. before;
  commit = λ before now. (none, now);
}

pub has_group-next_id :
    (id : ℕ) (groups : List HostGroup) → next_id groups ≤ id → has_group id groups ≡ false
unfolding has_group
has_group-next_id id [] h = refl
has_group-next_id id (g ∷ groups) h = ground (arith, has_group-next_id id groups (omega (arith, h)))

pub next_id-pos : (groups : List HostGroup) → 0 < next_id groups
next_id-pos [] = omega arith
next_id-pos (g ∷ groups) = omega (arith, next_id-pos groups)

pub map-IsInserted :
    (id : ℕ) (names : List String) → IsInserted id names (map (new_member id) names)
unfolding IsInserted
map-IsInserted id [] = tt
map-IsInserted id (name ∷ names) = (refl, refl, map-IsInserted id names)

Found-cons :
    (id : ℕ) (g : HostGroup) (members : List HostGroupMember) (groups : List HostGroup)
    (answer : Option Loaded)
    → eqb g.id id ≡ false
    → Found id (record { groups = groups; members = members }) (ok answer)
    → Found id (record { groups = g ∷ groups; members = members }) (ok answer)
unfolding has_group
Found-cons id g members groups none n f = rw n f
Found-cons id g members groups (some (h, loaded)) n f = (f.0, ground arith, f.2)

pub find-Found :
    (id : ℕ) (members : List HostGroupMember) (groups : List HostGroup)
    → Found id (record { groups = groups; members = members }) (ok (find id members groups))
unfolding has_group
find-Found id members [] = refl
find-Found id members (g ∷ groups) = elim (Bool-cases (eqb g.id id)) [
  | inl y ↦
      let e : g.id ≡ id = ground arith in rw y (e, rw y refl, ap (λ k. members_of k members) e)
  | inr n ↦
      rw n
        (Found-cons id g members groups (find id members groups) n (find-Found id members groups))
]

unfoldable pub memory_laws : DatabaseLaws memory
memory_laws = record {
  tables = λ t. t;
  first_found = λ id t. find-Found id t.members t.groups;
  group_created = λ name description t. (
    refl,
    refl,
    refl,
    has_group-next_id (next_id t.groups) t.groups (omega arith),
    next_id-pos t.groups,
  );
  members_created = λ id names t. (map (new_member id) names, map-IsInserted id names, refl);
  member_created = λ id name t. (refl, refl, refl);
  group_saved = λ g t. (0, refl);
  group_deleted = λ id t. refl;
  members_deleted = λ id name t. refl;
  plucked = λ id t x. refl;
  rolled_back = λ before now. refl;
  committed = λ before now. refl;
}
