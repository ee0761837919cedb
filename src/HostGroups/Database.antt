-- ===== src/HostGroups/Database.antt =====
-- The tables of host groups as gorm and MySQL give them. An answer is an error or what was asked
-- for; a statement that fails changes no row.
use server_monitor.Base.{
  ℕ, ◌<◌, String, ◌≡◌, true, false, not, Option, none, some, List, [], ◌∷◌, ◌++◌, ◌&&◌, ◌==◌, eqb,
  filter_by, map,
}
use server_monitor.Base.Keyed.{member}
use server_monitor.Errors.{GoError, Result, ok, err}
use server_monitor.Times.{Time}
use server_monitor.HostGroups.{
  HostGroup, HostGroupMember, Tables, has_group, members_of, replace_group,
}

-- A group with the members that `Preload` brings.
abbrev pub Loaded : Type 0
Loaded = HostGroup × List HostGroupMember

pub record Database : Type 1 where
  pub State : Type 0
  -- Preload("Members").Order("id ASC").Find
  pub find_all : State → Result (List Loaded)
  -- Preload("Members").First; `none` is ErrRecordNotFound
  pub first : ℕ → State → Result (Option Loaded)
  -- Create of a group with this name and description
  pub create_group : String → String → State → Result HostGroup × State
  -- Create of members of a group, in one statement
  pub create_members : ℕ → List String → State → Option GoError × State
  pub create_member : ℕ → String → State → Result HostGroupMember × State
  pub save_group : HostGroup → State → Option GoError × State
  pub delete_group : ℕ → State → Option GoError × State
  -- with RowsAffected
  pub delete_members : ℕ → String → State → Result ℕ × State
  -- Pluck of the instances of a group
  pub pluck_instances : ℕ → State → Result (List String)
  -- the frame of Transaction
  pub begin : State → Option GoError
  pub rollback : State → State → State
  pub commit : State → State → Option GoError × State

-- The rows of a statement that inserts members.
unfoldable pub IsInserted : ℕ → List String → List HostGroupMember → Type 0
IsInserted id [] [] = Unit
IsInserted id [] (m ∷ rows) = ⊥
IsInserted id (name ∷ names) [] = ⊥
IsInserted id (name ∷ names) (m ∷ rows) =
    (m.group_id ≡ id) × (m.instance ≡ name) × IsInserted id names rows

-- What the statements do to the rows: the effect of each, by its answer. The id of a group is its
-- primary key, which the table counts up from 1.
abbrev pub GroupCreated : String → String → Tables → Tables → Result HostGroup → Type 0
GroupCreated name description t u (err e) = u ≡ t
GroupCreated name description t u (ok g) =
    (u ≡ record t { groups = g ∷ t.groups })
    × (g.name ≡ name)
    × (g.description ≡ description)
    × (has_group g.id t.groups ≡ false)
    × (0 < g.id)

abbrev pub MembersCreated : ℕ → List String → Tables → Tables → Option GoError → Type 0
MembersCreated id names t u (some e) = u ≡ t
MembersCreated id names t u none =
    (rows : List HostGroupMember) × IsInserted id names rows
    × (u ≡ record t { members = rows ++ t.members })

abbrev pub MemberCreated : ℕ → String → Tables → Tables → Result HostGroupMember → Type 0
MemberCreated id name t u (err e) = u ≡ t
MemberCreated id name t u (ok m) =
    (u ≡ record t { members = m ∷ t.members }) × (m.group_id ≡ id) × (m.instance ≡ name)

-- Save sets the time of the update.
abbrev pub GroupSaved : HostGroup → Tables → Tables → Option GoError → Type 0
GroupSaved g t u (some e) = u ≡ t
GroupSaved g t u none =
    (now : Time) × (u
      ≡ record t { groups = replace_group (record g { updated_at = now }) t.groups })

-- The constraint OnDelete:CASCADE deletes the members of a group with it.
abbrev pub GroupDeleted : ℕ → Tables → Tables → Option GoError → Type 0
GroupDeleted id t u (some e) = u ≡ t
GroupDeleted id t u none = u ≡ record {
  groups = filter_by (λ g. not (eqb g.id id)) t.groups;
  members = filter_by (λ m. not (eqb m.group_id id)) t.members;
}

abbrev pub MembersDeleted : ℕ → String → Tables → Tables → Result ℕ → Type 0
MembersDeleted id name t u (err e) = u ≡ t
MembersDeleted id name t u (ok count) = u ≡ record t {
  members = filter_by (λ m. not (eqb m.group_id id && (m.instance == name))) t.members;
}

abbrev pub Found : ℕ → Tables → Result (Option Loaded) → Type 0
Found id t (err e) = Unit
Found id t (ok none) = has_group id t.groups ≡ false
Found id t (ok (some (g, members))) =
    (g.id ≡ id) × (has_group id t.groups ≡ true) × (members ≡ members_of id t.members)

abbrev pub Plucked : ℕ → Tables → Result (List String) → Type 0
Plucked id t (err e) = Unit
Plucked id t (ok names) =
    (x : String) → member x names ≡ member x (map (λ m. m.instance) (members_of id t.members))

abbrev pub Committed : Tables → Tables → Tables → Option GoError → Type 0
Committed before now u (some e) = u ≡ before
Committed before now u none = u ≡ now

pub record DatabaseLaws (D : Database) : Type 0 where
  pub tables : D.State → Tables
  pub first_found : (id : ℕ) (s : D.State) → Found id (tables s) (D.first id s)
  pub group_created :
      (name description : String) (s : D.State)
      → GroupCreated name description
          (tables s)
          (tables (D.create_group name description s).1)
          (D.create_group name description s).0
  pub members_created :
      (id : ℕ) (names : List String) (s : D.State)
      → MembersCreated id names
          (tables s)
          (tables (D.create_members id names s).1)
          (D.create_members id names s).0
  pub member_created :
      (id : ℕ) (name : String) (s : D.State)
      → MemberCreated id name
          (tables s)
          (tables (D.create_member id name s).1)
          (D.create_member id name s).0
  pub group_saved :
      (g : HostGroup) (s : D.State)
      → GroupSaved g (tables s) (tables (D.save_group g s).1) (D.save_group g s).0
  pub group_deleted :
      (id : ℕ) (s : D.State)
      → GroupDeleted id (tables s) (tables (D.delete_group id s).1) (D.delete_group id s).0
  pub members_deleted :
      (id : ℕ) (name : String) (s : D.State)
      → MembersDeleted id name
          (tables s)
          (tables (D.delete_members id name s).1)
          (D.delete_members id name s).0
  pub plucked : (id : ℕ) (s : D.State) → Plucked id (tables s) (D.pluck_instances id s)
  pub rolled_back : (before now : D.State) → tables (D.rollback before now) ≡ tables before
  pub committed :
      (before now : D.State)
      → Committed
          (tables before)
          (tables now)
          (tables (D.commit before now).1)
          (D.commit before now).0
