-- ===== src/HostGroups/Routes/Kept.antt =====
-- The routes keep the tables of host groups consistent.
use server_monitor.Base.{
  ℕ, String, len, ◌≡◌, refl, sym, ◌∙◌, ap, subst, Bool, true, false, Option, none, some, List, [],
  ◌∷◌, ◌&&◌, not, eqb, ltb, ◌==◌, All, arith, Option-cases, inl, inr,
}
use server_monitor.Errors.{GoError, Result, ok, err}
use server_monitor.Times.{Time}
use server_monitor.HostGroups.{
  HostGroup, HostGroupMember, Tables, Response, Reply, proceed, answered, has_group, ◌>>=◌,
}
use server_monitor.HostGroups.Database.{
  Database, DatabaseLaws, GroupCreated, MembersCreated, MemberCreated, GroupSaved, GroupDeleted,
  MembersDeleted, Committed,
}
use server_monitor.HostGroups.Instances.{IsText}
use server_monitor.HostGroups.Consistent.{
  IsGroup, IsConsistent, All-inserted, add_group-IsConsistent, add_members-IsConsistent,
  save_group-IsConsistent, delete_group-IsConsistent, delete_members-IsConsistent,
}
use server_monitor.HostGroups.Steps.{answer_with}
use server_monitor.HostGroups.Routes.{
  find_host_group, show_group, members_for, with_id, group_and_members, settled,
  create_in_transaction, created, updated, deleted, member_added, member_deleted,
}

-- What holds of the value with which a check goes on.
abbrev pub Yields {ℓ} : {A : Type 0} → (A → Type ℓ) → Reply A → Type ℓ
Yields Q (proceed a) = Q a
Yields Q (answered r) = Unit

pub >>=-Yields :
    {A B : Type 0} (Q : B → Type 0) (m : Reply A) (f : A → Reply B)
    → ((a : A) → m ≡ proceed a → Yields Q (f a))
    → Yields Q (m >>= f)
>>=-Yields Q (proceed a) f h = h a refl
>>=-Yields Q (answered r) f h = tt

-- What a handler leaves, if each way to go on leaves it.
pub answer_with_keeps :
    {A S : Type 0} (P : S → Type 0) (Q : A → Type 0) (r : Reply A) (rest : A → S → Response × S)
    (s : S)
    → P s
    → Yields Q r
    → ((a : A) → Q a → P (rest a s).1)
    → P (answer_with r rest s).1
answer_with_keeps P Q (proceed a) rest s h y k = k a y
answer_with_keeps P Q (answered r) rest s h y k = h

pub Yields-map :
    {A : Type 0} (P Q : A → Type 0) (r : Reply A) → ((a : A) → P a → Q a) → Yields P r → Yields Q r
Yields-map P Q (proceed a) f h = f a h
Yields-map P Q (answered r) f h = tt

pub Yields-unit : {A : Type 0} (r : Reply A) → Yields (λ a. Unit {0}) r
Yields-unit (proceed a) = tt
Yields-unit (answered r) = tt

has_group-first : (g : HostGroup) (groups : List HostGroup) → has_group g.id (g ∷ groups) ≡ true
unfolding has_group
has_group-first g groups = ground arith

module _ (rfc3339 : Time → String) (D : Database) (has_db : Bool) (laws : DatabaseLaws D) where
  open D use {State}
  open laws use {tables}

  abbrev pub Keeps : State → Type 0
  Keeps s = IsConsistent (tables s)

  show_group-Keeps :
      (status id : ℕ) (s : State) → Keeps s → Keeps (show_group rfc3339 D has_db status id s).1
  unfolding show_group
  show_group-Keeps status id s h =
      answer_with_keeps Keeps (λ a. Unit {0}) (find_host_group rfc3339 D has_db id s) _ s h
        (Yields-unit (find_host_group rfc3339 D has_db id s)) (λ a e. h)

  inserted-Keeps :
      (id : ℕ) (names : List String) (before : State) (r : Option GoError × State)
      → Keeps before
      → has_group id (tables before).groups ≡ true
      → All (IsText 256) names
      → MembersCreated id names (tables before) (tables r.1) r.0
      → Keeps (with_id rfc3339 D has_db id r).1
  unfolding with_id
  inserted-Keeps id names before (some e, now) h has texts same = subst IsConsistent (sym same) h
  inserted-Keeps id names before (none, now) h has texts (rows, inserted, same) =
      subst IsConsistent (sym same) (
        add_members-IsConsistent (tables before) h rows
          (All-inserted (tables before).groups id names rows has texts inserted))

  members_for-Keeps :
      (id : ℕ) (names : List String) (s : State)
      → Keeps s
      → has_group id (tables s).groups ≡ true
      → All (IsText 256) names
      → Keeps (members_for rfc3339 D has_db id names s).1
  unfolding members_for
  members_for-Keeps id [] s h has texts = h
  members_for-Keeps id (name ∷ names) s h has texts =
      inserted-Keeps id (name ∷ names) s (D.create_members id (name ∷ names) s) h has texts
        (laws.members_created id (name ∷ names) s)

  group_and_members-Keeps :
      (name description : String) (names : List String) (r : Result HostGroup × State) (t : Tables)
      → IsText 128 name
      → ltb 512 (len description) ≡ false
      → All (IsText 256) names
      → IsConsistent t
      → GroupCreated name description t (tables r.1) r.0
      → Keeps (group_and_members rfc3339 D has_db names r).1
  unfolding group_and_members
  group_and_members-Keeps name description names (err e, u) t n d i c same =
      subst IsConsistent (sym same) c
  group_and_members-Keeps name description names (ok g, u) t n d i c
        (same, named, described, fresh, _) =
      members_for-Keeps g.id names u
        (subst IsConsistent (sym same) (
          add_group-IsConsistent t c g (
            subst (IsText 128) (sym named) n,
            subst (λ x. ltb 512 (len x) ≡ false) (sym described) d,
          )))
        (ap (λ x. has_group g.id x.groups) same ∙ has_group-first g t.groups) i

  committed-Keeps :
      (id : ℕ) (before now : State) (r : Option GoError × State)
      → Keeps before
      → Keeps now
      → Committed (tables before) (tables now) (tables r.1) r.0
      → Keeps (with_id rfc3339 D has_db id r).1
  unfolding with_id
  committed-Keeps id before now (some e, u) h k same = subst IsConsistent (sym same) h
  committed-Keeps id before now (none, u) h k same = subst IsConsistent (sym same) k

  settled-Keeps :
      (before : State) (r : Result ℕ × State)
      → Keeps before
      → Keeps r.1
      → Keeps (settled rfc3339 D has_db before r).1
  unfolding settled
  settled-Keeps before (err e, now) h k = subst IsConsistent (sym (laws.rolled_back before now)) h
  settled-Keeps before (ok id, now) h k =
      committed-Keeps id before now (D.commit before now) h k (laws.committed before now)

  pub create_in_transaction-Keeps :
      (name description : String) (names : List String) (s : State)
      → IsText 128 name
      → ltb 512 (len description) ≡ false
      → All (IsText 256) names
      → Keeps s
      → Keeps (create_in_transaction rfc3339 D has_db name description names s).1
  unfolding create_in_transaction
  create_in_transaction-Keeps name description names s n d i h = elim (Option-cases (D.begin s)) [
    | inl b ↦
        rw (create_in_transaction, b)
          (settled-Keeps s _ h (
            group_and_members-Keeps name description names (D.create_group name description s)
              (tables s) n d i h (laws.group_created name description s)))
    | inr (e, b) ↦ rw (create_in_transaction, b) h
  ]

  pub created-Keeps : (r : Result ℕ × State) → Keeps r.1 → Keeps (created rfc3339 D has_db r).1
  unfolding created
  created-Keeps (err e, t) h = h
  created-Keeps (ok id, t) h = show_group-Keeps 201 id t h

  pub updated-Keeps :
      (id : ℕ) (g : HostGroup) (t : Tables) (r : Option GoError × State)
      → IsGroup g
      → IsConsistent t
      → GroupSaved g t (tables r.1) r.0
      → Keeps (updated rfc3339 D has_db id r).1
  unfolding updated
  updated-Keeps id g t (some e, u) valid c same = subst IsConsistent (sym same) c
  updated-Keeps id g t (none, u) valid c (now, same) = show_group-Keeps 200 id u (
      subst IsConsistent (sym same)
        (save_group-IsConsistent t c (record g { updated_at = now }) valid))

  pub deleted-Keeps :
      (id : ℕ) (t : Tables) (r : Option GoError × State)
      → IsConsistent t
      → GroupDeleted id t (tables r.1) r.0
      → Keeps (deleted rfc3339 D has_db r).1
  unfolding deleted
  deleted-Keeps id t (some e, u) c same = subst IsConsistent (sym same) c
  deleted-Keeps id t (none, u) c same =
      subst IsConsistent (sym same) (delete_group-IsConsistent t c id)

  pub member_added-Keeps :
      (id : ℕ) (name : String) (t : Tables) (r : Result HostGroupMember × State)
      → IsText 256 name
      → has_group id t.groups ≡ true
      → IsConsistent t
      → MemberCreated id name t (tables r.1) r.0
      → Keeps (member_added rfc3339 D has_db r).1
  unfolding member_added
  member_added-Keeps id name t (err e, u) n has c same = subst IsConsistent (sym same) c
  member_added-Keeps id name t (ok m, u) n has c (same, of_group, named) =
      subst IsConsistent (sym same) (
        add_members-IsConsistent t c (m ∷ []) (
          (
            subst (IsText 256) (sym named) n,
            subst (λ k. has_group k t.groups ≡ true) (sym of_group) has,
          ),
          tt,
        ))

  pub member_deleted-Keeps :
      (id : ℕ) (name : String) (t : Tables) (r : Result ℕ × State)
      → IsConsistent t
      → MembersDeleted id name t (tables r.1) r.0
      → Keeps (member_deleted rfc3339 D has_db r).1
  unfolding member_deleted
  member_deleted-Keeps id name t (err e, u) c same = subst IsConsistent (sym same) c
  member_deleted-Keeps id name t (ok count, u) c same =
      subst IsConsistent (sym same)
        (delete_members-IsConsistent t c (λ m. not (eqb m.group_id id && (m.instance == name))))
