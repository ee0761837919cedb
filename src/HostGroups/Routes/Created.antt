-- ===== src/HostGroups/Routes/Created.antt =====
-- A group that was created, and the hosts that it narrows a list to.
use server_monitor.Base.{
  ℕ, ◌<◌, String, ◌≡◌, refl, sym, ◌∙◌, ap, subst, Bool, true, false, Option, none, some, List, [],
  ◌∷◌, ◌++◌, map, eqb, filter_by, All, arith, Bool-cases, Option-cases, inl, inr,
}
use server_monitor.Base.Keyed.{member}
use server_monitor.Errors.{GoError, Result, ok, err}
use server_monitor.Times.{Time}
use server_monitor.HostGroups.{HostGroup, HostGroupMember, Tables, has_group, members_of}
use server_monitor.HostGroups.Database.{
  Database, DatabaseLaws, GroupCreated, MembersCreated, Committed, IsInserted,
}
use server_monitor.HostGroups.Consistent.{IsMember}
use server_monitor.HostGroups.Routes.{
  with_id, members_for, group_and_members, settled, create_in_transaction,
}

-- The members of a group that has none yet, after an insertion.
pub members_of-none :
    (id : ℕ) (groups : List HostGroup) (old : List HostGroupMember)
    → has_group id groups ≡ false
    → All (IsMember groups) old
    → members_of id old ≡ []
unfolding members_of filter_by
members_of-none id groups [] n h = refl
members_of-none id groups (m ∷ old) n h = elim (Bool-cases (eqb m.group_id id)) [
  | inl y ↦
      let e : m.group_id ≡ id = ground arith in
      let has : has_group id groups ≡ true = subst (λ k. has_group k groups ≡ true) e h.0.1 in cc
  | inr other ↦ rw other (members_of-none id groups old n h.1)
]

pub member-inserted :
    (x : String) (id : ℕ) (kept : List String) (rows old : List HostGroupMember)
    → IsInserted id kept rows
    → members_of id old ≡ []
    → member x (map (λ m. m.instance) (members_of id (rows ++ old))) ≡ member x kept
unfolding members_of filter_by member IsInserted
member-inserted x id [] [] old i n = rw n refl
member-inserted x id [] (m ∷ rows) old i n = absurd i
member-inserted x id (name ∷ kept) [] old i n = absurd i
member-inserted x id (name ∷ kept) (m ∷ rows) old i n =
    let ih = member-inserted x id kept rows old i.2 n in
    let same : eqb m.group_id id ≡ true = ground arith in rw same (rw (i.1, ih) refl)

module _ (rfc3339 : Time → String) (D : Database) (has_db : Bool) (laws : DatabaseLaws D) where
  open D use {State}
  open laws use {tables}

  -- The group `id` was made with these instances, in tables that were `t`.
  unfoldable pub Made : ℕ → List String → Tables → Tables → Type 0
  Made id kept t u =
      (rows : List HostGroupMember) × IsInserted id kept rows
      × (has_group id t.groups ≡ false)
      × (0 < id)
      × (u.members ≡ rows ++ t.members)

  with_id-inv :
      (id : ℕ) (r : Option GoError × State) (j : ℕ) (t : State)
      → with_id rfc3339 D has_db id r ≡ (ok j, t)
      → (id ≡ j) × (r ≡ (none, t))
  unfolding with_id
  with_id-inv id (none, u) j t h = (cc, cc)
  with_id-inv id (some e, u) j t h = cc

  inserted-Made :
      (id : ℕ) (kept : List String) (t : Tables) (before : State) (r : Option GoError × State)
      (j : ℕ) (u : State)
      → has_group id t.groups ≡ false
      → 0 < id
      → (tables before).members ≡ t.members
      → MembersCreated id kept (tables before) (tables r.1) r.0
      → with_id rfc3339 D has_db id r ≡ (ok j, u)
      → Made j kept t (tables u)
  unfolding Made with_id
  inserted-Made id kept t before (some e, v) j u fresh pos same law h = cc
  inserted-Made id kept t before (none, v) j u fresh pos same (rows, i, effect) h =
      let e : id ≡ j = cc in
      let f : v ≡ u = cc in
      subst (λ k. Made k kept t (tables u)) e
        (
          rows,
          i,
          fresh,
          pos,
          ap (λ x. (tables x).members) (sym f)
              ∙ ap (λ x. x.members) effect
              ∙ ap (λ ms. rows ++ ms) same,
        )

  members_for-Made :
      (id : ℕ) (kept : List String) (t : Tables) (before : State) (j : ℕ) (u : State)
      → has_group id t.groups ≡ false
      → 0 < id
      → (tables before).members ≡ t.members
      → members_for rfc3339 D has_db id kept before ≡ (ok j, u)
      → Made j kept t (tables u)
  unfolding members_for Made IsInserted
  members_for-Made id [] t before j u fresh pos same h =
      let e : id ≡ j = cc in
      let f : before ≡ u = cc in
      subst (λ k. Made k [] t (tables u)) e
        ([], tt, fresh, pos, ap (λ x. (tables x).members) (sym f) ∙ same)
  members_for-Made id (name ∷ kept) t before j u fresh pos same h =
      inserted-Made id (name ∷ kept) t before (D.create_members id (name ∷ kept) before) j u fresh
        pos same (laws.members_created id (name ∷ kept) before) h

  group_and_members-Made :
      (name description : String) (kept : List String) (t : Tables) (r : Result HostGroup × State)
      (j : ℕ) (u : State)
      → GroupCreated name description t (tables r.1) r.0
      → group_and_members rfc3339 D has_db kept r ≡ (ok j, u)
      → Made j kept t (tables u)
  unfolding group_and_members
  group_and_members-Made name description kept t (err e, v) j u law h = cc
  group_and_members-Made name description kept t (ok g, v) j u (effect, _, _, fresh, pos) h =
      members_for-Made g.id kept t v j u fresh pos (ap (λ x. x.members) effect) h

  committed-Made :
      (id : ℕ) (kept : List String) (t : Tables) (before now : State) (r : Option GoError × State)
      (j : ℕ) (u : State)
      → Made id kept t (tables now)
      → Committed (tables before) (tables now) (tables r.1) r.0
      → with_id rfc3339 D has_db id r ≡ (ok j, u)
      → Made j kept t (tables u)
  unfolding with_id
  committed-Made id kept t before now (some e, v) j u made law h = cc
  committed-Made id kept t before now (none, v) j u made law h =
      let e : id ≡ j = cc in
      let f : v ≡ u = cc in
      subst (λ k. Made k kept t (tables u)) e (subst (Made id kept t) (sym law ∙ ap tables f) made)

  settled-Made :
      (kept : List String) (t : Tables) (before : State) (r : Result ℕ × State) (j : ℕ) (u : State)
      → ((i : ℕ) (v : State) → r ≡ (ok i, v) → Made i kept t (tables v))
      → settled rfc3339 D has_db before r ≡ (ok j, u)
      → Made j kept t (tables u)
  unfolding settled
  settled-Made kept t before (err e, v) j u made h = cc
  settled-Made kept t before (ok i, v) j u made h =
      committed-Made i kept t before v (D.commit before v) j u (made i v refl)
        (laws.committed before v) h

  pub create_in_transaction-Made :
      (name description : String) (kept : List String) (s : State) (j : ℕ) (u : State)
      → create_in_transaction rfc3339 D has_db name description kept s ≡ (ok j, u)
      → Made j kept (tables s) (tables u)
  unfolding create_in_transaction
  create_in_transaction-Made name description kept s j u h = elim (Option-cases (D.begin s)) [
    | inl b ↦
        settled-Made kept (tables s) s
          (group_and_members rfc3339 D has_db kept (D.create_group name description s)) j u
          (λ i v e.
            group_and_members-Made name description kept (tables s)
              (D.create_group name description s) i v (laws.group_created name description s) e)
          (rw (create_in_transaction, b) at h)
    | inr (e, b) ↦
        let bad : ◌≡◌ {A = Result ℕ × State} (err e, s) (ok j, u) =
          rw (create_in_transaction, b) at h in
        cc
  ]
