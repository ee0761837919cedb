-- ===== src/HostGroups/Consistent.antt =====
-- What the routes keep of the tables.
use server_monitor.Base.{
  ℕ, String, len, ◌≡◌, refl, sym, ◌∙◌, subst, Bool, true, false, not, List, [], ◌∷◌, ◌++◌, eqb, ltb,
  Bool-cases, inl, inr, All, arith, filter_by,
}
use server_monitor.HostGroups.{HostGroup, HostGroupMember, Tables, has_group, replace_group}
use server_monitor.HostGroups.Database.{IsInserted}
use server_monitor.HostGroups.Instances.{IsText}

abbrev pub IsGroup : HostGroup → Type 0
IsGroup g = IsText 128 g.name × (ltb 512 (len g.description) ≡ false)

abbrev pub IsMember : List HostGroup → HostGroupMember → Type 0
IsMember groups m = IsText 256 m.instance × (has_group m.group_id groups ≡ true)

-- Each group has a name of 1 to 128 bytes and a description of at most 512, each member an instance
-- of 1 to 256 bytes and a group that exists.
pub record IsConsistent (t : Tables) : Type 0 where
  pub groups_valid : All IsGroup t.groups
  pub members_valid : All (IsMember t.groups) t.members

All-map {ℓ κ} :
    {A : Type ℓ} (P Q : A → Type κ) (xs : List A) → ((a : A) → P a → Q a) → All P xs → All Q xs
All-map P Q [] f h = tt
All-map P Q (x ∷ xs) f h = (f x h.0, All-map P Q xs f h.1)

All-append {ℓ κ} :
    {A : Type ℓ} (P : A → Type κ) (xs ys : List A) → All P xs → All P ys → All P (xs ++ ys)
All-append P [] ys h k = k
All-append P (x ∷ xs) ys h k = (h.0, All-append P xs ys h.1 k)

-- What a filter keeps has the property, and passes the test.
All-filter_by {ℓ κ} :
    {A : Type ℓ} (P : A → Type κ) (p : A → Bool) (xs : List A)
    → All P xs
    → All (λ a. P a × (p a ≡ true)) (filter_by p xs)
unfolding filter_by
All-filter_by P p [] h = tt
All-filter_by P p (x ∷ xs) h = elim (Bool-cases (p x)) [
  | inl y ↦ rw y ((h.0, y), All-filter_by P p xs h.1)
  | inr n ↦ rw n (All-filter_by P p xs h.1)
]

All-filter_by-keeps {ℓ κ} :
    {A : Type ℓ} (P : A → Type κ) (p : A → Bool) (xs : List A) → All P xs → All P (filter_by p xs)
All-filter_by-keeps P p xs h =
    All-map (λ a. P a × (p a ≡ true)) P (filter_by p xs) (λ a k. k.0) (All-filter_by P p xs h)

has_group-cons :
    (id : ℕ) (g : HostGroup) (groups : List HostGroup)
    → has_group id groups ≡ true
    → has_group id (g ∷ groups) ≡ true
unfolding has_group
has_group-cons id g groups h = ground arith

has_group-replace_group :
    (id : ℕ) (g : HostGroup) (groups : List HostGroup)
    → has_group id (replace_group g groups) ≡ has_group id groups
unfolding has_group replace_group
has_group-replace_group id g [] = refl
has_group-replace_group id g (h ∷ groups) = ground (arith, has_group-replace_group id g groups)

has_group-filter_by :
    (id gone : ℕ) (groups : List HostGroup)
    → eqb id gone ≡ false
    → has_group id (filter_by (λ g. not (eqb g.id gone)) groups) ≡ has_group id groups
unfolding has_group filter_by
has_group-filter_by id gone [] n = refl
has_group-filter_by id gone (g ∷ groups) n = ground (arith, has_group-filter_by id gone groups n)

All-replace_group :
    (g : HostGroup) (groups : List HostGroup)
    → IsGroup g
    → All IsGroup groups
    → All IsGroup (replace_group g groups)
unfolding replace_group
All-replace_group g [] valid h = tt
All-replace_group g (x ∷ groups) valid h = elim (Bool-cases (eqb x.id g.id)) [
  | inl y ↦ rw y (valid, All-replace_group g groups valid h.1)
  | inr n ↦ rw n (h.0, All-replace_group g groups valid h.1)
]

pub All-inserted :
    (groups : List HostGroup) (id : ℕ) (names : List String) (rows : List HostGroupMember)
    → has_group id groups ≡ true
    → All (IsText 256) names
    → IsInserted id names rows
    → All (IsMember groups) rows
unfolding IsInserted
All-inserted groups id [] [] has texts i = tt
All-inserted groups id [] (m ∷ rows) has texts i = absurd i
All-inserted groups id (name ∷ names) [] has texts i = absurd i
All-inserted groups id (name ∷ names) (m ∷ rows) has texts i = (
  (subst (IsText 256) (sym i.1) texts.0, subst (λ k. has_group k groups ≡ true) (sym i.0) has),
  All-inserted groups id names rows has texts.1 i.2,
)

module _ (t : Tables) (c : IsConsistent t) where
  pub add_group-IsConsistent :
      (g : HostGroup) → IsGroup g → IsConsistent (record t { groups = g ∷ t.groups })
  add_group-IsConsistent g valid = record {
    groups_valid = (valid, c.groups_valid);
    members_valid =
        All-map (IsMember t.groups) (IsMember (g ∷ t.groups)) t.members
          (λ m h. (h.0, has_group-cons m.group_id g t.groups h.1)) c.members_valid;
  }

  pub add_members-IsConsistent :
      (rows : List HostGroupMember)
      → All (IsMember t.groups) rows
      → IsConsistent (record t { members = rows ++ t.members })
  add_members-IsConsistent rows valid = record {
    groups_valid = c.groups_valid;
    members_valid = All-append (IsMember t.groups) rows t.members valid c.members_valid;
  }

  pub save_group-IsConsistent :
      (g : HostGroup) → IsGroup g → IsConsistent (record t { groups = replace_group g t.groups })
  save_group-IsConsistent g valid = record {
    groups_valid = All-replace_group g t.groups valid c.groups_valid;
    members_valid =
        All-map (IsMember t.groups) (IsMember (replace_group g t.groups)) t.members
          (λ m h. (h.0, has_group-replace_group m.group_id g t.groups ∙ h.1)) c.members_valid;
  }

  pub delete_group-IsConsistent :
      (id : ℕ)
      → IsConsistent (record {
        groups = filter_by (λ g. not (eqb g.id id)) t.groups;
        members = filter_by (λ m. not (eqb m.group_id id)) t.members;
      })
  delete_group-IsConsistent id =
      let others : HostGroup → Bool = λ g. not (eqb g.id id) in
      let outside : HostGroupMember → Bool = λ m. not (eqb m.group_id id) in
      record {
        groups_valid = All-filter_by-keeps IsGroup others t.groups c.groups_valid;
        members_valid =
            All-map (λ m. IsMember t.groups m × (outside m ≡ true))
              (IsMember (filter_by others t.groups)) (filter_by outside t.members)
              (λ m h. (h.0.0, has_group-filter_by m.group_id id t.groups (ground arith) ∙ h.0.1))
              (All-filter_by (IsMember t.groups) outside t.members c.members_valid);
      }

  pub delete_members-IsConsistent :
      (p : HostGroupMember → Bool) → IsConsistent (record t { members = filter_by p t.members })
  delete_members-IsConsistent p = record {
    groups_valid = c.groups_valid;
    members_valid = All-filter_by-keeps (IsMember t.groups) p t.members c.members_valid;
  }
