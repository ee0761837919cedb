-- ===== src/HostGroups/Instances.antt =====
-- What the checks of a request let through.
use server_monitor.Base.{
  ℕ, String, len, ◌≡◌, refl, subst, Bool, true, false, not, ◌&&◌, ◌||◌, List, [], ◌∷◌, ◌==◌, ltb,
  Bool-cases, String-cases, inl, inr, All, arith,
}
use server_monitor.Base.Text.{trim_space}
use server_monitor.Base.Keyed.{member}
use server_monitor.HostGroups.{
  HostGroupRequest, Reply, proceed, answered, ◌>>=◌, normalize_instance, instances_loop,
  normalize_instances, normalize_host_group_request,
}

-- An instance or a name that is stored: some text, of at most so many bytes.
abbrev pub IsText : ℕ → String → Type 0
IsText bound text = ((text == "") ≡ false) × (ltb bound (len text) ≡ false)

-- Whether one of the texts is `name` when trimmed.
unfoldable pub names : String → List String → Bool
names name [] = false
names name (item ∷ raw) = (trim_space item == name) || names name raw

pub >>=-inv {ℓ κ} :
    {A : Type ℓ} {B : Type κ} (m : Reply A) (f : A → Reply B) {b : B}
    → (m >>= f) ≡ proceed b
    → (a : A) × (m ≡ proceed a) × (f a ≡ proceed b)
>>=-inv (proceed a) f h = (a, refl, h)
>>=-inv (answered r) f h = cc

pub normalize_instance-inv :
    (raw name : String)
    → normalize_instance raw ≡ proceed name
    → (trim_space raw ≡ name) × IsText 256 name
unfolding normalize_instance
normalize_instance-inv raw name h =
    elim (Bool-cases ((trim_space raw == "") || ltb 256 (len (trim_space raw)))) [
      | inl bad ↦ absurd (ground arith)
      | inr good ↦
          let same : normalize_instance raw ≡ proceed (trim_space raw) =
            simp (normalize_instance, good) in
          let e : trim_space raw ≡ name = cc in
          (e, subst (IsText 256) e (ground arith, ground arith))
    ]

-- How the loop goes on after an item.
data Next (seen : List String) (name : String) (raw found : List String) : Type 0 where
  skipped :
      member name seen ≡ true → instances_loop seen raw ≡ proceed found → Next seen name raw found
  kept :
      (rest : List String)
      → member name seen ≡ false
      → instances_loop (name ∷ seen) raw ≡ proceed rest
      → found ≡ name ∷ rest
      → Next seen name raw found

loop-Next :
    (seen : List String) (item name : String) (raw found : List String)
    → normalize_instance item ≡ proceed name
    → instances_loop seen (item ∷ raw) ≡ proceed found
    → Next seen name raw found
unfolding instances_loop
loop-Next seen item name raw found n h = elim (Bool-cases (member name seen)) [
  | inl y ↦ skipped y (ground arith)
  | inr e ↦
      let step : (instances_loop (name ∷ seen) raw >>= (λ rest. proceed (name ∷ rest)))
          ≡ proceed found =
        ground arith in
      let (rest, r, f) =
        >>=-inv (instances_loop (name ∷ seen) raw) (λ rest. proceed (name ∷ rest)) step in
      kept rest e r (cc)
]

skipped-member :
    (x name : String) (seen raw found : List String)
    → member name seen ≡ true
    → member x found ≡ (not (member x seen) && names x raw)
    → member x found ≡ (not (member x seen) && ((name == x) || names x raw))
skipped-member x name seen raw found old ih = elim (String-cases name x) [
  | inl (y, e) ↦
      let known : member x seen ≡ true = subst (λ z. member z seen ≡ true) e old in
      simp (y, ih, known)
  | inr (n, _) ↦ simp (n, ih)
]

kept-member :
    (x name : String) (seen raw rest : List String)
    → member name seen ≡ false
    → member x rest ≡ (not (member x (name ∷ seen)) && names x raw)
    → member x (name ∷ rest) ≡ (not (member x seen) && ((name == x) || names x raw))
unfolding member
kept-member x name seen raw rest new ih = elim (String-cases name x) [
  | inl (y, e) ↦
      let fresh : member x seen ≡ false = subst (λ z. member z seen ≡ false) e new in
      simp (y, fresh)
  | inr (n, _) ↦ simp (n, ih)
]

item-names :
    (seen : List String) (item name : String) (raw found : List String)
    → normalize_instance item ≡ proceed name
    → ((seen found : List String)
        → instances_loop seen raw ≡ proceed found
        → All (IsText 256) found
          × ((x : String) → member x found ≡ (not (member x seen) && names x raw)))
    → Next seen name raw found
    → All (IsText 256) found
      × ((x : String) → member x found ≡ (not (member x seen) && names x (item ∷ raw)))
unfolding names
item-names seen item name raw found n ih (skipped old again) =
    let (all, members) = ih seen found again in
    (
      all,
      λ x.
          rw ((normalize_instance-inv item name n).0)
            (skipped-member x name seen raw found old (members x)),
    )
item-names seen item name raw found n ih (kept rest new again same) =
    let (trimmed, text) = normalize_instance-inv item name n in
    let (all, members) = ih (name ∷ seen) rest again in
    (
      rw same (text, all),
      λ x. rw (same, trimmed) (kept-member x name seen raw rest new (members x)),
    )

instances_loop-names :
    (seen raw found : List String)
    → instances_loop seen raw ≡ proceed found
    → All (IsText 256) found
      × ((x : String) → member x found ≡ (not (member x seen) && names x raw))
unfolding instances_loop names member
instances_loop-names seen [] found h =
    let e : found ≡ [] = cc in (rw e tt, λ x. rw e (ground arith))
instances_loop-names seen (item ∷ raw) found h =
    let (name, n, _) = >>=-inv (normalize_instance item) _ h in
    item-names seen item name raw found n (λ s f. instances_loop-names s raw f)
      (loop-Next seen item name raw found n h)

-- The instances that a request is left with: those that it names, trimmed.
pub normalize_instances-names :
    (raw found : List String)
    → normalize_instances raw ≡ proceed found
    → All (IsText 256) found × ((x : String) → member x found ≡ names x raw)
unfolding normalize_instances member
normalize_instances-names raw found h = instances_loop-names [] raw found h

-- What a request is left with, its texts being right.
checked_request : String → String → List String → Reply (String × String × List String)
checked_request name description instances = proceed (name, description, instances)

checked-inv :
    (m : Reply (List String)) (a b name description : String) (found : List String)
    → (m >>= checked_request a b) ≡ proceed (name, description, found)
    → (a ≡ name) × (b ≡ description) × (m ≡ proceed found)
unfolding checked_request
checked-inv (proceed left) a b name description found h = (cc, cc, cc)
checked-inv (answered r) a b name description found h = cc

pub normalize_host_group_request-inv :
    (req : HostGroupRequest) (name description : String) (found : List String)
    → normalize_host_group_request req ≡ proceed (name, description, found)
    → (trim_space req.name ≡ name)
      × (trim_space req.description ≡ description)
      × IsText 128 name
      × (ltb 512 (len description) ≡ false)
      × (normalize_instances req.instances ≡ proceed found)
unfolding normalize_host_group_request checked_request
normalize_host_group_request-inv req name description found h =
    elim (Bool-cases ((trim_space req.name == "") || ltb 128 (len (trim_space req.name)))) [
      | inl bad ↦ absurd (ground arith)
      | inr p ↦ elim (Bool-cases (ltb 512 (len (trim_space req.description)))) [
        | inl bad ↦ absurd (ground arith)
        | inr q ↦
            let (a, b, n) =
              checked-inv (normalize_instances req.instances) (trim_space req.name)
                (trim_space req.description) name description found (ground arith) in
            (
              a,
              b,
              subst (IsText 128) a (ground arith, ground arith),
              subst (λ d. ltb 512 (len d) ≡ false) b q,
              n,
            )
      ]
    ]
