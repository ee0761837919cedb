-- ===== src/HostGroups/Routes/Refused.antt =====
-- The checks of the routes answer with an error's status.
use server_monitor.Base.{
  String, ◌≡◌, refl, Bool, true, false, Option, none, some, List, [], ◌∷◌, ◌==◌, eqb, Bool-cases,
  inl, inr, ltb, len, ◌||◌,
}
use server_monitor.Base.Text.{trim_space}
use server_monitor.Base.Keyed.{member}
use server_monitor.HostGroups.{
  HostGroupRequest, Reply, proceed, answered, normalize_instance, instances_loop,
  normalize_instances, normalize_host_group_request, ◌>>=◌,
}
use server_monitor.HostGroups.Steps.{require_db, bound}

-- A check that answers does not say that something was created.
abbrev pub Refuses : {A : Type 0} → Reply A → Type 0
Refuses (proceed a) = Unit
Refuses (answered r) = eqb r.status 201 ≡ false

pub >>=-Refuses :
    {A B : Type 0} (m : Reply A) (f : A → Reply B)
    → Refuses m
    → ((a : A) → Refuses (f a))
    → Refuses (m >>= f)
>>=-Refuses (proceed a) f h k = k a
>>=-Refuses (answered r) f h k = h

Refuses-either :
    {A : Type 0} (b : Bool) (x y : Reply A)
    → Refuses x
    → Refuses y
    → Refuses (elim b [ true ↦ x | false ↦ y ])
Refuses-either true x y h k = h
Refuses-either false x y h k = k

pub require_db-Refuses : (has_db : Bool) → Refuses (require_db has_db)
unfolding require_db
require_db-Refuses true = tt
require_db-Refuses false = refl

pub require_db-inv : (has_db : Bool) (u : Unit {0}) → require_db has_db ≡ proceed u → has_db ≡ true
unfolding require_db
require_db-inv true u h = refl
require_db-inv false u h = cc

pub bound-Refuses : {A : Type 0} (text : String) (body : Option A) → Refuses (bound text body)
unfolding bound
bound-Refuses text none = refl
bound-Refuses text (some a) = tt

normalize_instance-Refuses : (raw : String) → Refuses (normalize_instance raw)
unfolding normalize_instance
normalize_instance-Refuses raw =
    elim (Bool-cases ((trim_space raw == "") || ltb 256 (len (trim_space raw)))) [
      | inl y ↦ rw y refl
      | inr n ↦ rw n tt
    ]

instances_loop-Refuses : (seen raw : List String) → Refuses (instances_loop seen raw)
unfolding instances_loop
instances_loop-Refuses seen [] = tt
instances_loop-Refuses seen (item ∷ raw) =
    >>=-Refuses (normalize_instance item) _ (normalize_instance-Refuses item) (λ name.
      Refuses-either (member name seen) (instances_loop seen raw)
        (instances_loop (name ∷ seen) raw >>= (λ rest. proceed (name ∷ rest)))
        (instances_loop-Refuses seen raw)
        (>>=-Refuses (instances_loop (name ∷ seen) raw) _ (instances_loop-Refuses (name ∷ seen) raw)
          (λ a. tt)))

pub request-Refuses : (req : HostGroupRequest) → Refuses (normalize_host_group_request req)
unfolding normalize_host_group_request normalize_instances
request-Refuses req =
    elim (Bool-cases ((trim_space req.name == "") || ltb 128 (len (trim_space req.name)))) [
      | inl y ↦ rw y refl
      | inr n ↦ rw n (elim (Bool-cases (ltb 512 (len (trim_space req.description)))) [
        | inl y ↦ rw y refl
        | inr m ↦ rw m (
            >>=-Refuses (instances_loop [] req.instances) _
              (instances_loop-Refuses [] req.instances) (λ a. tt))
      ])
    ]
