-- ===== src/HostGroups/Routes/Narrowed.antt =====
-- A group that was created, and the hosts that it narrows a list to.
use server_monitor.Base.{String, ◌≡◌, Bool, Option, some, List}
use server_monitor.Base.Keyed.{member}
use server_monitor.HostGroups.Database.{Database}

-- A list of hosts is narrowed to the instances that pass a test.
abbrev pub Narrows : (String → Bool) → Option (List String) → Type 0
Narrows passes o =
    (allowed : List String) × (o ≡ some allowed) × ((x : String) → member x allowed ≡ passes x)
