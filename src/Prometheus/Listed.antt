-- ===== src/Prometheus/Listed.antt =====
-- The list of hosts that GetHosts makes of its map.
use server_monitor.Base.{
  ℕ, String, ◌≡◌, Bool, false, ◌&&◌, Option, none, some, [], ◌∷◌, ◌==◌, if◌then◌else◌,
}
use server_monitor.Base.Keyed.{Keyed, lookup}
use server_monitor.Hosts.{Floats, Host}
use server_monitor.Prometheus.{Readings}

module _ (F : Floats) (M : Readings F) where
  abbrev Good : String → Host F → Type 0
  Good name host = (host.host_instance ≡ name) × ((host.status == "") ≡ false)

  -- Each name has one host, which is named so and has a status.
  abbrev Once : Keyed (Host F) → Type 0
  Once [] = Unit
  Once ((name, host) ∷ hosts) = (lookup name hosts ≡ none) × Good name host × Once hosts

  -- The hosts of a name that pass a test.
  abbrev pub named_and : String → (Host F → Bool) → Host F → Bool
  named_and name p host = (host.host_instance == name) && p host

  abbrev pub passes : (Host F → Bool) → Option (Host F) → ℕ
  passes p none = 0
  passes p (some host) = if p host then 1 else 0
