-- ===== src/Collector/Tests.antt =====
-- Two interfaces, one of them reset.
use server_monitor.Base.{ℕ, ◌+◌, String, ◌≡◌, refl, List, [], ◌∷◌}
use server_monitor.Base.Keyed.{lookup, insert}
use server_monitor.Collector.{Counter, add_readings}
use server_monitor.Collector.Totals.{
  total_of, last_of, run_ends, readings_of, add_readings-run_ends,
}

abbrev readings : List (String × ℕ)
readings = ("eth0", 100) ∷ ("lo", 5) ∷ ("eth0", 130) ∷ ("lo", 9) ∷ ("eth0", 20) ∷ ("eth0", 25) ∷ []

abbrev fresh : Counter
fresh = record { total = []; previous = [] }

eth0_total : total_of "eth0" (add_readings readings fresh) ≡ 155
unfolding total_of add_readings lookup insert
eth0_total = refl

add_readings-run_ends_example :
    total_of "eth0" (add_readings readings fresh) + last_of "eth0" fresh
    ≡ total_of "eth0" fresh + run_ends (last_of "eth0" fresh) (readings_of "eth0" readings)
add_readings-run_ends_example = add_readings-run_ends "eth0" readings fresh
