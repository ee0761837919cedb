-- ===== src/Collector.antt =====
-- server-probe/collector/network.go and disk.go: how readings of the system's counters, which start
-- again after a reset, are added to the counters that Prometheus reads. A float64 that counts bytes
-- is exact below 2^53 and is a natural number here.
pub mod Totals
mod Tests
use server_monitor.Base.{ℕ, ◌+◌, ◌-◌, String, Option, none, some, List, [], ◌∷◌, ltb, if◌then◌else◌}
use server_monitor.Base.Keyed.{Keyed, lookup, insert}

-- The counter by its label, and the last reading of each label.
pub record Counter : Type 0 where
  pub total : Keyed ℕ
  pub previous : Keyed ℕ

-- A label that is not there has the value 0.
unfoldable pub value_or_zero : Option ℕ → ℕ
value_or_zero none = 0
value_or_zero (some n) = n

-- What is added for a reading: a counter below its last reading was reset.
unfoldable pub counter_delta : Option ℕ → ℕ → ℕ
counter_delta none current = current
counter_delta (some last) current = if ltb current last then current else current - last

unfoldable pub add_counter_delta : String → ℕ → Counter → Counter
unfolding counter_delta value_or_zero
add_counter_delta label current c = record {
  total =
      insert label
        (value_or_zero (lookup label c.total) + counter_delta (lookup label c.previous) current)
        c.total;
  previous = insert label current c.previous;
}

-- The loop of Update over the readings, one call after the other.
unfoldable pub add_readings : List (String × ℕ) → Counter → Counter
unfolding add_counter_delta
add_readings [] c = c
add_readings ((label, current) ∷ readings) c =
    add_readings readings (add_counter_delta label current c)
