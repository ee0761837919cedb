-- ===== src/Collector/Totals.antt =====
-- What the counters add up to.
use server_monitor.Base.{
  ℕ, ◌+◌, String, ◌≡◌, refl, ◌∙◌, ap, Option, none, some, List, [], ◌∷◌, ◌==◌, eq_iff, ltb,
  if◌then◌else◌, Bool-cases, inl, inr, arith,
}
use server_monitor.Base.Keyed.{lookup, lookup-insert}
use server_monitor.Collector.{
  Counter, value_or_zero, counter_delta, add_counter_delta, add_readings,
}

unfoldable pub total_of : String → Counter → ℕ
total_of label c = value_or_zero (lookup label c.total)

unfoldable pub last_of : String → Counter → ℕ
last_of label c = value_or_zero (lookup label c.previous)

-- The readings go up in runs. What the last readings of all runs add up to, of a run that has come
-- to `last` and the readings after it.
unfoldable pub run_ends : ℕ → List ℕ → ℕ
run_ends last [] = last
run_ends last (current ∷ readings) =
    let rest = run_ends current readings in if ltb current last then last + rest else rest

unfoldable pub readings_of : String → List (String × ℕ) → List ℕ
readings_of label [] = []
readings_of label ((other, current) ∷ readings) =
    let rest = readings_of label readings in if other == label then current ∷ rest else rest

delta_lem :
    (last : Option ℕ) (current : ℕ)
    → counter_delta last current
        + (if ltb current (value_or_zero last) then 0 else value_or_zero last)
      ≡ current
unfolding counter_delta value_or_zero
delta_lem none current = ground arith
delta_lem (some last) current = ground arith

add_counter_delta-total :
    (label other : String) (current : ℕ) (c : Counter)
    → total_of other (add_counter_delta label current c) ≡ (
        if label == other
        then total_of label c + counter_delta (lookup label c.previous) current
        else total_of other c)
unfolding add_counter_delta total_of value_or_zero
add_counter_delta-total label other current c = elim (Bool-cases (label == other)) [
  | inl y ↦ simp (add_counter_delta, total_of, lookup-insert, y)
  | inr n ↦ simp (add_counter_delta, total_of, lookup-insert, n)
]

add_counter_delta-last :
    (label other : String) (current : ℕ) (c : Counter)
    → last_of other (add_counter_delta label current c)
      ≡ (if label == other then current else last_of other c)
unfolding add_counter_delta last_of value_or_zero
add_counter_delta-last label other current c = elim (Bool-cases (label == other)) [
  | inl y ↦ simp (add_counter_delta, last_of, lookup-insert, y)
  | inr n ↦ simp (add_counter_delta, last_of, lookup-insert, n)
]

step_total :
    (total delta last current rest : ℕ) (all : ℕ)
    → all + current ≡ (total + delta) + rest
    → delta + (if ltb current last then 0 else last) ≡ current
    → all + last ≡ total + (if ltb current last then last + rest else rest)
step_total total delta last current rest all h d = ground arith

-- A counter goes up by what its readings went up in runs: what is added to the counter of a label
-- for any readings, those of other labels in between, is what the last readings of its runs add up
-- to, less the reading that the first run goes on from. A run ends where a reading is below the
-- one before.
pub add_readings-run_ends :
    (label : String) (readings : List (String × ℕ)) (c : Counter)
    → total_of label (add_readings readings c) + last_of label c
      ≡ total_of label c + run_ends (last_of label c) (readings_of label readings)
unfolding add_readings run_ends readings_of last_of
add_readings-run_ends label [] c = refl
add_readings-run_ends label ((other, current) ∷ readings) c =
    let next = add_counter_delta other current c in
    let total = add_counter_delta-total other label current c in
    let last = add_counter_delta-last other label current c in
    let ih = add_readings-run_ends label readings next in
    elim (Bool-cases (other == label)) [
      | inl y ↦
          let e : other ≡ label = (eq_iff other label).0 y in
          let t : total_of label next
              ≡ total_of label c + counter_delta (lookup label c.previous) current =
            (rw y at total)
            ∙ ap (λ o. total_of o c + counter_delta (lookup o c.previous) current) e in
          let l : last_of label next ≡ current = rw y at last in
          rw y (
            step_total (total_of label c) (counter_delta (lookup label c.previous) current)
              (last_of label c) current (run_ends current (readings_of label readings))
              (total_of label (add_readings readings next)) (rw (t, l) at ih)
              (delta_lem (lookup label c.previous) current))
      | inr n ↦
          let t : total_of label next ≡ total_of label c = rw n at total in
          let l : last_of label next ≡ last_of label c = rw n at last in rw n (rw (t, l) at ih)
    ]
