-- ===== src/WebAlerts/Memory.antt =====
-- A cache and a history table in memory that meet their laws, for the tests. The history is one
-- row, and refuses a second.
use server_monitor.Base.{
  ℕ, String, ◌≡◌, ◌≢◌, refl, Bool, true, false, ◌&&◌, Option, none, some, List, [], ◌∷◌, arith,
  ◌==◌, eq_iff, eqb, if◌then◌else◌,
}
use server_monitor.Base.Int.{ℤ}
use server_monitor.Base.Keyed.{member}
use server_monitor.Errors.{message, Result, ok, err}
use server_monitor.Times.{Time}
use server_monitor.WebAlerts.Cache.{Cache, CacheLaws}
use server_monitor.WebAlerts.History.{AlertHistory, Updates, HistoryTable, updated}
use server_monitor.WebAlerts.History.Archive.{TableLaws}

pub record Memory : Type 0 where
  pub keys : List String
  pub values : String → String → Option String
  pub stream : List String

abbrev pub empty : Memory
empty = record { keys = []; values = λ k f. none; stream = [] }

abbrev put : String → String → Option String → Memory → Memory
put k f v s = record s {
  keys = k ∷ s.keys;
  values = λ j g. if (k == j) && (f == g) then v else s.values j g;
}

abbrev add_once : String → String → ℤ → String → String → ℤ → Memory → Result Bool × Memory
add_once k d n v w ttl s =
    if member d s.keys
    then (ok false, s)
    else (ok true, record s { keys = d ∷ k ∷ s.keys; stream = v ∷ s.stream })

abbrev pub memory : Cache
memory = record {
  State = Memory;
  h_set = λ k f v s. (none, put k f (some v) s);
  h_del = λ k f s. (none, put k f none s);
  h_get_all = λ k s. err (message "unused");
  add_alert_event_once = add_once;
  x_rev_range_n = λ k n s. ok s.stream;
  publish = λ channel v s. (none, s);
  field = λ k f s. s.values k f;
  exists = λ k s. member k s.keys;
  entries = λ k s. s.stream;
}

pub memory-CacheLaws : CacheLaws memory
unfolding member
memory-CacheLaws = record {
  field-h_set = λ k f v j g s t h. ground arith;
  field-h_del = λ k f j g s t h. ground arith;
  exists-h_set = λ k f v j s n. ground (arith, eq_iff k j);
  exists-h_del = λ k f j s n. ground (arith, eq_iff k j);
  stored_new = λ k d v w n ttl s t h. ground arith;
  exists-stored = λ k d v w j n ttl s t h ne. ground (arith, eq_iff k j, eq_iff d j);
  known = λ k d v w n ttl s t h. (ground arith, ground arith);
  exists-add_alert_event_once = λ k d v w j n ttl s h. ground arith;
  field-add_alert_event_once = λ k d v w j g n ttl s a b. ground arith;
  exists-publish = λ c m j s. refl;
  field-publish = λ c m j g s. refl;
}

abbrev Rows : Type 0
Rows = Option AlertHistory

abbrev find_row : String → Time → Rows → Option ℕ
find_row f t none = none
find_row f t (some h) = if (h.fingerprint == f) && eqb h.fired_at t then some 0 else none

abbrev create_row : AlertHistory → Rows → Result Rows
create_row h none = ok (some h)
create_row h (some g) = err (message "the table is full")

abbrev update_row : ℕ → Updates → Rows → Result Rows
update_row id u none = ok none
update_row id u (some h) = if eqb id 0 then ok (some (updated u h)) else ok (some h)

abbrev row_at : ℕ → Rows → Option AlertHistory
row_at id s = if eqb id 0 then s else none

abbrev pub one_row : HistoryTable
one_row = record {
  State = Rows;
  find_latest = λ f t s. ok (find_row f t s);
  create = create_row;
  updates = update_row;
  row = row_at;
}

found_row :
    (f : String) (t : Time) (id : ℕ) (s : Rows)
    → find_row f t s ≡ some id
    → (h : AlertHistory) × (row_at id s ≡ some h) × (h.fingerprint ≡ f) × (h.fired_at ≡ t)
found_row f t id none p = cc
found_row f t id (some h) p =
    (h, ground arith, ground (arith, eq_iff h.fingerprint f), ground arith)

not_found_row :
    (f : String) (t : Time) (id : ℕ) (h : AlertHistory) (s : Rows)
    → find_row f t s ≡ none
    → row_at id s ≡ some h
    → h.fingerprint ≡ f
    → h.fired_at ≢ t
not_found_row f t id h none p q e g = ground arith
not_found_row f t id h (some k) p q e g =
    ground (arith, eq_iff k.fingerprint f, eq_iff h.fingerprint f)

created_row :
    (h : AlertHistory) (s t : Rows)
    → create_row h s ≡ ok t
    → (id : ℕ) × (row_at id s ≡ none)
      × (row_at id t ≡ some h)
      × ((j : ℕ) → j ≢ id → row_at j t ≡ row_at j s)
created_row h none t p = (0, refl, ground arith, λ j n. ground arith)
created_row h (some g) t p = cc

updated_row :
    (id : ℕ) (u : Updates) (h : AlertHistory) (s t : Rows)
    → update_row id u s ≡ ok t
    → row_at id s ≡ some h
    → (row_at id t ≡ some (updated u h)) × ((j : ℕ) → j ≢ id → row_at j t ≡ row_at j s)
updated_row id u h none t p q = absurd (ground arith)
updated_row id u h (some g) t p q = (ground arith, λ j n. ground arith)

pub one_row-TableLaws : TableLaws one_row
one_row-TableLaws = record {
  found = λ f t id s p. found_row f t id s (cc);
  not_found = λ f t id h s p q e. not_found_row f t id h s (cc) q e;
  created = λ h s t p. created_row h s t p;
  row-updates = λ id u h s t p q. updated_row id u h s t p q;
}
