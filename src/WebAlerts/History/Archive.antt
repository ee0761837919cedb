-- ===== src/WebAlerts/History/Archive.antt =====
-- The alert history keeps one row per fingerprint and firing time, and never reopens a resolved one.
use server_monitor.Base.{ℕ, String, ◌≡◌, ◌≢◌, Option, none, some}
use server_monitor.Base.Keyed.{Keyed}
use server_monitor.Errors.{ok}
use server_monitor.Times.{Time}
use server_monitor.WebAlerts.History.{AlertHistory, Updates, HistoryTable, updated, updates_of}

-- What is relied on of the database.
pub record TableLaws (H : HistoryTable) : Type 0 where
  pub found :
      (f : String) (t : Time) (id : ℕ) (s : H.State)
      → H.find_latest f t s ≡ ok (some id)
      → (h : AlertHistory) × (H.row id s ≡ some h) × (h.fingerprint ≡ f) × (h.fired_at ≡ t)
  pub not_found :
      (f : String) (t : Time) (id : ℕ) (h : AlertHistory) (s : H.State)
      → H.find_latest f t s ≡ ok none
      → H.row id s ≡ some h
      → h.fingerprint ≡ f
      → h.fired_at ≢ t
  pub created :
      (h : AlertHistory) (s t : H.State)
      → H.create h s ≡ ok t
      → (id : ℕ) × (H.row id s ≡ none)
        × (H.row id t ≡ some h)
        × ((j : ℕ) → j ≢ id → H.row j t ≡ H.row j s)
  pub row-updates :
      (id : ℕ) (u : Updates) (h : AlertHistory) (s t : H.State)
      → H.updates id u s ≡ ok t
      → H.row id s ≡ some h
      → (H.row id t ≡ some (updated u h)) × ((j : ℕ) → j ≢ id → H.row j t ≡ H.row j s)

module _ (H : HistoryTable) (L : TableLaws H) (marshal : Keyed String → Option String) where
  open H use {State}

  -- What archiving one alert does to the table: nothing; one new row, of a pair of fingerprint and
  -- firing time that no row has; or an update of one row, of the same pair.
  pub data Archived (s t : State) (history : AlertHistory) : Type 0 where
    unchanged : t ≡ s → Archived s t history
    added :
        (id : ℕ)
        → H.row id s ≡ none
        → H.row id t ≡ some history
        → ((j : ℕ) → j ≢ id → H.row j t ≡ H.row j s)
        → ((j : ℕ) (h : AlertHistory)
            → H.row j s ≡ some h
            → h.fingerprint ≡ history.fingerprint
            → h.fired_at ≢ history.fired_at)
        → Archived s t history
    changed :
        (id : ℕ) (h : AlertHistory)
        → H.row id s ≡ some h
        → h.fingerprint ≡ history.fingerprint
        → h.fired_at ≡ history.fired_at
        → H.row id t ≡ some (updated (updates_of history) h)
        → ((j : ℕ) → j ≢ id → H.row j t ≡ H.row j s)
        → Archived s t history

  -- No two rows have the same fingerprint and firing time.
  abbrev pub UniqueRows : State → Type 0
  UniqueRows s =
      (i j : ℕ) (g h : AlertHistory)
      → H.row i s ≡ some g
      → H.row j s ≡ some h
      → g.fingerprint ≡ h.fingerprint
      → g.fired_at ≡ h.fired_at
      → i ≡ j

  -- Each row of `s` is there in `t`, resolved if it was resolved.
  abbrev pub KeepsRows : State → State → Type 0
  KeepsRows s t =
      (i : ℕ) (h : AlertHistory)
      → H.row i s ≡ some h
      → (g : AlertHistory) × (H.row i t ≡ some g)
        × (g.fingerprint ≡ h.fingerprint)
        × (g.fired_at ≡ h.fired_at)
        × (h.status ≡ "resolved" → g.status ≡ "resolved")
