-- ===== src/Base/Keyed.antt =====
-- Go's `map[string]V` as an association list. The order of the entries is the order of insertion;
-- the code that ranges over a map takes them in some order.
use Prim.Native.String.{String}
use mathlib.Core.Path.{◌≡◌, refl}
use mathlib.Core.Bool.{Bool, true, false}
use mathlib.Core.Option.{Option, none, some}
use mathlib.Core.List.{List, [], ◌∷◌}
use native.Mathlib.Omega.{arith}
use text.Mathlib.Text.{◌==◌}
use text.Mathlib.TextEquality.{eq_iff}
use server_monitor.Base.Tests.{if◌then◌else◌}

abbrev pub Keyed {ℓ} : Type ℓ → Type ℓ
Keyed V = List (String × V)

module _ {ℓ} {V : Type ℓ} where
  -- v, ok := m[k]
  unfoldable pub lookup : String → Keyed V → Option V
  lookup key [] = none
  lookup key ((held, value) ∷ others) = if held == key then some value else lookup key others

  -- delete(m, k)
  unfoldable pub remove : String → Keyed V → Keyed V
  remove key [] = []
  remove key ((held, value) ∷ others) =
      let kept = remove key others in if held == key then kept else (held, value) ∷ kept

  -- m[k] = v
  unfoldable pub insert : String → V → Keyed V → Keyed V
  insert key new [] = (key, new) ∷ []
  insert key new ((held, value) ∷ others) =
      if held == key then (key, new) ∷ others else (held, value) ∷ insert key new others

  pub lookup-insert :
      (key other : String) (new : V) (table : Keyed V)
      → lookup other (insert key new table)
        ≡ (if key == other then some new else lookup other table)
  unfolding lookup insert
  lookup-insert key other new [] = refl
  lookup-insert key other new ((held, value) ∷ rest) = ground (
    arith,
    eq_iff held key,
    eq_iff held other,
    eq_iff key other,
    lookup-insert key other new rest,
  )

  pub lookup-remove :
      (key other : String) (table : Keyed V)
      → lookup other (remove key table) ≡ (if key == other then none else lookup other table)
  unfolding lookup remove
  lookup-remove key other [] = ground arith
  lookup-remove key other ((held, value) ∷ rest) =
      ground
        (arith, eq_iff held key, eq_iff held other, eq_iff key other, lookup-remove key other rest)

  -- _, ok := m[k]
  unfoldable pub has_key : String → Keyed V → Bool
  unfolding lookup
  has_key k m = elim (lookup k m) [ none ↦ false | some v ↦ true ]

pub ruleset keyed_laws = (lookup-insert, lookup-remove)

-- m[k] on a `map[string]string`: the empty string where the key is missing.
unfoldable pub label : String → Keyed String → String
unfolding lookup
label k m = elim (lookup k m) [ none ↦ "" | some v ↦ v ]

-- A `map[string]struct{}` that a `var` line fills is a list of its keys.
unfoldable pub member : String → List String → Bool
member k [] = false
member k (j ∷ ks) = if j == k then true else member k ks
