-- ===== src/Base/Sort.antt =====
-- sort.SliceStable with the test of its closure, as insertion from the right: an element goes before
-- the first that is not less than it.
use Prim.Native.Nat.{ℕ, ◌+◌}
use mathlib.Core.Path.{◌≡◌, refl}
use mathlib.Core.Logic.{inl, inr}
use mathlib.Core.Bool.{Bool, true, false}
use mathlib.Core.List.{List, [], ◌∷◌}
use native.Mathlib.Omega.{arith}
use server_monitor.Base.Tests.{if◌then◌else◌, Bool-cases}
use server_monitor.Base.Lists.{All}

module _ {ℓ} {A : Type ℓ} (less : A → A → Bool) where
  insert_stable : A → List A → List A
  insert_stable x [] = x ∷ []
  insert_stable x (y ∷ ys) =
      let rest = insert_stable x ys in if less y x then y ∷ rest else x ∷ (y ∷ ys)

  unfoldable pub sort_stable : List A → List A
  unfolding insert_stable
  sort_stable [] = []
  sort_stable (x ∷ xs) = insert_stable x (sort_stable xs)

  -- No element is less than one before it.
  abbrev pub IsOrdered : List A → Type 0
  IsOrdered [] = Unit
  IsOrdered (x ∷ xs) = All (λ y. less y x ≡ false) xs × IsOrdered xs

  -- How many elements pass a test.
  abbrev pub count_if : (A → Bool) → List A → ℕ
  count_if p [] = 0
  count_if p (x ∷ xs) = let rest = count_if p xs in if p x then rest + 1 else rest

  insert_stable-count_if :
      (p : A → Bool) (x : A) (xs : List A) → count_if p (insert_stable x xs) ≡ count_if p (x ∷ xs)
  unfolding insert_stable
  insert_stable-count_if p x [] = refl
  insert_stable-count_if p x (y ∷ ys) = ground (arith, insert_stable-count_if p x ys)

  pub sort_stable-count_if :
      (p : A → Bool) (xs : List A) → count_if p (sort_stable xs) ≡ count_if p xs
  unfolding sort_stable
  sort_stable-count_if p [] = refl
  sort_stable-count_if p (x ∷ xs) =
      ground (arith, insert_stable-count_if p x (sort_stable xs), sort_stable-count_if p xs)

  insert_stable-All :
      (P : A → Type 0) (x : A) (xs : List A) → P x → All P xs → All P (insert_stable x xs)
  unfolding insert_stable
  insert_stable-All P x [] p h = (p, tt)
  insert_stable-All P x (y ∷ ys) p h = elim (Bool-cases (less y x)) [
    | inl before ↦ rw before (h.0, insert_stable-All P x ys p h.1)
    | inr after ↦ rw after (p, h)
  ]

  All-weaken : (P Q : A → Type 0) (xs : List A) → ((x : A) → P x → Q x) → All P xs → All Q xs
  All-weaken P Q [] f h = tt
  All-weaken P Q (x ∷ xs) f h = (f x h.0, All-weaken P Q xs f h.1)

  -- `less` is a strict order, and being not less goes along the list.
  pub record IsStrict : Type ℓ where
    pub asymmetric : (a b : A) → less a b ≡ true → less b a ≡ false
    pub not_less_trans : (a b c : A) → less a b ≡ false → less b c ≡ false → less a c ≡ false

  insert_stable-IsOrdered :
      (s : IsStrict) (x : A) (xs : List A) → IsOrdered xs → IsOrdered (insert_stable x xs)
  unfolding insert_stable
  insert_stable-IsOrdered s x [] h = (tt, tt)
  insert_stable-IsOrdered s x (y ∷ ys) h = elim (Bool-cases (less y x)) [
    | inl before ↦ rw before (
      insert_stable-All (λ z. less z y ≡ false) x ys (s.asymmetric y x before) h.0,
      insert_stable-IsOrdered s x ys h.1,
    )
    | inr after ↦ rw after (
      (
        after,
        All-weaken (λ z. less z y ≡ false) (λ z. less z x ≡ false) ys
            (λ z z_y. s.not_less_trans z y x z_y after) h.0,
      ),
      h,
    )
  ]

  pub sort_stable-IsOrdered : (s : IsStrict) (xs : List A) → IsOrdered (sort_stable xs)
  unfolding sort_stable
  sort_stable-IsOrdered s [] = tt
  sort_stable-IsOrdered s (x ∷ xs) =
      insert_stable-IsOrdered s x (sort_stable xs) (sort_stable-IsOrdered s xs)
