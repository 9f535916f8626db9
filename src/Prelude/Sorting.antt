-- ===== src/Prelude/Sorting.antt =====
-- sort.Slice, by insertion: the list is permuted so that no element is less than the one before it.
-- In Go it is open which of the elements comes first that `less` does not tell apart.
use mathlib.Core.Path.{◌≡◌, refl, ap, ◌∙◌}
use mathlib.Core.Bool.{Bool, true, false}
use mathlib.Core.List.{List, [], ◌∷◌, Perm}
use mathlib.Core.List.Perm
use native.Mathlib.Omega.{arith}
use Prim.Native.Nat.{suc}
use mobydig.Prelude.Lists.{All, length}
use mobydig.Prelude.Tests.{if◌then◌else◌, Bool-cases}
use mathlib.Core.Logic.{inl, inr}

module _ {ℓ} {A : Type ℓ} (less : A → A → Bool) where
  unfoldable pub insert_sorted : A → List A → List A
  insert_sorted x [] = x ∷ []
  insert_sorted x (y ∷ ys) = if less y x then y ∷ insert_sorted x ys else x ∷ y ∷ ys

  unfoldable pub sort_slice : List A → List A
  unfolding insert_sorted
  sort_slice [] = []
  sort_slice (x ∷ xs) = insert_sorted x (sort_slice xs)

  -- No element is less than its predecessor.
  abbrev pub IsSorted : List A → Type 0
  IsSorted [] = Unit
  IsSorted (x ∷ []) = Unit
  IsSorted (x ∷ y ∷ xs) = (less y x ≡ false) × IsSorted (y ∷ xs)

  insert_sorted-perm : (x : A) (xs : List A) → Perm (insert_sorted x xs) (x ∷ xs)
  unfolding insert_sorted
  insert_sorted-perm x [] = Perm.rfl
  insert_sorted-perm x (y ∷ ys) = elim (Bool-cases (less y x)) [
    | inl e ↦
        rw (e, insert_sorted)
          (Perm.trans (Perm.cons y (insert_sorted-perm x ys)) (Perm.swap x y ys))
    | inr e ↦ rw (e, insert_sorted) Perm.rfl
  ]

  pub sort_slice-perm : (xs : List A) → Perm (sort_slice xs) xs
  unfolding sort_slice
  sort_slice-perm [] = Perm.rfl
  sort_slice-perm (x ∷ xs) =
      Perm.trans (insert_sorted-perm x (sort_slice xs)) (Perm.cons x (sort_slice-perm xs))

  length-insert_sorted : (x : A) (xs : List A) → length (insert_sorted x xs) ≡ suc (length xs)
  unfolding insert_sorted
  length-insert_sorted x [] = refl
  length-insert_sorted x (y ∷ ys) = ground (arith, length-insert_sorted x ys)

  pub length-sort_slice : (xs : List A) → length (sort_slice xs) ≡ length xs
  unfolding sort_slice
  length-sort_slice [] = refl
  length-sort_slice (x ∷ xs) =
      length-insert_sorted x (sort_slice xs) ∙ ap suc (length-sort_slice xs)

  -- A list that is sorted stays as it is.
  pub sort_slice_of_IsSorted : (xs : List A) → IsSorted xs → sort_slice xs ≡ xs
  unfolding sort_slice
  sort_slice_of_IsSorted [] h = refl
  sort_slice_of_IsSorted (x ∷ []) h = refl
  sort_slice_of_IsSorted (x ∷ y ∷ xs) (p, h) =
      rw (sort_slice_of_IsSorted (y ∷ xs) h) (rw (p, insert_sorted))

-- What sort.Slice asks of its `less`: of two elements, not each is less than the other.
pub record Less {ℓ} (A : Type ℓ) : Type ℓ where
  pub less : A → A → Bool
  pub asymm : (x y : A) → less x y ≡ true → less y x ≡ false

module _ {ℓ} {A : Type ℓ} (order : Less A) where
  open order use {less, asymm}

  insert_sorted-IsSorted :
      (x : A) (xs : List A) → IsSorted less xs → IsSorted less (insert_sorted less x xs)
  unfolding insert_sorted
  insert_sorted-IsSorted x [] h = tt
  insert_sorted-IsSorted x (y ∷ []) h = ground (arith, asymm y x)
  insert_sorted-IsSorted x (y ∷ z ∷ ys) (p, h) =
      ground (arith, asymm y x, insert_sorted-IsSorted x (z ∷ ys) h, p)

  pub sort_slice-IsSorted : (xs : List A) → IsSorted less (sort_slice less xs)
  unfolding sort_slice
  sort_slice-IsSorted [] = tt
  sort_slice-IsSorted (x ∷ xs) =
      insert_sorted-IsSorted x (sort_slice less xs) (sort_slice-IsSorted xs)

module _ {ℓ κ} {A : Type ℓ} (less : A → A → Bool) (P : A → Type κ) where
  All-insert_sorted : (x : A) (xs : List A) → P x → All P xs → All P (insert_sorted less x xs)
  unfolding insert_sorted
  All-insert_sorted x [] p h = (p, tt)
  All-insert_sorted x (y ∷ ys) p (q, h) = elim (Bool-cases (less y x)) [
    | inl e ↦ rw (e, insert_sorted) (q, All-insert_sorted x ys p h)
    | inr e ↦ rw (e, insert_sorted) (p, (q, h))
  ]

  pub All-sort_slice : (xs : List A) → All P xs → All P (sort_slice less xs)
  unfolding sort_slice
  All-sort_slice [] h = tt
  All-sort_slice (x ∷ xs) (p, h) = All-insert_sorted x (sort_slice less xs) p (All-sort_slice xs h)
