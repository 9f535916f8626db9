-- ===== src/Prelude/Existence.antt =====
-- Some element of a list has a property: what keeps it so.
use mathlib.Core.Path.{◌≡◌, refl, subst, sym}
use mathlib.Core.Bool.{Bool}
use mathlib.Core.Logic.{inl, inr}
use mathlib.Core.List.{List, [], ◌∷◌, map, flatten}
use mobydig.Prelude.Lists.{All, Any}
use mobydig.Prelude.Sorting.{insert_sorted, sort_slice}
use mobydig.Prelude.Tests.{Bool-cases}

pub Any-map {ℓ κ} :
    {A : Type ℓ} {B : Type κ} (P : A → Type 0) (Q : B → Type 0) (f : A → B)
    → ((x : A) → P x → Q (f x))
    → (xs : List A) → Any P xs
    → Any Q (map f xs)
Any-map P Q f keeps [] h = absurd h
Any-map P Q f keeps (x ∷ xs) (inl p) = inl (keeps x p)
Any-map P Q f keeps (x ∷ xs) (inr h) = inr (Any-map P Q f keeps xs h)

module _ {ℓ} {A : Type ℓ} (P : A → Type 0) where
  -- An element of some lists joined is an element of one of them.
  pub Any-flatten : (xss : List (List A)) → Any P (flatten xss) → Any (Any P) xss
  unfolding flatten
  Any-flatten [] h = absurd h
  Any-flatten ([] ∷ xss) h = inr (Any-flatten xss h)
  Any-flatten ((x ∷ xs) ∷ xss) (inl p) = inl (inl p)
  Any-flatten ((x ∷ xs) ∷ xss) (inr h) = elim (Any-flatten (xs ∷ xss) h) [
    | inl k ↦ inl (inr k)
    | inr k ↦ inr k
  ]

  module _ (less : A → A → Bool) where
    Any-insert_sorted : (x : A) (xs : List A) → Any P (x ∷ xs) → Any P (insert_sorted less x xs)
    unfolding insert_sorted
    Any-insert_sorted x [] h = h
    Any-insert_sorted x (y ∷ ys) h = elim (Bool-cases (less y x)) [
      | inl e ↦
          rw (e, insert_sorted)
            (elim h [
              | inl p ↦ inr (Any-insert_sorted x ys (inl p))
              | inr k ↦ elim k [ inl p ↦ inl p | inr k ↦ inr (Any-insert_sorted x ys (inr k)) ]
            ])
      | inr e ↦ rw (e, insert_sorted) h
    ]

    pub Any-sort_slice : (xs : List A) → Any P xs → Any P (sort_slice less xs)
    unfolding sort_slice
    Any-sort_slice [] h = h
    Any-sort_slice (x ∷ xs) (inl p) = Any-insert_sorted x (sort_slice less xs) (inl p)
    Any-sort_slice (x ∷ xs) (inr h) =
        Any-insert_sorted x (sort_slice less xs) (inr (Any-sort_slice xs h))

-- What holds of all elements holds of each.
pub All-at {κ} :
    {A : Type 0} (P : A → Type κ) (x : A) (xs : List A) → All P xs → Any (λ k. k ≡ x) xs → P x
All-at P x [] h k = absurd k
All-at P x (y ∷ xs) (p, h) (inl e) = subst P e p
All-at P x (y ∷ xs) (p, h) (inr k) = All-at P x xs h k

pub Any-at :
    {A : Type 0} (P : A → Type 0) (xs : List A) → Any P xs → (x : A) × Any (λ k. k ≡ x) xs × P x
Any-at P [] h = absurd h
Any-at P (y ∷ xs) (inl p) = (y, inl refl, p)
Any-at P (y ∷ xs) (inr h) = let (x, k, p) = Any-at P xs h in (x, inr k, p)

pub Any-of :
    {A : Type 0} (P : A → Type 0) (x : A) (xs : List A) → Any (λ k. k ≡ x) xs → P x → Any P xs
Any-of P x [] k p = absurd k
Any-of P x (y ∷ xs) (inl e) p = inl (subst P (sym e) p)
Any-of P x (y ∷ xs) (inr k) p = inr (Any-of P x xs k p)
