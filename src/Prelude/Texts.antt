-- ===== src/Prelude/Texts.antt =====
-- Go strings: sequences of bytes.
use Prim.Native.Nat.{ℕ}
use Prim.Native.Char.{code}
use Prim.Native.String.{String}
use mathlib.Core.Path.{◌≡◌, refl}
use mathlib.Core.Bool.{Bool, true, false, ◌||◌}
use mathlib.Core.Logic.{ite}
use mathlib.Core.List.{List, [], ◌∷◌, ◌++◌}
use native.Mathlib.Omega.{arith}
use native.Mathlib.Decide.{ℕ_discrete}

abbrev pub Text : Type 0
Text = List ℕ

-- The bytes of an ASCII literal.
abbrev pub codes : String → Text
codes String.[] = []
codes (String.◌∷◌ c s) = code c ∷ codes s

both :
    {x y : ℕ} {xs ys : Text} → Dec (x ≡ y) → Dec (xs ≡ ys) → Dec (◌≡◌ {A = Text} (x ∷ xs) (y ∷ ys))
both (yes p) (yes q) = yes (cc)
both (yes p) (no q) = no (λ e. q (cc))
both (no p) d = no (λ e. p (cc))

-- `==` of two strings.
unfoldable pub text_discrete : Discrete Text
unfolding both ℕ_discrete
text_discrete [] [] = yes refl
text_discrete [] (y ∷ ys) = no (λ e. cc)
text_discrete (x ∷ xs) [] = no (λ e. cc)
text_discrete (x ∷ xs) (y ∷ ys) = both (ℕ_discrete x y) (text_discrete xs ys)

-- Is the text in the list? The source's loops that look for a name.
unfoldable pub has : Text → List Text → Bool
has x [] = false
has x (y ∷ ys) = ite (text_discrete y x) true (has x ys)

-- No text stands in the list twice.
abbrev pub Distinct : List Text → Type 0
Distinct [] = Unit
Distinct (x ∷ xs) = (has x xs ≡ false) × Distinct xs

pub has-append : (x : Text) (xs ys : List Text) → has x (xs ++ ys) ≡ (has x xs || has x ys)
unfolding has
has-append x [] ys = refl
has-append x (y ∷ xs) ys = ground (arith, has-append x xs ys)

pub has-snoc :
    (x y : Text) (xs : List Text) → has x (xs ++ y ∷ []) ≡ ite (text_discrete y x) true (has x xs)
unfolding has
has-snoc x y [] = refl
has-snoc x y (z ∷ xs) = ground (arith, has-snoc x y xs)

pub Distinct-snoc :
    (x : Text) (xs : List Text) → has x xs ≡ false → Distinct xs → Distinct (xs ++ x ∷ [])
unfolding has
Distinct-snoc x [] h d = (refl, tt)
Distinct-snoc x (y ∷ xs) h d = ground (arith, has-snoc y x xs, Distinct-snoc x xs)
