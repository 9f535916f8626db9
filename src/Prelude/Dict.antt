-- ===== src/Prelude/Dict.antt =====
-- Go's `map[string]V` as an association list in the order of first insertion.
use mathlib.Core.Path.{◌≡◌, refl}
use mathlib.Core.Logic.{ite, if_pos, if_neg}
use mathlib.Core.Bool.{true, false}
use mathlib.Core.List.{List, [], ◌∷◌}
use mathlib.Core.Option.{Option, none, some}
use native.Mathlib.Omega.{arith}
use mobydig.Prelude.Texts.{Text, Distinct, text_discrete, has}

module _ {ℓ} {V : Type ℓ} where
  -- `v, ok := m[k]`
  unfoldable pub lookup : Text → List (Text × V) → Option V
  lookup k [] = none
  lookup k ((j, v) ∷ m) = ite (text_discrete j k) (some v) (lookup k m)

  -- `m[k] = v`
  unfoldable pub insert : Text → V → List (Text × V) → List (Text × V)
  insert k v [] = (k, v) ∷ []
  insert k v ((j, w) ∷ m) = ite (text_discrete j k) ((j, v) ∷ m) ((j, w) ∷ insert k v m)

  pub lookup-insert :
      (k j : Text) (v : V) (m : List (Text × V))
      → lookup j (insert k v m) ≡ ite (text_discrete k j) (some v) (lookup j m)
  unfolding lookup insert
  lookup-insert k j v [] = refl
  lookup-insert k j v ((i, w) ∷ m) = ground (arith, lookup-insert k j v m)

  abbrev pub keys : List (Text × V) → List Text
  keys [] = []
  keys (e ∷ m) = e.0 ∷ keys m

  has-insert_of :
      (x k : Text) (v : V) (m : List (Text × V))
      → has x (keys (insert k v m)) ≡ ite (text_discrete k x) true (has x (keys m))
  unfolding insert has
  has-insert_of x k v [] = refl
  has-insert_of x k v ((j, w) ∷ m) = ground (arith, has-insert_of x k v m)

  -- A map has each key once.
  pub Distinct-insert :
      (k : Text) (v : V) (m : List (Text × V)) → Distinct (keys m) → Distinct (keys (insert k v m))
  unfolding insert has
  Distinct-insert k v [] d = (refl, tt)
  Distinct-insert k v ((j, w) ∷ m) d = ground (arith, has-insert_of j k v m, Distinct-insert k v m)

  has-keys-some :
      (k : Text) (m : List (Text × V)) (v : V) → lookup k m ≡ some v → has k (keys m) ≡ true
  unfolding lookup has
  has-keys-some k [] v h = cc
  has-keys-some k ((j, w) ∷ m) v h = ground (arith, has-keys-some k m v)

  has-keys-none : (k : Text) (m : List (Text × V)) → lookup k m ≡ none → has k (keys m) ≡ false
  unfolding lookup has
  has-keys-none k [] h = refl
  has-keys-none k ((j, w) ∷ m) h = ground (arith, has-keys-none k m)

module _ {ℓ κ} {V : Type ℓ} (P : Text → V → Type κ) where
  -- Every entry of the map has the property.
  abbrev pub Entries : List (Text × V) → Type κ
  Entries [] = Unit
  Entries (e ∷ m) = P e.0 e.1 × Entries m

  pub Entries-insert :
      (k : Text) (v : V) (m : List (Text × V)) → P k v → Entries m → Entries (insert k v m)
  unfolding insert
  Entries-insert k v [] p all = (p, tt)
  Entries-insert k v ((j, w) ∷ m) p all = elim (text_discrete j k) [
    | yes e ↦ rw (if_pos _ e) (rw e p, all.1)
    | no e ↦ rw (if_neg _ e) (all.0, Entries-insert k v m p all.1)
  ]

  pub Entries-lookup :
      (k : Text) (v : V) (m : List (Text × V)) → Entries m → lookup k m ≡ some v → P k v
  unfolding lookup
  Entries-lookup k v [] all h = cc
  Entries-lookup k v ((j, w) ∷ m) all h = elim (text_discrete j k) [
    | yes e ↦ let p : w ≡ v = ground arith in rw (← e, ← p) all.0
    | no e ↦ Entries-lookup k v m all.1 (ground arith)
  ]
