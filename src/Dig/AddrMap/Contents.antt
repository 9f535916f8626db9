-- ===== src/Dig/AddrMap/Contents.antt =====
-- What `Get` of dig/addrmap.go hands out, against what the map says.
use mobydig.Prelude.{
  Any, Distinct, List, Text, [], arith, has, inl, inr, some, text_discrete, true, ◌↔◌, ◌∷◌, ◌≡◌,
  ◌≢◌,
}
use mobydig.Dig.AddrMap.{NamedAddressSet, NamedAddressesMap, get}
use mobydig.Dig.AddrMap.Invariant.{AllNonempty, IsValid, IsValidEntry, addresses_of}
use mobydig.Dig.AddrMap.View.{quality_at, view}
use mobydig.Prelude.Dict.{Entries, keys, lookup}
use mobydig.Types.Addr.{QualifiedAddressValue}
use mobydig.Types.Quality.{Quality}

-- The slice holds the address with the quality.
abbrev pub HasAddress : Text → Quality → List QualifiedAddressValue → Type 0
HasAddress a q = Any (λ v. (v.address ≡ a) × (v.quality ≡ q))

-- The sets hold, for the name, the address with the quality.
abbrev pub Lists : Text → Text → Quality → List NamedAddressSet → Type 0
Lists n a q = Any (λ s. (s.fqdn ≡ n) × HasAddress a q s.addresses)

HasAddress-has :
    (a : Text) (q : Quality) (vs : List QualifiedAddressValue)
    → HasAddress a q vs
    → has a (addresses_of vs) ≡ true
unfolding has
HasAddress-has a q [] h = absurd h
HasAddress-has a q (v ∷ vs) (inl (e, f)) = ground (arith, e)
HasAddress-has a q (v ∷ vs) (inr h) = ground (arith, HasAddress-has a q vs h)

quality_at-HasAddress :
    (a : Text) (q : Quality) (vs : List QualifiedAddressValue)
    → quality_at a vs ≡ some q
    → HasAddress a q vs
unfolding quality_at
quality_at-HasAddress a q [] h = cc
quality_at-HasAddress a q (v ∷ vs) h = elim (text_discrete v.address a) [
  | yes e ↦ inl (e, ground (arith, e))
  | no ne ↦ inr (quality_at-HasAddress a q vs (ground (arith, ne)))
]

quality_at_of_HasAddress :
    (a : Text) (q : Quality) (vs : List QualifiedAddressValue)
    → Distinct (addresses_of vs)
    → HasAddress a q vs
    → quality_at a vs ≡ some q
unfolding quality_at has
quality_at_of_HasAddress a q [] d h = absurd h
quality_at_of_HasAddress a q (v ∷ vs) d (inl (e, f)) = ground (arith, e, f)
quality_at_of_HasAddress a q (v ∷ vs) (unlike, d) (inr h) =
    ground (arith, HasAddress-has a q vs h, quality_at_of_HasAddress a q vs d h, unlike)

Lists-has :
    (n a : Text) (q : Quality) (m : NamedAddressesMap) → Lists n a q (get m) → has n (keys m) ≡ true
unfolding has get
Lists-has n a q [] h = absurd h
Lists-has n a q ((k, vs) ∷ m) (inl (e, f)) = ground (arith, e)
Lists-has n a q ((k, vs) ∷ m) (inr h) = ground (arith, Lists-has n a q m h)

view-Lists :
    (n a : Text) (q : Quality) (m : NamedAddressesMap) → view m n a ≡ some q → Lists n a q (get m)
unfolding view lookup get
view-Lists n a q [] h = cc
view-Lists n a q ((k, vs) ∷ m) h = elim (text_discrete k n) [
  | yes e ↦ inl (e, quality_at-HasAddress a q vs (ground (arith, e)))
  | no ne ↦ inr (view-Lists n a q m (ground (arith, ne)))
]

view_of_Lists :
    (n a : Text) (q : Quality) (m : NamedAddressesMap)
    → Distinct (keys m)
    → Entries IsValidEntry m
    → Lists n a q (get m)
    → view m n a ≡ some q
unfolding view lookup get has
view_of_Lists n a q [] d v h = absurd h
view_of_Lists n a q ((k, vs) ∷ m) d ((p, dv, ne), v) (inl (e, f)) =
    ground (arith, e, quality_at_of_HasAddress a q vs dv f)
view_of_Lists n a q ((k, vs) ∷ m) (unlike, d) (x, v) (inr h) =
    ground (arith, Lists-has n a q m h, view_of_Lists n a q m d v h, unlike)

-- For each name, `Get` lists just the addresses that the map has for it, with their qualities.
pub get-Lists :
    (n a : Text) (q : Quality) (m : NamedAddressesMap)
    → IsValid m
    → Lists n a q (get m) ↔ (view m n a ≡ some q)
get-Lists n a q m v = (view_of_Lists n a q m v.names v.entries, view-Lists n a q m)

HasAddress-nonempty :
    (a : Text) (q : Quality) (vs : List QualifiedAddressValue)
    → AllNonempty (addresses_of vs)
    → HasAddress a q vs
    → a ≢ []
HasAddress-nonempty a q [] ne h = absurd h
HasAddress-nonempty a q (v ∷ vs) (ne, nes) (inl (e, f)) = ground (arith, e, ne)
HasAddress-nonempty a q (v ∷ vs) (ne, nes) (inr h) = HasAddress-nonempty a q vs nes h

-- A map that is well-formed lists neither an empty name nor an empty address.
pub Lists-nonempty :
    (n a : Text) (q : Quality) (m : NamedAddressesMap)
    → Entries IsValidEntry m
    → Lists n a q (get m)
    → (n ≢ []) × (a ≢ [])
unfolding get
Lists-nonempty n a q [] v h = absurd h
Lists-nonempty n a q ((k, vs) ∷ m) ((p, d, ne), v) (inl (e, f)) =
    (ground (arith, e, p), HasAddress-nonempty a q vs ne f)
Lists-nonempty n a q ((k, vs) ∷ m) (x, v) (inr h) = Lists-nonempty n a q m v h
