-- ===== src/Cmd/Shared.antt =====
-- Get of dig/addrmap.go hands out the slices of the map itself, and groupNames of
-- cmd/mobydig/display.go sorts them in place: a call of Render writes to the map, here in one step.
use mobydig.Prelude.{
  Bool, Bool-cases, Distinct, List, Text, [], ap, arith, false, has, inl, inr, map, refl, ◌∙◌, ◌∷◌,
  ◌≡◌, ◌≢◌,
}
use mobydig.Cmd.Groups.{addr_less, sort_qualified_addresses, sort_set}
use mobydig.Dig.AddrMap.{NamedAddressesMap, get}
use mobydig.Dig.AddrMap.Abstract.{state_of, state_of-Agree}
use mobydig.Dig.AddrMap.Invariant.{AllNonempty, IsValid, IsValidEntry, addresses_of}
use mobydig.Dig.AddrMap.View.{quality_at, view}
use mobydig.Prelude.Dict.{Entries, keys, lookup}
use mobydig.Prelude.Sorting.{insert_sorted, sort_slice}
use mobydig.Types.Addr.{QualifiedAddressValue}

-- The map after Render has sorted the slices that Get has handed out.
unfoldable pub sort_shared : (Text → Text) → NamedAddressesMap → NamedAddressesMap
sort_shared ip [] = []
sort_shared ip ((name, addrs) ∷ m) = (name, sort_qualified_addresses ip addrs) ∷ sort_shared ip m

-- These are the slices that Render's own list holds.
get-sort_shared :
    (ip : Text → Text) (m : NamedAddressesMap) → get (sort_shared ip m) ≡ map (sort_set ip) (get m)
unfolding get sort_shared sort_set
get-sort_shared ip [] = refl
get-sort_shared ip ((name, addrs) ∷ m) = cc (get-sort_shared ip m)

module _ (less : QualifiedAddressValue → QualifiedAddressValue → Bool) where
  has-insert_sorted :
      (x : Text) (v : QualifiedAddressValue) (vs : List QualifiedAddressValue)
      → has x (addresses_of (insert_sorted less v vs)) ≡ has x (v.address ∷ addresses_of vs)
  unfolding insert_sorted has
  has-insert_sorted x v [] = refl
  has-insert_sorted x v (w ∷ vs) = ground (arith, has-insert_sorted x v vs)

  insert_sorted-Distinct :
      (v : QualifiedAddressValue) (vs : List QualifiedAddressValue)
      → Distinct (v.address ∷ addresses_of vs)
      → Distinct (addresses_of (insert_sorted less v vs))
  unfolding insert_sorted has
  insert_sorted-Distinct v [] h = h
  insert_sorted-Distinct v (w ∷ vs) (unlike, (apart, h)) = elim (Bool-cases (less w v)) [
    | inl e ↦
        rw (e, insert_sorted)
          (
            ground (arith, has-insert_sorted w.address v vs, unlike, apart),
            insert_sorted-Distinct v vs (ground (arith, unlike), h),
          )
    | inr e ↦ rw (e, insert_sorted) (unlike, (apart, h))
  ]

  insert_sorted-AllNonempty :
      (v : QualifiedAddressValue) (vs : List QualifiedAddressValue)
      → v.address ≢ []
      → AllNonempty (addresses_of vs)
      → AllNonempty (addresses_of (insert_sorted less v vs))
  unfolding insert_sorted
  insert_sorted-AllNonempty v [] p h = (p, tt)
  insert_sorted-AllNonempty v (w ∷ vs) p (q, h) = elim (Bool-cases (less w v)) [
    | inl e ↦ rw (e, insert_sorted) (q, insert_sorted-AllNonempty v vs p h)
    | inr e ↦ rw (e, insert_sorted) (p, (q, h))
  ]

  quality_at-insert_sorted :
      (a : Text) (v : QualifiedAddressValue) (vs : List QualifiedAddressValue)
      → has v.address (addresses_of vs) ≡ false
      → quality_at a (insert_sorted less v vs) ≡ quality_at a (v ∷ vs)
  unfolding insert_sorted quality_at has
  quality_at-insert_sorted a v [] h = refl
  quality_at-insert_sorted a v (w ∷ vs) h = ground (arith, quality_at-insert_sorted a v vs, h)

  has-sort_slice :
      (x : Text) (vs : List QualifiedAddressValue)
      → has x (addresses_of (sort_slice less vs)) ≡ has x (addresses_of vs)
  unfolding sort_slice has
  has-sort_slice x [] = refl
  has-sort_slice x (v ∷ vs) =
      has-insert_sorted x v (sort_slice less vs) ∙ ground (arith, has-sort_slice x vs)

  sort_slice-Distinct :
      (vs : List QualifiedAddressValue)
      → Distinct (addresses_of vs)
      → Distinct (addresses_of (sort_slice less vs))
  unfolding sort_slice
  sort_slice-Distinct [] h = tt
  sort_slice-Distinct (v ∷ vs) (unlike, h) =
      insert_sorted-Distinct v (sort_slice less vs)
        (has-sort_slice v.address vs ∙ unlike, sort_slice-Distinct vs h)

  sort_slice-AllNonempty :
      (vs : List QualifiedAddressValue)
      → AllNonempty (addresses_of vs)
      → AllNonempty (addresses_of (sort_slice less vs))
  unfolding sort_slice
  sort_slice-AllNonempty [] h = tt
  sort_slice-AllNonempty (v ∷ vs) (p, h) =
      insert_sorted-AllNonempty v (sort_slice less vs) p (sort_slice-AllNonempty vs h)

  quality_at-sort_slice :
      (a : Text) (vs : List QualifiedAddressValue)
      → Distinct (addresses_of vs)
      → quality_at a (sort_slice less vs) ≡ quality_at a vs
  unfolding sort_slice quality_at
  quality_at-sort_slice a [] h = refl
  quality_at-sort_slice a (v ∷ vs) (unlike, h) =
      quality_at-insert_sorted a v (sort_slice less vs) (has-sort_slice v.address vs ∙ unlike)
      ∙ ground (arith, quality_at-sort_slice a vs h)

module _ (ip : Text → Text) where
  keys-sort_shared : (m : NamedAddressesMap) → keys (sort_shared ip m) ≡ keys m
  unfolding sort_shared
  keys-sort_shared [] = refl
  keys-sort_shared ((name, addrs) ∷ m) = ap (◌∷◌ name) (keys-sort_shared m)

  sort_shared-Entries :
      (m : NamedAddressesMap) → Entries IsValidEntry m → Entries IsValidEntry (sort_shared ip m)
  unfolding sort_shared sort_qualified_addresses
  sort_shared-Entries [] h = tt
  sort_shared-Entries ((name, addrs) ∷ m) ((p, d, ne), h) = (
    (p, sort_slice-Distinct (addr_less ip) addrs d, sort_slice-AllNonempty (addr_less ip) addrs ne),
    sort_shared-Entries m h,
  )

  sort_shared-IsValid : (m : NamedAddressesMap) → IsValid m → IsValid (sort_shared ip m)
  sort_shared-IsValid m v = record {
    names = rw (keys-sort_shared m) v.names;
    entries = sort_shared-Entries m v.entries;
  }

  view_shared :
      (m : NamedAddressesMap) (n a : Text)
      → Entries IsValidEntry m
      → view (sort_shared ip m) n a ≡ view m n a
  unfolding sort_shared sort_qualified_addresses view lookup
  view_shared [] n a h = refl
  view_shared ((name, addrs) ∷ m) n a ((p, d, ne), h) =
      ground (arith, quality_at-sort_slice (addr_less ip) a addrs d, view_shared m n a h)

  -- That Render sorts the slices of the map keeps the map well-formed, and changes the quality of no
  -- name and address.
  pub sort_shared-view :
      (m : NamedAddressesMap)
      → IsValid m
      → IsValid (sort_shared ip m) × ((n a : Text) → view (sort_shared ip m) n a ≡ view m n a)
  sort_shared-view m v = (sort_shared-IsValid m v, λ n a. view_shared m n a v.entries)

  -- So that the abstract state of the map stays.
  pub sort_shared-state :
      (m : NamedAddressesMap) → IsValid m → state_of (sort_shared ip m) ≡ state_of m
  sort_shared-state m v =
      (state_of-Agree (sort_shared ip m) m).1 (λ n a hn ha. view_shared m n a v.entries)
