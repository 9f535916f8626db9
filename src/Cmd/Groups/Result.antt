-- ===== src/Cmd/Groups/Result.antt =====
-- What groupNames returns.
use mathlib.Core.List.{flatten, Perm}
use mathlib.Core.List.Perm
use mobydig.Prelude.{
  All, All-flatten, All-map, Distinct, List, Text, [], arith, false, has, map, refl, subst, sym,
  true, ◌∙◌, ◌∷◌, ◌≡◌,
}
use mobydig.Cmd.Groups.{
  addr_less, addr_order, group_names, group_of, sort_qualified_addresses, sort_set,
}
use mobydig.Cmd.Groups.Order.{
  Ascending, IsUniform, flatten-groups_of, groups_of-InOrder, groups_of-IsUniform,
}
use mobydig.Cmd.Groups.Spec.{group_names-groups_of, groups_of}
use mobydig.Cmd.Names.{fqdn_less, fqdn_order, sort_fqdns}
use mobydig.Dig.AddrMap.{NamedAddressSet}
use mobydig.Prelude.Order.{text_lt, text_lt_irrefl, text_lt_trans}
use mobydig.Prelude.Sorting.{IsSorted, sort_slice-IsSorted, sort_slice-perm, sort_slice_of_IsSorted}

Ascending-below :
    (n : Text) (ns : List Text) → Ascending (n ∷ ns) → All (λ m. text_lt n m ≡ true) ns
Ascending-below n [] h = tt
Ascending-below n (m ∷ ns) (lt, h) =
    (lt, All-map (λ k below. text_lt_trans n m k lt below) ns (Ascending-below m ns h))

below-has : (n : Text) (ns : List Text) → All (λ m. text_lt n m ≡ true) ns → has n ns ≡ false
unfolding has
below-has n [] h = refl
below-has n (m ∷ ns) (lt, h) = ground (arith, text_lt_irrefl n, below-has n ns h, lt)

Ascending-Distinct : (ns : List Text) → Ascending ns → Distinct ns
Ascending-Distinct [] h = tt
Ascending-Distinct (n ∷ []) h = unfold has in (refl, tt)
Ascending-Distinct (n ∷ m ∷ ns) h =
    (below-has n (m ∷ ns) (Ascending-below n (m ∷ ns) h), Ascending-Distinct (m ∷ ns) h.1)

-- To sort the addresses of an element does not change its place.
map-sort_set-IsSorted :
    (ip : Text → Text) (addrs : List NamedAddressSet)
    → IsSorted fqdn_less addrs
    → IsSorted fqdn_less (map (sort_set ip) addrs)
unfolding sort_set fqdn_less
map-sort_set-IsSorted ip [] h = tt
map-sort_set-IsSorted ip (a ∷ []) h = tt
map-sort_set-IsSorted ip (a ∷ b ∷ addrs) (p, h) = (p, map-sort_set-IsSorted ip (b ∷ addrs) h)

map-sort_fqdns :
    (gs : List (List NamedAddressSet)) → All (IsSorted fqdn_less) gs → map sort_fqdns gs ≡ gs
unfolding sort_fqdns
map-sort_fqdns [] h = refl
map-sort_fqdns (g ∷ gs) (s, h) = rw (sort_slice_of_IsSorted fqdn_less g s, map-sort_fqdns gs h) refl

-- The second sorting changes nothing.
pub group_names-sorted :
    (ip : Text → Text) (addrs : List NamedAddressSet)
    → group_names ip addrs ≡ groups_of (map (sort_set ip) (sort_fqdns addrs))
unfolding sort_fqdns
group_names-sorted ip addrs =
    let sorting = sort_slice-IsSorted fqdn_order addrs in
    group_names-groups_of ip addrs
    ∙ map-sort_fqdns _ (groups_of-InOrder _ (map-sort_set-IsSorted ip (sort_fqdns addrs) sorting)).1

-- The addresses of each element are sorted.
map-sort_set-addresses :
    (ip : Text → Text) (addrs : List NamedAddressSet)
    → All (λ s. IsSorted (addr_less ip) s.addresses) (map (sort_set ip) addrs)
unfolding sort_set sort_qualified_addresses
map-sort_set-addresses ip [] = tt
map-sort_set-addresses ip (s ∷ addrs) =
    (sort_slice-IsSorted (addr_order ip) s.addresses, map-sort_set-addresses ip addrs)

-- The groups hold the given elements.
abbrev pub IsGrouped : (Text → Text) → List NamedAddressSet → List (List NamedAddressSet) → Type 0
IsGrouped ip addrs gs =
    Perm (flatten gs) (map (sort_set ip) addrs)
    × All IsUniform gs
    × Ascending (map group_of gs)
    × Distinct (map group_of gs)
    × All (IsSorted fqdn_less) gs
    × All (All (λ s. IsSorted (addr_less ip) s.addresses)) gs

sorted_groups-IsGrouped :
    (ip : Text → Text) (addrs sorted : List NamedAddressSet)
    → Perm sorted addrs
    → IsSorted fqdn_less sorted
    → IsGrouped ip addrs (groups_of (map (sort_set ip) sorted))
sorted_groups-IsGrouped ip addrs sorted p h =
    let entries = map (sort_set ip) sorted in
    let (ascending, all_sorted) = groups_of-InOrder entries (map-sort_set-IsSorted ip sorted h) in
    (
      rw (flatten-groups_of entries) (Perm.map (sort_set ip) p),
      groups_of-IsUniform entries,
      ascending,
      Ascending-Distinct (map group_of (groups_of entries)) ascending,
      all_sorted,
      All-flatten _ (groups_of entries)
          (rw (flatten-groups_of entries) (map-sort_set-addresses ip sorted)),
    )

-- The groups that groupNames returns hold each of the names it is given, as often, with its
-- addresses sorted; no group is empty, all names of a group are of one network or of none, the names
-- of the networks ascend from group to group, so that no network has two groups, and within a group
-- no name is less than the one before it; and for each name no address is less than the one before
-- it, by the bytes of its IP.
pub group_names-IsGrouped :
    (ip : Text → Text) (addrs : List NamedAddressSet) → IsGrouped ip addrs (group_names ip addrs)
unfolding sort_fqdns
group_names-IsGrouped ip addrs =
    let sorted = sort_fqdns addrs in
    let sorting = sort_slice-IsSorted fqdn_order addrs in
    let grouped =
      sorted_groups-IsGrouped ip addrs sorted (sort_slice-perm fqdn_less addrs) sorting in
    subst (IsGrouped ip addrs) (sym (group_names-sorted ip addrs)) grouped
