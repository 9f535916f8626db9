-- ===== src/Cmd/Groups.antt =====
-- groupNames of cmd/mobydig/display.go. `ip` stands for net.ParseIP, as bytes.
-- A `nil` slice is the empty list: where the code makes an empty recentGroup, it appends to it.
pub mod Spec
pub mod Order
pub mod Result
use mobydig.Prelude.{Bool, List, Text, [], false, ite, map, text_discrete, true, ◌++◌, ◌∷◌, ◌≡◌}
use mobydig.Cmd.Names.{group_name, sort_fqdns}
use mobydig.Dig.AddrMap.{NamedAddressSet}
use mobydig.Prelude.Order.{text_lt, text_lt_asymm}
use mobydig.Prelude.Sorting.{Less, sort_slice}
use mobydig.Types.Addr.{QualifiedAddressValue, addr}

-- sortQualifiedAddresses
unfoldable pub addr_less : (Text → Text) → QualifiedAddressValue → QualifiedAddressValue → Bool
unfolding text_lt
addr_less ip a b = text_lt (ip a.address) (ip b.address)

pub addr_less_asymm :
    (ip : Text → Text) (a b : QualifiedAddressValue)
    → addr_less ip a b ≡ true
    → addr_less ip b a ≡ false
unfolding addr_less
addr_less_asymm ip a b = text_lt_asymm (ip a.address) (ip b.address)

abbrev pub addr_order : (Text → Text) → Less QualifiedAddressValue
addr_order ip = record { less = addr_less ip; asymm = addr_less_asymm ip }

unfoldable pub sort_qualified_addresses :
    (Text → Text) → List QualifiedAddressValue → List QualifiedAddressValue
unfolding addr_less sort_slice
sort_qualified_addresses ip addrs = sort_slice (addr_less ip) addrs

-- One element of the first loop, after its slice of addresses has been sorted in place.
unfoldable pub sort_set : (Text → Text) → NamedAddressSet → NamedAddressSet
unfolding sort_qualified_addresses
sort_set ip addr = record addr { addresses = sort_qualified_addresses ip addr.addresses }

-- The variables of the first loop.
pub record Grouping : Type 0 where
  pub groups : List (List NamedAddressSet)
  pub recent_group : List NamedAddressSet

-- `recentGroup[0]` is looked at only if there is one.
unfoldable pub place :
    NamedAddressSet → List (List NamedAddressSet) → List NamedAddressSet → Grouping
unfolding group_name
place addr groups [] = record { groups = groups; recent_group = addr ∷ [] }
place addr groups (first ∷ rest) =
    ite (text_discrete (group_name addr.fqdn) (group_name first.fqdn))
      (record { groups = groups; recent_group = first ∷ (rest ++ addr ∷ []) })
      (record { groups = groups ++ (first ∷ rest) ∷ []; recent_group = addr ∷ [] })

unfoldable pub group_loop : (Text → Text) → List NamedAddressSet → Grouping → Grouping
unfolding sort_set place
group_loop ip [] g = g
group_loop ip (addr ∷ addrs) g =
    group_loop ip addrs (place (sort_set ip addr) g.groups g.recent_group)

-- The statement after the first loop.
unfoldable pub close_group : Grouping → List (List NamedAddressSet)
close_group g = elim g.recent_group [
  | [] ↦ g.groups
  | first ∷ rest ↦ g.groups ++ (first ∷ rest) ∷ []
]

unfoldable pub group_names : (Text → Text) → List NamedAddressSet → List (List NamedAddressSet)
unfolding sort_fqdns group_loop close_group
group_names ip addrs =
    map sort_fqdns
      (close_group (group_loop ip (sort_fqdns addrs) (record { groups = []; recent_group = [] })))

-- `groupName(group[0].FQDN)`; no group is empty.
abbrev pub group_of : List NamedAddressSet → Text
group_of [] = []
group_of (a ∷ g) = group_name a.fqdn
