-- ===== src/Cmd/Names.antt =====
-- groupAndLabel, groupName and sortFQDNs of cmd/mobydig/display.go.
use mobydig.Prelude.{
  All, Bool, List, Text, [], ap, arith, codes, false, ite, refl, text_discrete, true, ℕ_discrete,
  ◌&&◌, ◌++◌, ◌||◌, ◌∷◌, ◌≡◌, ◌≢◌,
}
use mobydig.Dig.AddrMap.{NamedAddressSet}
use mobydig.Dig.Networks.{DockerNetwork, dotted}
use mobydig.Prelude.Order.{text_lt, text_lt_asymm, text_lt_irrefl, text_lt_total}
use mobydig.Prelude.Sorting.{Less, sort_slice}

-- `strings.TrimSuffix(fqdn, ".")`
unfoldable pub trim_dot : Text → Text
trim_dot [] = []
trim_dot (c ∷ []) = elim (ℕ_discrete c 46) [ yes e ↦ [] | no ne ↦ c ∷ [] ]
trim_dot (c ∷ d ∷ cs) = c ∷ trim_dot (d ∷ cs)

-- `strings.Split(s, ".")`: the first part, and the others.
unfoldable pub split_dots : Text → Text × List Text
split_dots [] = ([], [])
split_dots (c ∷ cs) =
    let (part, parts) = split_dots cs in ite (ℕ_discrete c 46) ([], part ∷ parts) (c ∷ part, parts)

-- The test on the number of parts.
abbrev pub pick : Text × List Text → Text × Text
pick (label, []) = ([], label)
pick (label, group ∷ parts) = (group, label)

unfoldable pub group_and_label : Text → Text × Text
unfolding trim_dot split_dots
group_and_label fqdn = pick (split_dots (trim_dot fqdn))

unfoldable pub group_name : Text → Text
unfolding group_and_label
group_name fqdn = (group_and_label fqdn).0

-- The `less` of sortFQDNs.
unfoldable pub fqdn_less : NamedAddressSet → NamedAddressSet → Bool
unfolding group_and_label text_lt
fqdn_less a b =
    let (group_a, label_a) = group_and_label a.fqdn in
    let (group_b, label_b) = group_and_label b.fqdn in
    text_lt group_a group_b
    || (ite (text_discrete group_a group_b) true false && text_lt label_a label_b)

unfoldable pub sort_fqdns : List NamedAddressSet → List NamedAddressSet
unfolding fqdn_less sort_slice
sort_fqdns addrs = sort_slice fqdn_less addrs

pub fqdn_less_asymm : (a b : NamedAddressSet) → fqdn_less a b ≡ true → fqdn_less b a ≡ false
unfolding fqdn_less
fqdn_less_asymm a b h = ground (
  arith,
  text_lt_asymm (group_and_label a.fqdn).0 (group_and_label b.fqdn).0,
  text_lt_irrefl (group_and_label a.fqdn).0,
  text_lt_asymm (group_and_label a.fqdn).1 (group_and_label b.fqdn).1,
)

abbrev pub fqdn_order : Less NamedAddressSet
fqdn_order = record { less = fqdn_less; asymm = fqdn_less_asymm }

-- If an element is not less than another, its group is not below that of the other.
pub fqdn_less-groups :
    (a b : NamedAddressSet)
    → fqdn_less b a ≡ false
    → group_name a.fqdn ≢ group_name b.fqdn
    → text_lt (group_name a.fqdn) (group_name b.fqdn) ≡ true
unfolding fqdn_less group_name
fqdn_less-groups a b h ne =
    ground (arith, text_lt_total (group_and_label b.fqdn).0 (group_and_label a.fqdn).0, ne)

-- Within one group the labels do not descend.
fqdn_less-labels :
    (a b : NamedAddressSet)
    → fqdn_less b a ≡ false
    → group_name a.fqdn ≡ group_name b.fqdn
    → text_lt (group_and_label b.fqdn).1 (group_and_label a.fqdn).1 ≡ false
unfolding fqdn_less group_name
fqdn_less-labels a b h e = ground (arith, e)

-- No byte is a dot.
abbrev pub IsLabel : Text → Type 0
IsLabel = All (λ c. c ≢ 46)

trim_dot-snoc : (cs : Text) → trim_dot (cs ++ 46 ∷ []) ≡ cs
unfolding trim_dot
trim_dot-snoc [] = ground arith
trim_dot-snoc (c ∷ []) = ground arith
trim_dot-snoc (c ∷ d ∷ cs) = ap (◌∷◌ c) (trim_dot-snoc (d ∷ cs))

split_dots_of_IsLabel : (cs : Text) → IsLabel cs → split_dots cs ≡ (cs, [])
unfolding split_dots
split_dots_of_IsLabel [] h = refl
split_dots_of_IsLabel (c ∷ cs) (ne, h) = ground (arith, split_dots_of_IsLabel cs h, ne)

split_dots-append :
    (cs ds : Text)
    → IsLabel cs
    → split_dots (cs ++ 46 ∷ ds) ≡ (cs, (split_dots ds).0 ∷ (split_dots ds).1)
unfolding split_dots
split_dots-append [] ds h = ground arith
split_dots-append (c ∷ cs) ds (ne, h) = ground (arith, split_dots-append cs ds h, ne)

-- The names that AllFQDNsOnAttachedNetworks makes of a label, with the dot that dns.Fqdn appends, are
-- taken apart into network and label, if neither holds a dot; the label alone has the empty group.
pub group_and_label-dotted :
    (label : Text) (net : DockerNetwork)
    → IsLabel label
    → IsLabel net.label
    → (group_and_label (dotted label net ++ codes ".") ≡ (net.label, label))
      × (group_and_label (label ++ codes ".") ≡ ([], label))
unfolding group_and_label
group_and_label-dotted label net h k = (
  rw
      (
        trim_dot-snoc (dotted label net),
        split_dots-append label net.label h,
        split_dots_of_IsLabel net.label k,
      )
      refl,
  rw (trim_dot-snoc label, split_dots_of_IsLabel label h) refl,
)
