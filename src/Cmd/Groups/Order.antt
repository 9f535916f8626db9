-- ===== src/Cmd/Groups/Order.antt =====
-- The groups of a sorted list.
use mathlib.Core.List.{flatten}
use mobydig.Prelude.{
  All, List, Text, [], ap, arith, false, if_neg, if_pos, map, refl, subst, sym, text_discrete, true,
  ◌∙◌, ◌∷◌, ◌≡◌, ◌≢◌,
}
use mobydig.Cmd.Groups.{group_of}
use mobydig.Cmd.Groups.Spec.{attach, groups_of}
use mobydig.Cmd.Names.{fqdn_less, fqdn_less-groups, group_name}
use mobydig.Dig.AddrMap.{NamedAddressSet}
use mobydig.Prelude.Order.{text_lt}
use mobydig.Prelude.Sorting.{IsSorted}

-- All elements have the name of the group, and there is one.
abbrev pub IsUniform : List NamedAddressSet → Type 0
IsUniform g = (g ≢ []) × All (λ b. group_name b.fqdn ≡ group_of g) g

-- Each name is below the next.
abbrev pub Ascending : List Text → Type 0
Ascending [] = Unit
Ascending (n ∷ []) = Unit
Ascending (n ∷ m ∷ ns) = (text_lt n m ≡ true) × Ascending (m ∷ ns)

flatten-attach :
    (a : NamedAddressSet) (gs : List (List NamedAddressSet))
    → flatten (attach a gs) ≡ a ∷ flatten gs
unfolding attach flatten
flatten-attach a [] = refl
flatten-attach a ([] ∷ gs) = refl
flatten-attach a ((b ∷ g) ∷ gs) = ground arith

-- No element is lost, and the order stays.
pub flatten-groups_of : (addrs : List NamedAddressSet) → flatten (groups_of addrs) ≡ addrs
unfolding groups_of flatten
flatten-groups_of [] = refl
flatten-groups_of (a ∷ addrs) =
    flatten-attach a (groups_of addrs) ∙ ap (◌∷◌ a) (flatten-groups_of addrs)

All-IsUniform-attach :
    (a : NamedAddressSet) (gs : List (List NamedAddressSet))
    → All IsUniform gs
    → All IsUniform (attach a gs)
unfolding attach
All-IsUniform-attach a [] h = ((λ e. cc, (refl, tt)), tt)
All-IsUniform-attach a ([] ∷ gs) h = absurd (h.0.0 refl)
All-IsUniform-attach a ((b ∷ g) ∷ gs) (u, us) =
    elim (text_discrete (group_name a.fqdn) (group_name b.fqdn)) [
      | yes e ↦
          let same : All (λ c. group_name c.fqdn ≡ group_name a.fqdn) (b ∷ g) =
            subst (λ n. All (λ c. group_name c.fqdn ≡ n) (b ∷ g)) (sym e) u.1 in
          rw (if_pos, e, attach) ((λ e'. cc, (refl, same)), us)
      | no ne ↦ rw (if_neg, ne, attach) ((λ e'. cc, (refl, tt)), (u, us))
    ]

pub groups_of-IsUniform : (addrs : List NamedAddressSet) → All IsUniform (groups_of addrs)
unfolding groups_of
groups_of-IsUniform [] = tt
groups_of-IsUniform (a ∷ addrs) =
    All-IsUniform-attach a (groups_of addrs) (groups_of-IsUniform addrs)

-- The first group begins with the first element.
attach_cases :
    (a : NamedAddressSet) (gs : List (List NamedAddressSet))
    → (g : List NamedAddressSet) × (rest : List (List NamedAddressSet)) × (attach a gs
        ≡ (a ∷ g) ∷ rest)
unfolding attach
attach_cases a [] = ([], [], refl)
attach_cases a ([] ∷ gs) = ([], [] ∷ gs, refl)
attach_cases a ((b ∷ g) ∷ gs) = elim (text_discrete (group_name a.fqdn) (group_name b.fqdn)) [
  | yes e ↦ (b ∷ g, gs, rw (if_pos, e, attach) refl)
  | no ne ↦ ([], (b ∷ g) ∷ gs, rw (if_neg, ne, attach) refl)
]

abbrev pub InOrder : List (List NamedAddressSet) → Type 0
InOrder gs = Ascending (map group_of gs) × All (IsSorted fqdn_less) gs

attach-InOrder :
    (a c : NamedAddressSet) (g : List NamedAddressSet) (rest : List (List NamedAddressSet))
    → fqdn_less c a ≡ false
    → InOrder ((c ∷ g) ∷ rest)
    → InOrder (attach a ((c ∷ g) ∷ rest))
unfolding attach
attach-InOrder a c g rest h (ascending, (sorted, sorteds)) =
    elim (text_discrete (group_name a.fqdn) (group_name c.fqdn)) [
      | yes e ↦
          rw (if_pos, e, attach)
            (
              subst (λ n. Ascending (n ∷ map group_of rest)) (sym e) ascending,
              ((h, sorted), sorteds),
            )
      | no ne ↦
          rw (if_neg, ne, attach) ((fqdn_less-groups a c h ne, ascending), (tt, (sorted, sorteds)))
    ]

pub groups_of-InOrder :
    (addrs : List NamedAddressSet) → IsSorted fqdn_less addrs → InOrder (groups_of addrs)
unfolding groups_of
groups_of-InOrder [] h = (tt, tt)
groups_of-InOrder (a ∷ []) h = unfold attach in (tt, (tt, tt))
groups_of-InOrder (a ∷ c ∷ addrs) (h, hs) =
    let (g, rest, e) = attach_cases c (groups_of addrs) in
    rw e (attach-InOrder a c g rest h (subst InOrder e (groups_of-InOrder (c ∷ addrs) hs)))
