-- ===== src/Cmd/Groups/Spec.antt =====
-- The loop of groupNames, as a recursion on the list.
use mobydig.Prelude.{
  List, Text, [], ap, append-nil, append_assoc, arith, ite, map, refl, text_discrete, ◌++◌, ◌∙◌,
  ◌∷◌, ◌≡◌, ◌≢◌,
}
use mobydig.Cmd.Groups.{Grouping, close_group, group_loop, group_names, place, sort_set}
use mobydig.Cmd.Names.{group_name, sort_fqdns}
use mobydig.Dig.AddrMap.{NamedAddressSet}

unfoldable pub attach : NamedAddressSet → List (List NamedAddressSet) → List (List NamedAddressSet)
attach a [] = (a ∷ []) ∷ []
attach a ([] ∷ gs) = (a ∷ []) ∷ [] ∷ gs
attach a ((b ∷ g) ∷ gs) =
    ite (text_discrete (group_name a.fqdn) (group_name b.fqdn)) ((a ∷ b ∷ g) ∷ gs)
      ((a ∷ []) ∷ (b ∷ g) ∷ gs)

unfoldable pub groups_of : List NamedAddressSet → List (List NamedAddressSet)
unfolding attach
groups_of [] = []
groups_of (a ∷ addrs) = attach a (groups_of addrs)

-- The groups of what is left, with the current group before them.
unfoldable join_recent :
    List NamedAddressSet → List (List NamedAddressSet) → List (List NamedAddressSet)
join_recent [] gs = gs
join_recent (r ∷ rs) [] = (r ∷ rs) ∷ []
join_recent (r ∷ rs) ([] ∷ gs) = (r ∷ rs) ∷ [] ∷ gs
join_recent (r ∷ rs) ((b ∷ g) ∷ gs) =
    ite (text_discrete (group_name b.fqdn) (group_name r.fqdn)) ((r ∷ (rs ++ b ∷ g)) ∷ gs)
      ((r ∷ rs) ∷ (b ∷ g) ∷ gs)

join_recent-attach_same :
    (a r : NamedAddressSet) (rs : List NamedAddressSet) (gs : List (List NamedAddressSet))
    → group_name a.fqdn ≡ group_name r.fqdn
    → join_recent (r ∷ (rs ++ a ∷ [])) gs ≡ join_recent (r ∷ rs) (attach a gs)
unfolding join_recent attach
join_recent-attach_same a r rs [] e = ground (arith, e)
join_recent-attach_same a r rs ([] ∷ gs) e = ground (arith, e)
join_recent-attach_same a r rs ((b ∷ g) ∷ gs) e =
    ground (arith, e, append_assoc rs (a ∷ []) (b ∷ g))

join_recent-attach_other :
    (a r : NamedAddressSet) (rs : List NamedAddressSet) (gs : List (List NamedAddressSet))
    → group_name a.fqdn ≢ group_name r.fqdn
    → (r ∷ rs) ∷ join_recent (a ∷ []) gs ≡ join_recent (r ∷ rs) (attach a gs)
unfolding join_recent attach
join_recent-attach_other a r rs [] ne = ground (arith, ne)
join_recent-attach_other a r rs ([] ∷ gs) ne = ground (arith, ne)
join_recent-attach_other a r rs ((b ∷ g) ∷ gs) ne = ground (arith, ne)

join_recent-nil :
    (a : NamedAddressSet) (gs : List (List NamedAddressSet)) → join_recent (a ∷ []) gs ≡ attach a gs
unfolding join_recent attach
join_recent-nil a [] = refl
join_recent-nil a ([] ∷ gs) = refl
join_recent-nil a ((b ∷ g) ∷ gs) = ground arith

place_lem :
    (a : NamedAddressSet) (groups : List (List NamedAddressSet)) (recent : List NamedAddressSet)
    (rest : List (List NamedAddressSet))
    → let p = place a groups recent in
      p.groups ++ join_recent p.recent_group rest ≡ groups ++ join_recent recent (attach a rest)
unfolding place
place_lem a groups [] rest = unfold join_recent in ap (◌++◌ groups) (join_recent-nil a rest)
place_lem a groups (r ∷ rs) rest = elim (text_discrete (group_name a.fqdn) (group_name r.fqdn)) [
  | yes e ↦ ground (arith, e, join_recent-attach_same a r rs rest e)
  | no ne ↦ ground (
    arith,
    ne,
    append_assoc groups ((r ∷ rs) ∷ []) (join_recent (a ∷ []) rest),
    join_recent-attach_other a r rs rest ne,
  )
]

close_group_lem : (g : Grouping) → close_group g ≡ g.groups ++ join_recent g.recent_group []
unfolding close_group join_recent
close_group_lem g = ground (arith, append-nil g.groups)

group_loop-groups_of :
    (ip : Text → Text) (addrs : List NamedAddressSet) (g : Grouping)
    → close_group (group_loop ip addrs g)
      ≡ g.groups ++ join_recent g.recent_group (groups_of (map (sort_set ip) addrs))
unfolding group_loop groups_of
group_loop-groups_of ip [] g = close_group_lem g
group_loop-groups_of ip (a ∷ addrs) g =
    group_loop-groups_of ip addrs (place (sort_set ip a) g.groups g.recent_group)
    ∙ place_lem (sort_set ip a) g.groups g.recent_group (groups_of (map (sort_set ip) addrs))

-- groupNames is the grouping of the sorted names, its groups sorted once more.
pub group_names-groups_of :
    (ip : Text → Text) (addrs : List NamedAddressSet)
    → group_names ip addrs ≡ map sort_fqdns (groups_of (map (sort_set ip) (sort_fqdns addrs)))
unfolding group_names join_recent
group_names-groups_of ip addrs =
    ap (map sort_fqdns)
      (group_loop-groups_of ip (sort_fqdns addrs) (record { groups = []; recent_group = [] }))
