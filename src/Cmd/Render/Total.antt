-- ===== src/Cmd/Render/Total.antt =====
-- How many lines Render writes.
use mathlib.Core.List.{flatten}
use mobydig.Prelude.{
  All, All-flatten, List, Text, [], ap, arith, codes, length, length-map, map, refl, suc, zero, ℕ,
  ℕ_discrete, ◌++◌, ◌+◌, ◌∷◌, ◌≡◌,
}
use mobydig.Cmd.Groups.{addr_less, group_names, group_of, sort_qualified_addresses, sort_set}
use mobydig.Cmd.Groups.Order.{flatten-groups_of}
use mobydig.Cmd.Groups.Result.{group_names-sorted}
use mobydig.Cmd.Groups.Spec.{groups_of}
use mobydig.Cmd.Names.{
  fqdn_less, group_and_label, group_name, pick, sort_fqdns, split_dots, trim_dot,
}
use mobydig.Cmd.Render.{
  Renderer, Styles, longest_of, render, render_groups, show_groups, show_heading, show_names,
  show_networks,
}
use mobydig.Cmd.Render.Lines.{
  IsPlain, IsPlainDisplay, line_ends, line_ends-append, line_ends-show_names, line_ends-trim_dot,
}
use mobydig.Dig.AddrMap.{NamedAddressSet}
use mobydig.Prelude.Sorting.{All-sort_slice, length-sort_slice}

line_ends-split_dots :
    (cs : Text)
    → line_ends cs ≡ 0
    → (line_ends (split_dots cs).0 ≡ 0) × All (λ part. line_ends part ≡ 0) (split_dots cs).1
unfolding line_ends split_dots
line_ends-split_dots [] h = (refl, tt)
line_ends-split_dots (c ∷ cs) h =
    let (first, others) = line_ends-split_dots cs (ground (arith, h)) in
    ground (arith, h, first, others)

line_ends-pick :
    (parts : Text × List Text)
    → (line_ends parts.0 ≡ 0) × All (λ part. line_ends part ≡ 0) parts.1
    → line_ends (pick parts).0 ≡ 0
unfolding line_ends
line_ends-pick (label, []) h = refl
line_ends-pick (label, group ∷ parts) (p, (q, h)) = q

line_ends-group_name : (fqdn : Text) → line_ends fqdn ≡ 0 → line_ends (group_name fqdn) ≡ 0
unfolding group_name group_and_label
line_ends-group_name fqdn h =
    line_ends-pick (split_dots (trim_dot fqdn))
      (line_ends-split_dots (trim_dot fqdn) (line_ends-trim_dot fqdn h))

line_ends-group_of : (g : List NamedAddressSet) → All IsPlain g → line_ends (group_of g) ≡ 0
unfolding line_ends
line_ends-group_of [] h = refl
line_ends-group_of (na ∷ g) (p, h) = line_ends-group_name na.fqdn p.0

abbrev total : List (List NamedAddressSet) → ℕ
total [] = 0
total (g ∷ gs) = length g + total gs

length-flatten : (gs : List (List NamedAddressSet)) → length (flatten gs) ≡ total gs
unfolding flatten
length-flatten [] = refl
length-flatten ([] ∷ gs) = omega (arith, length-flatten gs)
length-flatten ((na ∷ g) ∷ gs) = omega (arith, length-flatten (g ∷ gs))

module _ {r : Renderer} {st : Styles} (clean : IsPlainDisplay r st) where
  line_ends-show_heading :
      (group : Text) → line_ends group ≡ 0 → line_ends (show_heading st group) ≡ 1
  unfolding show_heading line_ends ℕ_discrete
  line_ends-show_heading [] h = refl
  line_ends-show_heading (c ∷ cs) h =
      omega (
        arith,
        h,
        clean.network (c ∷ cs),
        line_ends-append (st.network_style (c ∷ cs)) (codes "\n"),
      )

  line_ends-show_networks :
      (idx : ℕ) (gs : List (List NamedAddressSet))
      → All (All IsPlain) gs
      → line_ends (show_networks st idx gs) ≡ 0
  unfolding show_networks line_ends
  line_ends-show_networks idx [] h = refl
  line_ends-show_networks zero (g ∷ gs) (p, h) = line_ends-show_networks 1 gs h
  line_ends-show_networks (suc idx) (g ∷ gs) (p, h) = ground (
    arith,
    line_ends-append (st.network_style (group_of g)) (show_networks st (suc (suc idx)) gs),
    clean.network (group_of g),
    line_ends-group_of g p,
    line_ends-show_networks (suc (suc idx)) gs h,
  )

  line_ends-show_groups :
      (labelwidth : ℕ) (gs : List (List NamedAddressSet))
      → All (All IsPlain) gs
      → line_ends (show_groups r st labelwidth gs) ≡ length gs + total gs
  unfolding show_groups line_ends
  line_ends-show_groups labelwidth [] h = refl
  line_ends-show_groups labelwidth (g ∷ gs) (p, h) = omega (
    arith,
    line_ends-append (show_heading st (group_of g))
        (show_names r st labelwidth g ++ show_groups r st labelwidth gs),
    line_ends-append (show_names r st labelwidth g) (show_groups r st labelwidth gs),
    line_ends-show_heading (group_of g) (line_ends-group_of g p),
    line_ends-show_names clean labelwidth g p,
    line_ends-show_groups labelwidth gs h,
  )

  line_ends-render_groups :
      (gs : List (List NamedAddressSet))
      → All (All IsPlain) gs
      → line_ends (render_groups r st gs) ≡ 1 + length gs + total gs
  unfolding render_groups line_ends ℕ_discrete
  line_ends-render_groups [] h =
      omega (arith, clean.center, line_ends-append r.center_name (codes " and its networks...\n"))
  line_ends-render_groups (g ∷ gs) h =
      let networks = show_networks st 0 (g ∷ gs) in
      let body = show_groups r st (longest_of (g ∷ gs) 0) (g ∷ gs) in
      omega (
        arith,
        clean.center,
        line_ends-append r.center_name (codes ": " ++ (networks ++ (codes "\n" ++ body))),
        line_ends-append networks (codes "\n" ++ body),
        line_ends-show_networks 0 (g ∷ gs) h,
        line_ends-show_groups (longest_of (g ∷ gs) 0) (g ∷ gs) h,
      )

sort_set-IsPlain : (ip : Text → Text) (na : NamedAddressSet) → IsPlain na → IsPlain (sort_set ip na)
unfolding sort_set sort_qualified_addresses
sort_set-IsPlain ip na (p, h) =
    (p, All-sort_slice (addr_less ip) (λ a. line_ends a.address ≡ 0) na.addresses h)

All-IsPlain-map :
    (ip : Text → Text) (addrs : List NamedAddressSet)
    → All IsPlain addrs
    → All IsPlain (map (sort_set ip) addrs)
All-IsPlain-map ip [] h = tt
All-IsPlain-map ip (na ∷ addrs) (p, h) = (sort_set-IsPlain ip na p, All-IsPlain-map ip addrs h)

-- If no name, address or style brings a line end of its own, then Render writes one line for the
-- container, one for each group, and one for each name that it is given.
pub line_ends-render :
    (ip : Text → Text) {r : Renderer} {st : Styles} (addrs : List NamedAddressSet)
    → IsPlainDisplay r st
    → All IsPlain addrs
    → line_ends (render ip r st addrs) ≡ 1 + length (group_names ip addrs) + length addrs
unfolding render sort_fqdns
line_ends-render ip {r} {st} addrs clean h =
    let sorted = sort_fqdns addrs in
    let entries = map (sort_set ip) sorted in
    let all_plain : All (All IsPlain) (groups_of entries) =
      All-flatten IsPlain (groups_of entries) (
        rw (flatten-groups_of entries)
          (All-IsPlain-map ip sorted (All-sort_slice fqdn_less IsPlain addrs h))) in
    rw (group_names-sorted ip addrs) (
      omega (
        arith,
        line_ends-render_groups clean (groups_of entries) all_plain,
        length-flatten (groups_of entries),
        ap length (flatten-groups_of entries),
        length-map (sort_set ip) sorted,
        length-sort_slice fqdn_less addrs,
      ))
