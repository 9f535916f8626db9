-- ===== src/Cmd/Render/Found.antt =====
-- Where Render writes what.
use mobydig.Prelude.{
  Any, Bool, List, Text, [], ap, append_laws, codes, false, if◌then◌else◌, inl, inr, map, true, ℕ,
  ◌++◌, ◌∙◌, ◌∷◌, ◌≡◌,
}
use mobydig.Cmd.Groups.{addr_less, group_names, group_of, sort_qualified_addresses, sort_set}
use mobydig.Cmd.Groups.Order.{flatten-groups_of}
use mobydig.Cmd.Groups.Result.{group_names-sorted}
use mobydig.Cmd.Groups.Spec.{groups_of}
use mobydig.Cmd.Names.{fqdn_less, sort_fqdns}
use mobydig.Cmd.Render.{
  Renderer, Styles, longest_of, render, render_group_details, render_groups, show_addresses,
  show_groups, show_heading, show_names, show_networks, show_quality,
}
use mobydig.Dig.AddrMap.{NamedAddressSet}
use mobydig.Dig.AddrMap.Contents.{HasAddress, Lists}
use mobydig.Prelude.Existence.{Any-flatten, Any-map, Any-sort_slice}
use mobydig.Types.Addr.{QualifiedAddressValue}
use mobydig.Types.Quality.{Quality}

abbrev pub Contains : Text → Text → Type 0
Contains part text = (before : Text) × (after : Text) × (text ≡ before ++ (part ++ after))

Contains-self : (text : Text) → Contains text text
Contains-self text = ([], [], simp append_laws)

Contains-left : (part text more : Text) → Contains part text → Contains part (text ++ more)
Contains-left part text more (before, after, e) =
    (before, after ++ more, ap (λ t. t ++ more) e ∙ simp append_laws)

Contains-right : (part text more : Text) → Contains part more → Contains part (text ++ more)
Contains-right part text more (before, after, e) =
    (text ++ before, after, ap (◌++◌ text) e ∙ simp append_laws)

-- The text has a line about the name, and in it the address, as the quality is displayed.
abbrev pub Shown :
    Renderer → Styles → (labelwidth : ℕ) → (fqdn address : Text) → Quality → Text → Type 0
Shown r st labelwidth fqdn address q text =
    (na : NamedAddressSet) × (na.fqdn ≡ fqdn)
    × Contains (show_quality r st fqdn address q) (show_addresses r st na.fqdn true na.addresses)
    × Contains (render_group_details r st labelwidth na) text

module _ (r : Renderer) (st : Styles) where
  show_addresses-Contains :
      (fqdn a : Text) (q : Quality) (is_first : Bool) (addrs : List QualifiedAddressValue)
      → HasAddress a q addrs
      → Contains (show_quality r st fqdn a q) (show_addresses r st fqdn is_first addrs)
  unfolding show_addresses
  show_addresses-Contains fqdn a q is_first [] h = absurd h
  show_addresses-Contains fqdn a q is_first (v ∷ vs) (inl (e, f)) =
      Contains-right _ (if is_first then [] else codes " ") _ (
        Contains-left _ (show_quality r st fqdn v.address v.quality) _
          (rw (e, f) (Contains-self (show_quality r st fqdn a q))))
  show_addresses-Contains fqdn a q is_first (v ∷ vs) (inr h) =
      Contains-right _ (if is_first then [] else codes " ") _ (
        Contains-right _ (show_quality r st fqdn v.address v.quality) _
          (show_addresses-Contains fqdn a q false vs h))

  module _ (labelwidth : ℕ) (n a : Text) (q : Quality) where
    Shown-left :
        (text more : Text)
        → Shown r st labelwidth n a q text
        → Shown r st labelwidth n a q (text ++ more)
    Shown-left text more (na, e, within, h) =
        (na, e, within, Contains-left (render_group_details r st labelwidth na) text more h)

    Shown-right :
        (text more : Text)
        → Shown r st labelwidth n a q more
        → Shown r st labelwidth n a q (text ++ more)
    Shown-right text more (na, e, within, h) =
        (na, e, within, Contains-right (render_group_details r st labelwidth na) text more h)

    show_names-Shown :
        (group : List NamedAddressSet)
        → Lists n a q group
        → Shown r st labelwidth n a q (show_names r st labelwidth group)
    unfolding show_names
    show_names-Shown [] h = absurd h
    show_names-Shown (na ∷ group) (inl (e, f)) =
        Shown-left (render_group_details r st labelwidth na) _ (
          na,
          e,
          rw (← e) (show_addresses-Contains na.fqdn a q true na.addresses f),
          Contains-self (render_group_details r st labelwidth na),
        )
    show_names-Shown (na ∷ group) (inr h) =
        Shown-right (render_group_details r st labelwidth na) _ (show_names-Shown group h)

    show_groups-Shown :
        (groups : List (List NamedAddressSet))
        → Any (Lists n a q) groups
        → Shown r st labelwidth n a q (show_groups r st labelwidth groups)
    unfolding show_groups
    show_groups-Shown [] h = absurd h
    show_groups-Shown (group ∷ groups) (inl h) =
        Shown-right (show_heading st (group_of group)) _
          (Shown-left (show_names r st labelwidth group) _ (show_names-Shown group h))
    show_groups-Shown (group ∷ groups) (inr h) =
        Shown-right (show_heading st (group_of group)) _
          (Shown-right (show_names r st labelwidth group) _ (show_groups-Shown groups h))

  render_groups-Shown :
      (n a : Text) (q : Quality) (groups : List (List NamedAddressSet))
      → Any (Lists n a q) groups
      → Shown r st (longest_of groups 0) n a q (render_groups r st groups)
  unfolding render_groups
  render_groups-Shown n a q [] h = absurd h
  render_groups-Shown n a q (g ∷ gs) h =
      let width = longest_of (g ∷ gs) 0 in
      let right = Shown-right width n a q in
      right (codes "networks attached to container ") _ (
        right r.center_name _ (
          right (codes ": ") _ (
            right (show_networks st 0 (g ∷ gs)) _
              (right (codes "\n") _ (show_groups-Shown width n a q (g ∷ gs) h)))))

sort_set-Lists :
    (ip : Text → Text) (n a : Text) (q : Quality) (s : NamedAddressSet)
    → (s.fqdn ≡ n) × HasAddress a q s.addresses
    → ((sort_set ip s).fqdn ≡ n) × HasAddress a q (sort_set ip s).addresses
unfolding sort_set sort_qualified_addresses
sort_set-Lists ip n a q s (e, h) = (e, Any-sort_slice _ (addr_less ip) s.addresses h)

-- Render writes, for each name and address that it is given, a line about the name, and in it the
-- address with its quality.
pub render-Shown :
    (ip : Text → Text) (r : Renderer) (st : Styles) (na : List NamedAddressSet) (n a : Text)
    (q : Quality)
    → Lists n a q na
    → Shown r st (longest_of (group_names ip na) 0) n a q (render ip r st na)
unfolding render sort_fqdns
render-Shown ip r st na n a q h =
    let entries = map (sort_set ip) (sort_fqdns na) in
    let sorted : Lists n a q entries =
      Any-map _ _ (sort_set ip) (sort_set-Lists ip n a q) (sort_fqdns na)
        (Any-sort_slice _ fqdn_less na h) in
    render_groups-Shown r st n a q (group_names ip na) (
      rw (group_names-sorted ip na)
        (Any-flatten _ (groups_of entries) (rw (flatten-groups_of entries) sorted)))
