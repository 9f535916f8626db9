-- ===== src/Messymoby/Duplicates.antt =====
-- What RemoveDuplicateTestNetworks removes.
use mobydig.Prelude.{
  Any, Bool, Bool-cases, Distinct, List, Option, Text, [], arith, codes, false, has, inl, inr,
  length, ltb, none, not, refl, some, sym, text_discrete, true, ◌&&◌, ◌<◌, ◌↔◌, ◌∙◌, ◌∷◌, ◌≡◌, ◌≢◌,
  ◌⊎◌,
}
use mobydig.Messymoby.{
  Cleaned, MobyClient, NetMaps, NetworkResource, collect_networks, is_labelled, is_predefined,
  remove_duplicate_test_networks,
}
use mobydig.Messymoby.Loop.{
  duplicates_loop-has, in_loop, in_loop-missing, in_loop-slice_at, is_kept,
}
use mobydig.Messymoby.Maps.{
  Distinct-collect, collect-LeadsTo, ids, ids_of, lookup-collect, lookup-own, slice_at,
  slice_at-collect,
}
use mobydig.Mobynet.{ok}
use mobydig.Prelude.Dict.{lookup}
use mobydig.Prelude.Existence.{All-at, Any-at, Any-of}

-- The networks that Docker itself makes.
abbrev pub IsDockers : Text → Type 0
IsDockers name = (name ≡ codes "bridge") ⊎ (name ≡ codes "host") ⊎ (name ≡ codes "none")

-- A network that is to be removed: it has the label, which is not empty, and a name that is not one
-- of Docker's and that another network has too.
abbrev pub IsDuplicate : (labelname : Text) → List NetworkResource → NetworkResource → Type 0
IsDuplicate labelname nets net =
    (labelname ≢ [])
    × (has labelname net.labels ≡ true)
    × ¬ IsDockers net.name
    × (1 < length (ids_of net.name nets))

is_predefined_lem : (name : Text) → (is_predefined name ≡ true) ↔ IsDockers name
unfolding is_predefined has
is_predefined_lem name = ground arith

-- What the two loops test of a network, and what it means.
abbrev is_removed : (labelname : Text) → List NetworkResource → NetworkResource → Bool
is_removed labelname nets net =
    ltb 1 (length (ids_of net.name nets))
    && not (is_predefined net.name)
    && is_labelled labelname net.labels

is_removed_lem :
    (labelname : Text) (nets : List NetworkResource) (net : NetworkResource)
    → (is_removed labelname nets net ≡ true) ↔ IsDuplicate labelname nets net
unfolding is_labelled
is_removed_lem labelname nets net = ground (arith, is_predefined_lem net.name)

-- A network is among those of its name.
has-ids_of :
    (net : NetworkResource) (nets : List NetworkResource)
    → Any (λ k. k ≡ net) nets
    → has net.id (ids_of net.name nets) ≡ true
unfolding has
has-ids_of net [] h = absurd h
has-ids_of net (k ∷ nets) (inl e) = rw e (ground arith)
has-ids_of net (k ∷ nets) (inr h) = ground (arith, has-ids_of net nets h)

has-ids :
    (x : Text) (nets : List NetworkResource)
    → has x (ids nets) ≡ true
    → Any (λ net. net.id ≡ x) nets
unfolding has
has-ids x [] h = cc
has-ids x (net ∷ nets) h = elim (text_discrete net.id x) [
  | yes e ↦ inl e
  | no unlike ↦ inr (has-ids x nets (ground (arith, unlike, h)))
]

is_kept-length :
    (netname x : Text) (net_ids : List Text)
    → has x net_ids ≡ true
    → not (is_kept netname net_ids) ≡ (ltb 1 (length net_ids) && not (is_predefined netname))
unfolding has
is_kept-length netname x [] h = cc
is_kept-length netname x (i ∷ []) h = ground arith
is_kept-length netname x (i ∷ j ∷ net_ids) h = ground arith

-- The outcome where the networks can be listed.
abbrev pub RemovesDuplicates : (labelname : Text) → List NetworkResource → Option Cleaned → Type 0
RemovesDuplicates labelname nets result =
    (removed : List Text) × (result ≡ some (record { removed = removed; err = none }))
    × ((x : Text)
        → (has x removed ≡ true) ↔ Any (λ net. (net.id ≡ x) × IsDuplicate labelname nets net) nets)
    × ((labelname ≢ []) ⊎ (removed ≡ []))

abbrev no_maps : NetMaps
no_maps = record { netnames = []; netrscs = [] }

module _ (labelname : Text) (nets : List NetworkResource) (distinct : Distinct (ids nets)) where
  abbrev maps : NetMaps
  maps = collect_networks nets no_maps

  -- The loop over the first map, for a network in the list and for an id of none.
  in_loop-maps :
      (net : NetworkResource)
      → Any (λ k. k ≡ net) nets
      → in_loop labelname maps.netrscs net.id maps.netnames ≡ is_removed labelname nets net
  unfolding lookup
  in_loop-maps net k =
      let own = lookup-own nets no_maps distinct in
      let leads = collect-LeadsTo maps.netrscs nets no_maps own tt in
      let decided =
        in_loop-slice_at labelname maps.netrscs net.id net maps.netnames (All-at _ net nets own k)
          (Distinct-collect nets no_maps tt) leads in
      let its_ids : slice_at net.name maps.netnames ≡ ids_of net.name nets =
        slice_at-collect net.name nets no_maps in
      let among = has-ids_of net nets k in
      decided
      ∙ rw its_ids
          (rw (among, is_kept-length net.name net.id (ids_of net.name nets) among) (ground arith))

  in_loop-other :
      (x : Text) → has x (ids nets) ≡ false → in_loop labelname maps.netrscs x maps.netnames ≡ false
  unfolding lookup
  in_loop-other x h =
      in_loop-missing labelname maps.netrscs x maps.netnames (lookup-collect x nets no_maps h)

  in_loop-duplicates :
      (x : Text)
      → (in_loop labelname maps.netrscs x maps.netnames ≡ true)
        ↔ Any (λ net. (net.id ≡ x) × IsDuplicate labelname nets net) nets
  in_loop-duplicates x = (
    λ h. elim (Bool-cases (has x (ids nets))) [
      | inl listed ↦
          let (net, k, e) = Any-at _ nets (has-ids x nets listed) in
          let is_duplicate =
            (is_removed_lem labelname nets net).0 (sym (in_loop-maps net k) ∙ rw e h) in
          Any-of _ net nets k (e, is_duplicate)
      | inr unlisted ↦ cc (in_loop-other x unlisted, h)
    ],
    λ some_net.
        let (net, k, (e, is_duplicate)) = Any-at _ nets some_net in
        rw (← e) (in_loop-maps net k ∙ (is_removed_lem labelname nets net).1 is_duplicate),
  )

has-nil : (removed : List Text) → ((x : Text) → has x removed ≢ true) → removed ≡ []
unfolding has
has-nil [] none_in = refl
has-nil (x ∷ removed) none_in = absurd (none_in x (ground arith))

-- If Docker lists networks with ids that are all different, RemoveDuplicateTestNetworks does not
-- panic, returns no error, and asks for the removal of just those networks that have the label and
-- a name that another one has too and that is not "bridge", "host" or "none"; for an empty label,
-- of none.
pub remove_duplicates_lem :
    (cln : MobyClient) (labelname : Text) (nets : List NetworkResource)
    → cln.network_list ≡ ok nets
    → Distinct (ids nets)
    → RemovesDuplicates labelname nets (remove_duplicate_test_networks cln labelname)
unfolding remove_duplicate_test_networks
remove_duplicates_lem cln labelname nets e d =
    let m = maps labelname nets d in
    let leads = collect-LeadsTo m.netrscs nets no_maps (lookup-own nets no_maps d) tt in
    let (removed, f, told) = duplicates_loop-has labelname m.netrscs m.netnames leads in
    let exactly : (x : Text)
        → (has x removed ≡ true) ↔ Any (λ net. (net.id ≡ x) × IsDuplicate labelname nets net) nets =
      λ x. rw (told x) (in_loop-duplicates labelname nets d x) in
    (
      removed,
      rw (e, f) refl,
      exactly,
      elim (text_discrete labelname []) [
        | yes empty ↦ inr (has-nil removed (λ x h. (Any-at _ nets ((exactly x).0 h)).2.1.0 empty))
        | no labelled ↦ inl labelled
      ],
    )
