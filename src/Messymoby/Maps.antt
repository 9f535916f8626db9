-- ===== src/Messymoby/Maps.antt =====
-- The maps of RemoveDuplicateTestNetworks.
use mobydig.Prelude.{
  All, All-snoc, Distinct, List, Option-cases, Text, [], ap, append-nil, append_assoc, arith, false,
  has, inl, inr, ite, none, refl, some, sym, text_discrete, ◌++◌, ◌∙◌, ◌∷◌, ◌≡◌,
}
use mobydig.Messymoby.{NetMaps, NetworkResource, append_id, collect_networks}
use mobydig.Prelude.Dict.{
  Distinct-insert, Entries, Entries-insert, Entries-lookup, keys, lookup, lookup-insert,
}

-- The ids of the networks of a name, and of all networks.
abbrev pub ids_of : Text → List NetworkResource → List Text
ids_of name [] = []
ids_of name (net ∷ nets) =
    ite (text_discrete net.name name) (net.id ∷ ids_of name nets) (ids_of name nets)

abbrev pub ids : List NetworkResource → List Text
ids [] = []
ids (net ∷ nets) = net.id ∷ ids nets

-- A missing slice is nil.
abbrev pub slice_at : Text → List (Text × List Text) → List Text
slice_at name netnames = elim (lookup name netnames) [ some net_ids ↦ net_ids | none ↦ [] ]

slice_at-append_id :
    (name : Text) (net : NetworkResource) (netnames : List (Text × List Text))
    → slice_at name (append_id net netnames)
      ≡ slice_at name netnames ++ ite (text_discrete net.name name) (net.id ∷ []) []
unfolding append_id
slice_at-append_id name net netnames = ground (
  arith,
  lookup-insert net.name name (slice_at net.name netnames ++ net.id ∷ []) netnames,
  append-nil (slice_at name netnames),
)

-- The first map has, for each name, the ids of its networks, in their order.
pub slice_at-collect :
    (name : Text) (nets : List NetworkResource) (m : NetMaps)
    → slice_at name (collect_networks nets m).netnames
      ≡ slice_at name m.netnames ++ ids_of name nets
unfolding collect_networks
slice_at-collect name [] m = sym (append-nil (slice_at name m.netnames))
slice_at-collect name (net ∷ nets) m =
    slice_at-collect name nets _
    ∙ ap (λ net_ids. net_ids ++ ids_of name nets) (slice_at-append_id name net m.netnames)
    ∙ append_assoc (slice_at name m.netnames) _ (ids_of name nets)
    ∙ ap (◌++◌ (slice_at name m.netnames)) (ground arith)

pub Distinct-collect :
    (nets : List NetworkResource) (m : NetMaps)
    → Distinct (keys m.netnames)
    → Distinct (keys (collect_networks nets m).netnames)
unfolding collect_networks append_id
Distinct-collect [] m d = d
Distinct-collect (net ∷ nets) m d =
    Distinct-collect nets _ (Distinct-insert net.name _ m.netnames d)

-- An id that no network has is not entered.
pub lookup-collect :
    (x : Text) (nets : List NetworkResource) (m : NetMaps)
    → has x (ids nets) ≡ false
    → lookup x (collect_networks nets m).netrscs ≡ lookup x m.netrscs
unfolding collect_networks has
lookup-collect x [] m h = refl
lookup-collect x (net ∷ nets) m h =
    lookup-collect x nets _ (ground (arith, h))
    ∙ ground (arith, lookup-insert net.id x net m.netrscs, h)

-- The second map leads from the id of each network to the network.
pub lookup-own :
    (nets : List NetworkResource) (m : NetMaps)
    → Distinct (ids nets)
    → All (λ net. lookup net.id (collect_networks nets m).netrscs ≡ some net) nets
unfolding collect_networks
lookup-own [] m d = tt
lookup-own (net ∷ nets) m (unlike, d) = (
  lookup-collect net.id nets _ unlike ∙ ground (arith, lookup-insert net.id net.id net m.netrscs),
  lookup-own nets _ d,
)

-- The id leads to a network of this name.
abbrev pub LeadsTo : List (Text × NetworkResource) → Text → Text → Type 0
LeadsTo netrscs name net_id =
    (net : NetworkResource) × (lookup net_id netrscs ≡ some net) × (net.name ≡ name)

-- All ids in the first map lead to networks of the name.
pub collect-LeadsTo :
    (netrscs : List (Text × NetworkResource)) (nets : List NetworkResource) (m : NetMaps)
    → All (λ net. lookup net.id netrscs ≡ some net) nets
    → Entries (λ name. All (LeadsTo netrscs name)) m.netnames
    → Entries (λ name. All (LeadsTo netrscs name)) (collect_networks nets m).netnames
unfolding collect_networks append_id
collect-LeadsTo netrscs [] m own h = h
collect-LeadsTo netrscs (net ∷ nets) m (e, own) h =
    let old : All (LeadsTo netrscs net.name) (slice_at net.name m.netnames) =
      elim (Option-cases (lookup net.name m.netnames)) [
        | inl f ↦ rw (f, slice_at) tt
        | inr (net_ids, f) ↦ rw (f, slice_at) (Entries-lookup _ net.name net_ids m.netnames h f)
      ] in
    collect-LeadsTo netrscs nets _ own (
      Entries-insert _ net.name _ m.netnames
        (All-snoc (LeadsTo netrscs net.name) (slice_at net.name m.netnames) net.id old
          (net, e, refl))
        h)
