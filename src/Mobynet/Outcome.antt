-- ===== src/Mobynet/Outcome.antt =====
-- How DiscoverAttachedNames ends.
use mathlib.Core.List.{append_assoc, append-nil}
use mobydig.Prelude.{
  Any, Distinct, List, Text, [], arith, has, inl, inr, refl, subst, sym, ℕ_discrete, ◌++◌, ◌∙◌, ◌∷◌,
  ◌≡◌, ◌≢◌, ◌⊎◌,
}
use mobydig.Dig.Networks.{DockerNetwork}
use mobydig.Mobynet.{
  Cache, Client, ContainerJson, Ended, Endpoint, discover_attached_names, failed, netns_path,
  network_loop, not_running, ok, panicked, returned, returned_err, trim_slash, with_netns,
}
use mobydig.Mobynet.Containers.{container_loop-cases}
use mobydig.Mobynet.Labels.{AddsTo, Answered-cases, HasStray, IsCache, names_on}
use mobydig.Prelude.Dict.{lookup}

-- The networks of the result: in the order of the walk, those that are not empty, each with its
-- labels.
pub data Attached (moby : Client) (own : Text)
    : List (Text × Endpoint) → List DockerNetwork → Type 0 where
  found_none : Attached moby own [] []
  found_empty :
      {net : Text} {ep : Endpoint} {rest : List (Text × Endpoint)} {nets : List DockerNetwork}
      → moby.network_inspect ep.network_id ≡ ok []
      → Attached moby own rest nets
      → Attached moby own ((net, ep) ∷ rest) nets
  found_network :
      {net : Text} {ep : Endpoint} {rest : List (Text × Endpoint)} {nets : List DockerNetwork}
      {cntrs labels : List Text}
      → moby.network_inspect ep.network_id ≡ ok cntrs
      → cntrs ≢ []
      → Distinct labels
      → ((x : Text) → has x labels ≡ has x (names_on moby own net cntrs))
      → Attached moby own rest nets
      → Attached moby own ((net, ep) ∷ rest) (record { label = net; labels = labels } ∷ nets)

abbrev pub Fails : Client → Text → Text × Endpoint → Type 0
Fails moby e n = moby.network_inspect (n.1).network_id ≡ failed e

abbrev pub Strays : Client → (own : Text) → Text × Endpoint → Type 0
Strays moby own n =
    (cntrs : List Text) × (moby.network_inspect (n.1).network_id ≡ ok cntrs)
    × HasStray moby own n.0 cntrs

-- Of the loop over the networks, by what it returns.
abbrev pub Walked :
    Client
    → (own : Text) → List (Text × Endpoint)
    → List DockerNetwork
    → Ended (List DockerNetwork)
    → Type 0
Walked moby own networks nets (returned all) =
    (more : List DockerNetwork) × (all ≡ nets ++ more) × Attached moby own networks more
Walked moby own networks nets (returned_err e) = Any (Fails moby e) networks
Walked moby own networks nets panicked = Any (Strays moby own) networks

-- Of the whole call.
abbrev pub IsDiscovered : Client → Text → Ended (List DockerNetwork × Text) → Type 0
IsDiscovered moby id (returned (nets, netnsref)) =
    (center : ContainerJson) × (moby.container_inspect id ≡ ok center)
    × (center.pid ≢ 0)
    × (netnsref ≡ netns_path center.pid)
    × Attached moby (trim_slash center.name) center.networks nets
IsDiscovered moby id (returned_err e) =
    (moby.container_inspect id ≡ failed e)
    ⊎ ((center : ContainerJson) × (moby.container_inspect id ≡ ok center)
        × ((center.pid ≡ 0) × (e ≡ not_running id)
            ⊎ (center.pid ≢ 0) × Any (Fails moby e) center.networks))
IsDiscovered moby id panicked =
    (center : ContainerJson) × (moby.container_inspect id ≡ ok center)
    × (center.pid ≢ 0)
    × Any (Strays moby (trim_slash center.name)) center.networks

module _ (moby : Client) (own : Text) where
  Walked-skip :
      (net : Text) (ep : Endpoint) (rest : List (Text × Endpoint)) (nets : List DockerNetwork)
      (o : Ended (List DockerNetwork))
      → moby.network_inspect ep.network_id ≡ ok []
      → Walked moby own rest nets o
      → Walked moby own ((net, ep) ∷ rest) nets o
  Walked-skip net ep rest nets (returned all) h (more, e, f) = (more, e, found_empty h f)
  Walked-skip net ep rest nets (returned_err e) h w = inr w
  Walked-skip net ep rest nets panicked h w = inr w

  Walked-keep :
      (net : Text) (ep : Endpoint) (rest : List (Text × Endpoint)) (nets : List DockerNetwork)
      (cntrs labels : List Text) (o : Ended (List DockerNetwork))
      → moby.network_inspect ep.network_id ≡ ok cntrs
      → cntrs ≢ []
      → AddsTo (names_on moby own net cntrs) [] labels
      → Walked moby own rest (nets ++ record { label = net; labels = labels } ∷ []) o
      → Walked moby own ((net, ep) ∷ rest) nets o
  unfolding has
  Walked-keep net ep rest nets cntrs labels (returned all) h ne (distinct, added) (more, e, f) = (
    record { label = net; labels = labels } ∷ more,
    e ∙ append_assoc nets _ more,
    found_network h ne (distinct tt) added f,
  )
  Walked-keep net ep rest nets cntrs labels (returned_err e) h ne adds w = inr w
  Walked-keep net ep rest nets cntrs labels panicked h ne adds w = inr w

  pub network_loop-Walked :
      (networks : List (Text × Endpoint)) (cache : Cache) (nets : List DockerNetwork)
      → IsCache moby cache
      → Walked moby own networks nets (network_loop moby own networks cache nets)
  unfolding network_loop
  network_loop-Walked [] cache nets h = ([], sym (append-nil nets), found_none)
  network_loop-Walked ((net, ep) ∷ rest) cache nets h =
      elim (Answered-cases (moby.network_inspect ep.network_id)) [
        | inr (e, f) ↦ rw (f, network_loop) (inl f)
        | inl ([], f) ↦
            rw (f, network_loop)
              (Walked-skip net ep rest nets _ f (network_loop-Walked rest cache nets h))
        | inl (cntr ∷ cntrs, f) ↦
            elim (container_loop-cases moby own net (cntr ∷ cntrs) cache [] h) [
              | inl (labels, cache', r, adds, h') ↦
                  rw (f, network_loop, r)
                    (Walked-keep net ep rest nets (cntr ∷ cntrs) labels _ f (λ e. cc) adds
                      (network_loop-Walked rest cache' _ h'))
              | inr (r, stray) ↦ rw (f, network_loop, r) (inl (cntr ∷ cntrs, f, stray))
            ]
      ]

with_netns-IsDiscovered :
    (moby : Client) (id : Text) (center : ContainerJson) (o : Ended (List DockerNetwork))
    → moby.container_inspect id ≡ ok center
    → center.pid ≢ 0
    → Walked moby (trim_slash center.name) center.networks [] o
    → IsDiscovered moby id (with_netns center o)
unfolding with_netns
with_netns-IsDiscovered moby id center (returned nets) e ne (more, same, f) = (
  center,
  e,
  ne,
  refl,
  subst (Attached moby (trim_slash center.name) center.networks) (sym same) f,
)
with_netns-IsDiscovered moby id center (returned_err x) e ne w = inr (center, e, inr (ne, w))
with_netns-IsDiscovered moby id center panicked e ne w = (center, e, ne, w)

module _ (moby : Client) (id : Text) (center : ContainerJson) where
  discover-stopped :
      moby.container_inspect id ≡ ok center
      → center.pid ≡ 0
      → discover_attached_names moby id ≡ returned_err (not_running id)
  unfolding discover_attached_names
  discover-stopped e z = ground (arith, e, z)

  pub discover-running :
      moby.container_inspect id ≡ ok center
      → center.pid ≢ 0
      → discover_attached_names moby id
        ≡ with_netns center (network_loop moby (trim_slash center.name) center.networks [] [])
  unfolding discover_attached_names
  discover-running e ne = ground (arith, e, ne)

-- DiscoverAttachedNames, if it returns without an error, has found the container running, and
-- returns the path of its network namespace and, in the order of the walk, those of its networks
-- that are not empty, each with the names and the aliases of its other containers that could be
-- inspected, each label once. An error is that of inspecting the container or one of its networks, or
-- says that the container is not running. It panics only if the details of some container of an
-- attached network do not list that network.
pub discover-IsDiscovered :
    (moby : Client) (id : Text) → IsDiscovered moby id (discover_attached_names moby id)
unfolding discover_attached_names lookup
discover-IsDiscovered moby id = elim (Answered-cases (moby.container_inspect id)) [
  | inr (e, f) ↦ rw (f, discover_attached_names) (inl f)
  | inl (center, f) ↦ elim (ℕ_discrete center.pid 0) [
    | yes z ↦
        subst (IsDiscovered moby id) (sym (discover-stopped moby id center f z))
          (inr (center, f, inl (z, refl)))
    | no ne ↦ subst (IsDiscovered moby id) (sym (discover-running moby id center f ne)) (
        with_netns-IsDiscovered moby id center _ f ne
          (network_loop-Walked moby (trim_slash center.name) center.networks [] [] (λ k d l. cc)))
  ]
]
