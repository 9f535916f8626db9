-- ===== src/Mobynet.antt =====
-- mobynet/mobynet.go. The Docker client is an argument: it answers the same whenever it is asked the
-- same. A Go map that is walked is the list of its entries in the order of the walk.
pub mod Digits
pub mod Labels
pub mod Containers
pub mod Outcome
pub mod Returns
use mobydig.Prelude.{
  List, Text, [], codes, none, not, some, suc, text_discrete, zero, ℕ, ℕ_discrete, ◌%◌, ◌++◌, ◌+◌,
  ◌/◌, ◌∷◌,
}
use mobydig.Dig.Networks.{DockerNetwork, add_key}
use mobydig.Prelude.Dict.{insert, lookup}

-- What the source reads of a types.ContainerJSON; a network's entry is given by its name.
pub record Endpoint : Type 0 where
  pub network_id : Text
  pub aliases : List Text

pub record ContainerJson : Type 0 where
  pub name : Text
  pub pid : ℕ
  pub networks : List (Text × Endpoint)

pub data Answered (A : Type 0) : Type 0 where
  ok : A → Answered A
  failed : Text → Answered A

pub record Client : Type 0 where
  pub container_inspect : Text → Answered ContainerJson
  pub network_inspect : Text → Answered (List Text)  -- the names of the containers of the network

-- How a call ends. A field of a nil pointer panics.
pub data Ended (A : Type 0) : Type 0 where
  returned : A → Ended A
  returned_err : Text → Ended A
  panicked : Ended A

abbrev pub Cache : Type 0
Cache = List (Text × ContainerJson)

-- `strings.TrimPrefix(name, "/")`
unfoldable pub trim_slash : Text → Text
trim_slash [] = []
trim_slash (c ∷ cs) = elim (ℕ_discrete c 47) [ yes e ↦ cs | no ne ↦ c ∷ cs ]

-- `%d` of a natural number, with fuel for its digits.
unfoldable pub digits : (fuel n : ℕ) → Text → Text
digits zero n rest = rest
digits (suc fuel) n rest = elim (n / 10) [
  | zero ↦ (48 + n % 10) ∷ rest
  | suc m ↦ digits fuel (suc m) ((48 + n % 10) ∷ rest)
]

unfoldable pub netns_path : ℕ → Text
unfolding digits
netns_path pid = codes "/proc/" ++ (digits (suc pid) pid [] ++ codes "/ns/net")

unfoldable pub not_running : Text → Text
not_running id = codes "container '" ++ (id ++ codes "' is not running")

-- The loop over the aliases.
unfoldable pub alias_loop : List Text → List Text → List Text
unfolding add_key
alias_loop [] names = names
alias_loop (alias ∷ aliases) names = alias_loop aliases (add_key alias names)

-- The details of a container, and the cache with them.
unfoldable pub cntr_details : Client → Cache → Text → Answered (ContainerJson × Cache)
unfolding lookup insert
cntr_details moby cache name = elim (lookup name cache) [
  | some d ↦ ok (d, cache)
  | none ↦ elim (moby.container_inspect name) [
    | failed e ↦ failed e
    | ok d ↦ ok (d, insert name d cache)
  ]
]

-- The loop over the containers of the network `net`; `own` is the name of the center.
unfoldable pub container_loop :
    Client → (own net : Text) → List Text → Cache → List Text → Ended (List Text × Cache)
unfolding cntr_details alias_loop
container_loop moby own net [] cache names = returned (names, cache)
container_loop moby own net (cntr ∷ cntrs) cache names = elim (text_discrete cntr own) [
  | yes e ↦ container_loop moby own net cntrs cache names
  | no ne ↦ elim (cntr_details moby cache cntr) [
    | failed e ↦ container_loop moby own net cntrs cache names
    | ok (d, cache') ↦ elim (lookup net d.networks) [
      | none ↦ panicked
      | some ep ↦
          container_loop moby own net cntrs cache' (alias_loop ep.aliases (add_key cntr names))
    ]
  ]
]

-- The loop over the networks of the center.
unfoldable pub network_loop :
    Client
    → (own : Text) → List (Text × Endpoint)
    → Cache
    → List DockerNetwork
    → Ended (List DockerNetwork)
unfolding container_loop
network_loop moby own [] cache nets = returned nets
network_loop moby own ((net, ep) ∷ rest) cache nets = elim (moby.network_inspect ep.network_id) [
  | failed e ↦ returned_err e
  | ok [] ↦ network_loop moby own rest cache nets
  | ok (cntr ∷ cntrs) ↦ elim (container_loop moby own net (cntr ∷ cntrs) cache []) [
    | returned (names, cache') ↦
        network_loop moby own rest cache' (nets ++ record { label = net; labels = names } ∷ [])
    | returned_err e ↦ returned_err e
    | panicked ↦ panicked
  ]
]

unfoldable pub with_netns :
    ContainerJson → Ended (List DockerNetwork) → Ended (List DockerNetwork × Text)
unfolding netns_path
with_netns center (returned nets) = returned (nets, netns_path center.pid)
with_netns center (returned_err e) = returned_err e
with_netns center panicked = panicked

unfoldable pub discover_attached_names : Client → Text → Ended (List DockerNetwork × Text)
unfolding network_loop trim_slash not_running with_netns
discover_attached_names moby center_id = elim (moby.container_inspect center_id) [
  | failed e ↦ returned_err e
  | ok center ↦ elim (ℕ_discrete center.pid 0) [
    | yes e ↦ returned_err (not_running center_id)
    | no ne ↦ with_netns center (network_loop moby (trim_slash center.name) center.networks [] [])
  ]
]
