-- ===== src/Messymoby.antt =====
-- messymoby/rmtestcntrs.go, rmdupnets.go and Cleanup of client.go: which containers and networks the
-- Docker client is asked to remove. Whether it does has no effect on the code.
pub mod Maps
pub mod Loop
pub mod Duplicates
pub mod Dead
use mathlib.Core.Option
use mobydig.Prelude.{
  Bool, List, Option, Text, [], codes, false, has, if◌then◌else◌, ite, none, not, some,
  text_discrete, true, ◌&&◌, ◌++◌, ◌||◌, ◌∷◌,
}
use mobydig.Mobynet.{Answered, failed, ok}
use mobydig.Prelude.Dict.{insert, lookup}
use mobydig.Types.Addr.{Error}

-- What the source reads of a container and of a network: of a label, its key.
pub record Container : Type 0 where
  pub id : Text
  pub labels : List Text

pub record NetworkResource : Type 0 where
  pub name : Text
  pub id : Text
  pub labels : List Text

pub record MobyClient : Type 0 where
  pub container_list : (status : Text) → Answered (List Container)
  pub network_list : Answered (List NetworkResource)

-- The removals asked for, in order, and the error returned.
pub record Cleaned : Type 0 where
  pub removed : List Text
  pub err : Error

-- `ok && labelname != ""`
unfoldable pub is_labelled : (labelname : Text) → (labels : List Text) → Bool
is_labelled labelname labels =
    has labelname labels && not (ite (text_discrete labelname []) true false)

unfoldable pub remove_containers : (labelname : Text) → List Container → List Text
unfolding is_labelled
remove_containers labelname [] = []
remove_containers labelname (dead ∷ deads) =
    let rest = remove_containers labelname deads in
    if is_labelled labelname dead.labels then dead.id ∷ rest else rest

unfoldable pub remove_dead_test_containers : MobyClient → (labelname : Text) → Cleaned
unfolding remove_containers
remove_dead_test_containers cln labelname = elim (cln.container_list (codes "exited")) [
  | failed e ↦ record { removed = []; err = some e }
  | ok deads ↦ elim (cln.container_list (codes "created")) [
    | failed e ↦ record { removed = []; err = some e }
    | ok created ↦ record { removed = remove_containers labelname (deads ++ created); err = none }
  ]
]

-- The two maps.
pub record NetMaps : Type 0 where
  pub netnames : List (Text × List Text)
  pub netrscs : List (Text × NetworkResource)

-- `append` to the slice of a name; a missing one is nil.
unfoldable pub append_id : NetworkResource → List (Text × List Text) → List (Text × List Text)
unfolding insert lookup
append_id net netnames =
    insert net.name
      ((elim (lookup net.name netnames) [ some ids ↦ ids | none ↦ [] ]) ++ net.id ∷ []) netnames

unfoldable pub collect_networks : List NetworkResource → NetMaps → NetMaps
unfolding append_id
collect_networks [] m = m
collect_networks (net ∷ nets) m =
    collect_networks nets
      (record { netnames = append_id net m.netnames; netrscs = insert net.id net m.netrscs })

-- The innermost loop; `none` is the panic at a nil pointer, where an id is not a key of netrscs.
unfoldable pub remove_networks :
    (labelname : Text) → List (Text × NetworkResource) → (net_ids : List Text) → Option (List Text)
unfolding is_labelled lookup
remove_networks labelname netrscs [] = some []
remove_networks labelname netrscs (net_id ∷ net_ids) =
    let rest = remove_networks labelname netrscs net_ids in
    elim (lookup net_id netrscs) [
      | some net ↦
          Option.map (λ ids. if is_labelled labelname net.labels then net_id ∷ ids else ids) rest
      | none ↦ none
    ]

-- The switch over the networks that Docker has predefined.
unfoldable pub is_predefined : Text → Bool
is_predefined netname = has netname (codes "bridge" ∷ codes "host" ∷ codes "none" ∷ [])

abbrev pub is_one : List Text → Bool
is_one (x ∷ []) = true
is_one _ = false

unfoldable pub after_networks : Option (List Text) → Option (List Text) → Option (List Text)
after_networks (some ids) rest = Option.map (λ more. ids ++ more) rest
after_networks none rest = none

unfoldable pub duplicates_loop :
    (labelname : Text)
    → List (Text × NetworkResource)
    → List (Text × List Text)
    → Option (List Text)
unfolding remove_networks is_predefined after_networks
duplicates_loop labelname netrscs [] = some []
duplicates_loop labelname netrscs ((netname, net_ids) ∷ netnames) =
    let rest = duplicates_loop labelname netrscs netnames in
    if is_one net_ids || is_predefined netname
    then rest
    else after_networks (remove_networks labelname netrscs net_ids) rest

-- `none` is a panic.
unfoldable pub remove_duplicate_test_networks : MobyClient → (labelname : Text) → Option Cleaned
unfolding collect_networks duplicates_loop
remove_duplicate_test_networks cln labelname = elim cln.network_list [
  | failed e ↦ some (record { removed = []; err = some e })
  | ok nets ↦
      let maps = collect_networks nets (record { netnames = []; netrscs = [] }) in
      Option.map (λ ids. record { removed = ids; err = none })
        (duplicates_loop labelname maps.netrscs maps.netnames)
]

abbrev messy_moby_label : Text
messy_moby_label = codes "messymoby"

-- Both removals, one after the other; their errors are dropped.
unfoldable pub cleanup : MobyClient → Cleaned × Option Cleaned
unfolding remove_dead_test_containers remove_duplicate_test_networks
cleanup cln = (
  remove_dead_test_containers cln messy_moby_label,
  remove_duplicate_test_networks cln messy_moby_label,
)
