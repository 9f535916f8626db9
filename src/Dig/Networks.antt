-- ===== src/Dig/Networks.antt =====
-- dig/mobynet.go: the names to dig up on a list of networks. A Go map that serves as a set is the
-- list of its keys in the order of first insertion; the order in which Go walks it is open.
use mathlib.Core.List.{append-nil, append_assoc}
use mobydig.Prelude.{
  Distinct, Distinct-snoc, List, Text, [], ap, arith, codes, has, has-append, has-snoc,
  if◌then◌else◌, ite, map, sym, text_discrete, true, ◌++◌, ◌||◌, ◌∙◌, ◌∷◌, ◌≡◌,
}
use mobydig.Prelude.Dict.{keys}

pub record DockerNetwork : Type 0 where
  pub label : Text
  pub labels : List Text

-- `flatnames[label] = struct{}{}`
unfoldable pub add_key : Text → List Text → List Text
unfolding has
add_key x keys = if has x keys then keys else keys ++ x ∷ []

-- `label+"."+net.Label`
abbrev pub dotted : Text → DockerNetwork → Text
dotted label net = label ++ (codes "." ++ net.label)

-- The inner loop, over its two variables.
unfoldable pub label_loop :
    DockerNetwork → List Text → List Text × List Text → List Text × List Text
unfolding add_key
label_loop net [] v = v
label_loop net (label ∷ labels) (names, flatnames) =
    label_loop net labels (names ++ dotted label net ∷ [], add_key label flatnames)

-- The outer loop.
unfoldable pub net_loop : List DockerNetwork → List Text × List Text → List Text × List Text
unfolding label_loop
net_loop [] v = v
net_loop (net ∷ nets) v = net_loop nets (label_loop net net.labels v)

-- The last loop appends the keys one by one.
unfoldable pub all_fqdns_on_attached_networks : List DockerNetwork → List Text
unfolding net_loop
all_fqdns_on_attached_networks nets =
    let (names, flatnames) = net_loop nets ([], []) in names ++ flatnames

-- The names with their network, in the order of networks and labels.
unfoldable pub dotted_names : List DockerNetwork → List Text
dotted_names [] = []
dotted_names (net ∷ nets) = map (λ label. dotted label net) net.labels ++ dotted_names nets

unfoldable pub all_labels : List DockerNetwork → List Text
all_labels [] = []
all_labels (net ∷ nets) = net.labels ++ all_labels nets

pub has-add_key :
    (x y : Text) (keys : List Text)
    → has x (add_key y keys) ≡ ite (text_discrete y x) true (has x keys)
unfolding add_key
has-add_key x y keys = ground (arith, has-snoc x y keys)

pub Distinct-add_key : (x : Text) (keys : List Text) → Distinct keys → Distinct (add_key x keys)
unfolding add_key
Distinct-add_key x keys d = ground (arith, Distinct-snoc x keys)

-- What a loop does to its two variables: names are appended, keys are added.
abbrev Collects : List Text → List Text → List Text × List Text → List Text × List Text → Type 0
Collects names labels v w =
    (w.0 ≡ v.0 ++ names)
    × (Distinct v.1 → Distinct w.1)
    × ((x : Text) → has x w.1 ≡ (has x v.1 || has x labels))

label_loop-Collects :
    (net : DockerNetwork) (labels : List Text) (names flatnames : List Text)
    → Collects
        (map (λ label. dotted label net) labels)
        labels
        (names, flatnames)
        (label_loop net labels (names, flatnames))
unfolding label_loop has
label_loop-Collects net [] names flatnames = (sym (append-nil names), λ d. d, λ x. ground arith)
label_loop-Collects net (label ∷ labels) names flatnames =
    let (appended, distinct, added) =
      label_loop-Collects net labels (names ++ dotted label net ∷ []) (add_key label flatnames) in
    (
      appended ∙ append_assoc names (dotted label net ∷ []) _,
      λ d. distinct (Distinct-add_key label flatnames d),
      λ x. added x ∙ ground (arith, has-add_key x label flatnames),
    )

net_loop-Collects :
    (nets : List DockerNetwork) (names flatnames : List Text)
    → Collects
        (dotted_names nets)
        (all_labels nets)
        (names, flatnames)
        (net_loop nets (names, flatnames))
unfolding net_loop dotted_names all_labels has
net_loop-Collects [] names flatnames = (sym (append-nil names), λ d. d, λ x. ground arith)
net_loop-Collects (net ∷ nets) names flatnames =
    let v = label_loop net net.labels (names, flatnames) in
    let (appended, distinct, added) = label_loop-Collects net net.labels names flatnames in
    let (appended', distinct', added') = net_loop-Collects nets v.0 v.1 in
    (
      appended' ∙ ap (λ xs. xs ++ dotted_names nets) appended ∙ append_assoc names _ _,
      λ d. distinct' (distinct d),
      λ x. added' x ∙ ground (arith, added x, has-append x net.labels (all_labels nets)),
    )

-- The result holds each label with its network's name, network by network and in order, and then
-- each label once and by itself, in some order.
pub all_fqdns_lem :
    (nets : List DockerNetwork)
    → (flat : List Text) × (all_fqdns_on_attached_networks nets ≡ dotted_names nets ++ flat)
      × Distinct flat
      × ((x : Text) → has x flat ≡ has x (all_labels nets))
unfolding all_fqdns_on_attached_networks has
all_fqdns_lem nets =
    let (appended, distinct, added) = net_loop-Collects nets [] [] in
    (
      (net_loop nets ([], [])).1,
      ap (λ xs. xs ++ (net_loop nets ([], [])).1) appended,
      distinct tt,
      added,
    )
