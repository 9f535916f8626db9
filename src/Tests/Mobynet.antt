-- ===== src/Tests/Mobynet.antt =====
-- mobynet/mobynet.go: a container with three networks, one of them empty but for itself.
use mobydig.Prelude.{
  List, Text, [], ap, arith, codes, has, ite, none, refl, text_discrete, ◌∙◌, ◌∷◌, ◌≡◌, ◌≢◌,
}
use mobydig.Dig.Networks.{DockerNetwork}
use mobydig.Mobynet.{
  Answered, Client, ContainerJson, discover_attached_names, failed, netns_path, ok, returned,
  trim_slash,
}
use mobydig.Mobynet.Labels.{HasStray}
use mobydig.Mobynet.Outcome.{IsDiscovered, discover-IsDiscovered}
use mobydig.Mobynet.Returns.{discover-returns}
use mobydig.Prelude.Dict.{lookup}

abbrev center : ContainerJson
center = record {
  name = codes "/center";
  pid = 4217;
  networks =
      (codes "net_a", record { network_id = codes "a"; aliases = [] })
      ∷ (codes "net_b", record { network_id = codes "b"; aliases = [] })
      ∷ (codes "net_c", record { network_id = codes "c"; aliases = [] })
      ∷ [];
}

-- It is on the networks a and b, with the same alias.
abbrev other_cntr : ContainerJson
other_cntr = record {
  name = codes "/other";
  pid = 4218;
  networks =
      (codes "net_a", record { network_id = codes "a"; aliases = codes "web" ∷ codes "other" ∷ [] })
      ∷ (codes "net_b", record { network_id = codes "b"; aliases = codes "web" ∷ [] })
      ∷ [];
}

inspect : Text → Answered ContainerJson
unfolding text_discrete
inspect name =
    ite (text_discrete name (codes "center")) (ok center) (
      ite (text_discrete name (codes "other")) (ok other_cntr) (failed (codes "no such container")))

network : Text → Answered (List Text)
unfolding text_discrete
network id =
    ite (text_discrete id (codes "a")) (ok (codes "center" ∷ codes "other" ∷ codes "gone" ∷ []))
      (ite (text_discrete id (codes "b")) (ok (codes "other" ∷ codes "center" ∷ [])) (ok []))

abbrev moby : Client
moby = record { container_inspect = inspect; network_inspect = network }

discovered_nets : List DockerNetwork
discovered_nets =
    record { label = codes "net_a"; labels = codes "other" ∷ codes "web" ∷ [] }
    ∷ record { label = codes "net_b"; labels = codes "other" ∷ codes "web" ∷ [] }
    ∷ []

discover-center :
    discover_attached_names moby (codes "center")
    ≡ returned (discovered_nets, codes "/proc/4217/ns/net")
unfolding discover_attached_names inspect network text_discrete discovered_nets
discover-center = refl

discover-IsDiscovered_example :
    IsDiscovered moby (codes "center") (discover_attached_names moby (codes "center"))
discover-IsDiscovered_example = discover-IsDiscovered moby (codes "center")

-- The details of the other container list the networks a and b, and there is no third container
-- that could be inspected.
calm :
    (net : Text) (cntrs : List Text)
    → lookup net other_cntr.networks ≢ none
    → ¬ HasStray moby (codes "center") net cntrs
unfolding inspect
calm net cntrs listed (cntr, inside, (ne, (d, e, l))) = elim (text_discrete cntr (codes "other")) [
  | yes p ↦
      let same : ok other_cntr ≡ ok d = ground (arith, e, p, ne) in
      let found : other_cntr ≡ d = cc in
      listed (ap (λ (c : ContainerJson). lookup net c.networks) found ∙ l)
  | no ne' ↦ ground (arith, e, ne, ne')
]

empty_calm : ¬ HasStray moby (codes "center") (codes "net_c") []
unfolding has
empty_calm (cntr, inside, stray) = cc

discover-returns_example :
    (nets : List DockerNetwork) × (discover_attached_names moby (codes "center")
      ≡ returned (nets, netns_path center.pid))
unfolding inspect network text_discrete trim_slash lookup
discover-returns_example =
    discover-returns moby (codes "center") center refl (λ e. omega (arith, e))
      (
        (_, refl, calm (codes "net_a") _ (λ e. cc)),
        ((_, refl, calm (codes "net_b") _ (λ e. cc)), (([], refl, empty_calm), tt)),
      )
