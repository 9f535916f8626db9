-- ===== src/Tests/Messymoby.antt =====
-- messymoby/: three test networks of one name, and a network of each other kind.
use mobydig.Prelude.{
  Distinct, List, Text, [], codes, has, none, refl, some, text_discrete, ◌∷◌, ◌≡◌,
}
use mobydig.Messymoby.{
  MobyClient, NetworkResource, remove_dead_test_containers, remove_duplicate_test_networks,
}
use mobydig.Messymoby.Duplicates.{RemovesDuplicates, remove_duplicates_lem}
use mobydig.Messymoby.Maps.{ids}
use mobydig.Mobynet.{ok}

abbrev test_net : Text → Text → NetworkResource
test_net name id = record { name = name; id = id; labels = codes "messymoby" ∷ [] }

abbrev some_nets : List NetworkResource
some_nets =
    test_net (codes "net_a") (codes "1")
    ∷ test_net (codes "net_b") (codes "2")
    ∷ record { name = codes "net_a"; id = codes "3"; labels = [] }
    ∷ test_net (codes "bridge") (codes "4")
    ∷ test_net (codes "bridge") (codes "5")
    ∷ test_net (codes "net_a") (codes "6")
    ∷ test_net (codes "none") (codes "7")
    ∷ test_net (codes "none") (codes "8")
    ∷ []

abbrev some_client : MobyClient
some_client = record {
  container_list = λ status. ok (record { id = status; labels = codes "messymoby" ∷ [] } ∷ []);
  network_list = ok some_nets;
}

remove_some_nets :
    remove_duplicate_test_networks some_client (codes "messymoby")
    ≡ some (record { removed = codes "1" ∷ codes "6" ∷ []; err = none })
unfolding remove_duplicate_test_networks text_discrete has
remove_some_nets = refl

-- With an empty label, though two networks of one name have it.
remove_for_empty :
    (remove_duplicate_test_networks
      (record some_client {
        network_list = ok (
            record { name = codes "a"; id = codes "1"; labels = [] ∷ [] }
            ∷ record { name = codes "a"; id = codes "2"; labels = [] ∷ [] }
            ∷ []);
      })
      [])
    ≡ some (record { removed = []; err = none })
unfolding remove_duplicate_test_networks text_discrete has
remove_for_empty = refl

remove_some_containers :
    (remove_dead_test_containers some_client (codes "messymoby")).removed
    ≡ codes "exited" ∷ codes "created" ∷ []
unfolding remove_dead_test_containers text_discrete has
remove_some_containers = refl

some_nets-Distinct : Distinct (ids some_nets)
unfolding has text_discrete
some_nets-Distinct = (refl, (refl, (refl, (refl, (refl, (refl, (refl, (refl, tt))))))))

remove_duplicates_lem_example :
    RemovesDuplicates
      (codes "messymoby")
      some_nets
      (remove_duplicate_test_networks some_client (codes "messymoby"))
remove_duplicates_lem_example =
    remove_duplicates_lem some_client (codes "messymoby") some_nets refl some_nets-Distinct
