-- ===== src/Messymoby/Dead.antt =====
-- What RemoveDeadTestContainers removes.
use mobydig.Prelude.{
  Any, List, Text, [], arith, codes, has, inl, inr, none, refl, true, ◌++◌, ◌↔◌, ◌∷◌, ◌≡◌,
}
use mobydig.Messymoby.{
  Container, MobyClient, is_labelled, remove_containers, remove_dead_test_containers,
}
use mobydig.Mobynet.{ok}
use mobydig.Mobynet.Labels.{Answered-cases}

remove_containers-has :
    (labelname x : Text) (deads : List Container)
    → (has x (remove_containers labelname deads) ≡ true)
      ↔ Any (λ c. (c.id ≡ x) × (is_labelled labelname c.labels ≡ true)) deads
unfolding remove_containers has
remove_containers-has labelname x [] = ground arith
remove_containers-has labelname x (c ∷ deads) =
    ground (arith, remove_containers-has labelname x deads)

-- If Docker can list the containers that have exited and those that were only created, no error is
-- returned, and just the labelled ones among both are removed.
remove_dead_lem :
    (cln : MobyClient) (labelname : Text) (deads created : List Container)
    → cln.container_list (codes "exited") ≡ ok deads
    → cln.container_list (codes "created") ≡ ok created
    → ((remove_dead_test_containers cln labelname).err ≡ none)
      × ((x : Text)
          → (has x (remove_dead_test_containers cln labelname).removed ≡ true)
            ↔ Any (λ c. (c.id ≡ x) × (is_labelled labelname c.labels ≡ true)) (deads ++ created))
unfolding remove_dead_test_containers
remove_dead_lem cln labelname deads created e f =
    rw (remove_dead_test_containers, e, f)
      (refl, λ x. remove_containers-has labelname x (deads ++ created))

remove_containers-nil : (deads : List Container) → remove_containers [] deads ≡ []
unfolding remove_containers is_labelled
remove_containers-nil [] = refl
remove_containers-nil (c ∷ deads) = ground (arith, remove_containers-nil deads)

-- With an empty label no container is removed.
remove_dead_of_empty : (cln : MobyClient) → (remove_dead_test_containers cln []).removed ≡ []
unfolding remove_dead_test_containers
remove_dead_of_empty cln = elim (Answered-cases (cln.container_list (codes "exited"))) [
  | inl (deads, f) ↦ elim (Answered-cases (cln.container_list (codes "created"))) [
    | inl (created, g) ↦
        rw (remove_dead_test_containers, f, g) (remove_containers-nil (deads ++ created))
    | inr (e, g) ↦ rw (remove_dead_test_containers, f, g) refl
  ]
  | inr (e, f) ↦ rw (remove_dead_test_containers, f) refl
]
