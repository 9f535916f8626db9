-- ===== src/Mobynet/Returns.antt =====
-- When DiscoverAttachedNames returns without an error.
use mobydig.Prelude.{All, Any, List, Text, [], ap, inl, inr, refl, subst, sym, ◌∙◌, ◌∷◌, ◌≡◌, ◌≢◌}
use mobydig.Dig.Networks.{DockerNetwork}
use mobydig.Mobynet.{
  Client, ContainerJson, Ended, Endpoint, discover_attached_names, netns_path, ok, panicked,
  returned, returned_err, trim_slash, with_netns,
}
use mobydig.Mobynet.Labels.{HasStray}
use mobydig.Mobynet.Outcome.{Fails, Strays, Walked, discover-running, network_loop-Walked}
use mobydig.Prelude.Dict.{lookup}

Any-All :
    {A : Type 0} {P Q : A → Type 0} (xs : List A)
    → ((x : A) → P x → Q x → ⊥)
    → Any P xs
    → All Q xs
    → ⊥
Any-All [] apart p q = p
Any-All (x ∷ xs) apart (inl p) (q, qs) = apart x p q
Any-All (x ∷ xs) apart (inr ps) (q, qs) = Any-All xs apart ps qs

-- A network that can be inspected, and whose containers' details list it.
abbrev pub IsSound : Client → (own : Text) → Text × Endpoint → Type 0
IsSound moby own n =
    (cntrs : List Text) × (moby.network_inspect (n.1).network_id ≡ ok cntrs)
    × ¬ HasStray moby own n.0 cntrs

module _ (moby : Client) (own : Text) where
  sound_or_Fails : (e : Text) (n : Text × Endpoint) → Fails moby e n → IsSound moby own n → ⊥
  sound_or_Fails e n f (cntrs, g, calm) = cc

  sound_or_Strays : (n : Text × Endpoint) → Strays moby own n → IsSound moby own n → ⊥
  sound_or_Strays n (cntrs, f, stray) (cntrs', g, calm) =
      let same : ok cntrs ≡ ok cntrs' = sym f ∙ g in calm (subst (HasStray moby own n.0) (cc) stray)

  returns_if_sound :
      (networks : List (Text × Endpoint)) (nets : List DockerNetwork)
      (o : Ended (List DockerNetwork))
      → Walked moby own networks nets o
      → All (IsSound moby own) networks
      → (all : List DockerNetwork) × (o ≡ returned all)
  returns_if_sound networks nets (returned all) w sound = (all, refl)
  returns_if_sound networks nets (returned_err e) w sound =
      absurd (Any-All networks (sound_or_Fails e) w sound)
  returns_if_sound networks nets panicked w sound =
      absurd (Any-All networks sound_or_Strays w sound)

-- If the container runs, and each of its networks can be inspected and is listed by the details of
-- all its other containers that can be inspected, then DiscoverAttachedNames returns networks and
-- the path of the network namespace, without an error.
pub discover-returns :
    (moby : Client) (id : Text) (center : ContainerJson)
    → moby.container_inspect id ≡ ok center
    → center.pid ≢ 0
    → All (IsSound moby (trim_slash center.name)) center.networks
    → (nets : List DockerNetwork) × (discover_attached_names moby id
        ≡ returned (nets, netns_path center.pid))
unfolding with_netns lookup
discover-returns moby id center e ne sound =
    let own = trim_slash center.name in
    let (nets, r) =
      returns_if_sound moby own center.networks [] _
        (network_loop-Walked moby own center.networks [] [] (λ k d l. cc)) sound in
    (nets, discover-running moby id center e ne ∙ ap (with_netns center) r)
