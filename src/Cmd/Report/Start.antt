-- ===== src/Cmd/Report/Start.antt =====
-- How DigAndReport starts.
use mobydig.Prelude.{List, Option-cases, Text, codes, inl, inr, none, refl, some, ◌++◌, ◌≡◌, ◌⊎◌}
use mobydig.Cmd.Report.{Prepared, crashed, prepare, prepare_digger, ready, refused_with}
use mobydig.Dig.Networks.{DockerNetwork}
use mobydig.DnsWorker.Dial.{Opened}
use mobydig.Mobynet.{Client, Ended, discover_attached_names, panicked, returned, returned_err}
use mobydig.Types.Addr.{Error}

-- What has gone well, or the first error with its message.
abbrev pub IsPrepared : Error → Client → (open_pool : Text → Opened) → Text → Prepared → Type 0
IsPrepared client_error moby open_pool startpoint (ready nets netnsref) =
    (client_error ≡ none)
    × (discover_attached_names moby startpoint ≡ returned (nets, netnsref))
    × ((open_pool netnsref).err ≡ none)
IsPrepared client_error moby open_pool startpoint (refused_with text) =
    ((e : Text) × (client_error ≡ some e)
      × (text ≡ codes "cannot connect to the Docker daemon: " ++ e))
    ⊎ ((e : Text) × (client_error ≡ none)
        × (discover_attached_names moby startpoint ≡ returned_err e)
        × (text ≡ codes "cannot discover attached networks and their containers: " ++ e))
    ⊎ ((nets : List DockerNetwork) × (netnsref e : Text) × (client_error ≡ none)
        × (discover_attached_names moby startpoint ≡ returned (nets, netnsref))
        × ((open_pool netnsref).err ≡ some e)
        × (text ≡ codes "cannot dig address information: " ++ e))
IsPrepared client_error moby open_pool startpoint crashed =
    (client_error ≡ none) × (discover_attached_names moby startpoint ≡ panicked)

Ended-cases :
    {A : Type 0} (o : Ended A)
    → ((a : A) × (o ≡ returned a)) ⊎ ((e : Text) × (o ≡ returned_err e)) ⊎ (o ≡ panicked)
Ended-cases (returned a) = inl (a, refl)
Ended-cases (returned_err e) = inr (inl (e, refl))
Ended-cases panicked = inr (inr refl)

prepare_digger-IsPrepared :
    (moby : Client) (open_pool : Text → Opened) (startpoint : Text) (nets : List DockerNetwork)
    (netnsref : Text)
    → discover_attached_names moby startpoint ≡ returned (nets, netnsref)
    → IsPrepared none moby open_pool startpoint (prepare_digger open_pool (nets, netnsref))
unfolding prepare_digger
prepare_digger-IsPrepared moby open_pool startpoint nets netnsref f =
    elim (Option-cases (open_pool netnsref).err) [
      | inl e ↦ rw (e, prepare_digger) (refl, f, e)
      | inr (x, e) ↦ rw (e, prepare_digger) (inr (inr (nets, netnsref, x, refl, f, e, refl)))
    ]

-- DigAndReport goes on after its start if the client could be made, the networks discovered and the
-- digger made; otherwise it returns the first error with its message, or panics where
-- DiscoverAttachedNames does.
pub prepare-IsPrepared :
    (client_error : Error) (moby : Client) (open_pool : Text → Opened) (startpoint : Text)
    → IsPrepared client_error moby open_pool startpoint
        (prepare client_error moby open_pool startpoint)
unfolding prepare
prepare-IsPrepared (some e) moby open_pool startpoint = inl (e, refl, refl)
prepare-IsPrepared none moby open_pool startpoint =
    elim (Ended-cases (discover_attached_names moby startpoint)) [
      | inl ((nets, netnsref), f) ↦
          rw (f, prepare) (prepare_digger-IsPrepared moby open_pool startpoint nets netnsref f)
      | inr failures ↦ elim failures [
        | inl (e, f) ↦ rw (f, prepare) (inr (inl (e, refl, f, refl)))
        | inr f ↦ rw (f, prepare) (refl, f)
      ]
    ]
