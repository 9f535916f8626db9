-- ===== src/Cmd/Report.antt =====
-- DigAndReport of cmd/mobydig/digging.go: how it starts, and the goroutines that track and render.
-- Its context is context.Background(), which never ends.
pub mod Last
pub mod Verdicts
pub mod Start
pub mod Whole
pub mod Completion
pub mod Sources
use mobydig.Prelude.{Bool, List, Text, [], codes, false, none, some, true, ◌++◌, ◌∷◌, ◌≡◌}
use mobydig.Cmd.Shared.{sort_shared}
use mobydig.Dig.AddrMap.{NamedAddressSet, NamedAddressesMap, get, new_named_addresses_map, update}
use mobydig.Dig.Networks.{DockerNetwork}
use mobydig.DnsWorker.Dial.{Opened}
use mobydig.Mobynet.{Client, discover_attached_names, panicked, returned, returned_err}
use mobydig.Types.Addr.{Error, NamedAddressValue}

-- Up to the start of the Verifier: an error, or the networks to dig and the namespace to ping from.
-- `client_error` is that of connecting to Docker, and `open_pool` the New of dnsworker in a namespace.
pub data Prepared : Type 0 where
  ready : List DockerNetwork → Text → Prepared
  refused_with : Text → Prepared
  crashed : Prepared

unfoldable pub prepare_digger :
    (open_pool : (netnsref : Text) → Opened) → List DockerNetwork × Text → Prepared
prepare_digger open_pool (nets, netnsref) = elim (open_pool netnsref).err [
  | some e ↦ refused_with (codes "cannot dig address information: " ++ e)
  | none ↦ ready nets netnsref
]

unfoldable pub prepare :
    (client_error : Error) → Client → (open_pool : (netnsref : Text) → Opened) → Text → Prepared
unfolding prepare_digger
prepare (some e) moby open_pool startpoint =
    refused_with (codes "cannot connect to the Docker daemon: " ++ e)
prepare none moby open_pool startpoint = elim (discover_attached_names moby startpoint) [
  | panicked ↦ crashed
  | returned_err e ↦
      refused_with (codes "cannot discover attached networks and their containers: " ++ e)
  | returned networks ↦ prepare_digger open_pool networks
]

-- The map, the channels trackingDone and renderingDone, and what the renderer has been given.
pub record Display : Type 0 where
  pub news : List NamedAddressValue  -- what the Verifier has still to send
  pub namaddrs : NamedAddressesMap
  pub tracking_done : Bool
  pub rendering_done : Bool
  pub rendered : List (List NamedAddressSet)
  pub finished : Bool  -- DigAndReport has returned

abbrev pub blank : List NamedAddressValue → Display
blank news = record {
  news = news;
  namaddrs = new_named_addresses_map;
  tracking_done = false;
  rendering_done = false;
  rendered = [];
  finished = false;
}

-- renderData, which sorts slices of the map that it is given.
unfoldable pub render_data : (Text → Text) → Display → Display
unfolding get sort_shared
render_data ip d = record d {
  namaddrs = sort_shared ip d.namaddrs;
  rendered = d.rendered ++ get d.namaddrs ∷ [];
}

pub data DisplayStep (ip : Text → Text) (d : Display) : Display → Type 0 where
  -- the goroutine that renders: at its start and when its ticker ticks
  refresh : d.rendering_done ≡ false → DisplayStep ip d (render_data ip d)
  -- its deferred function
  last_refresh :
      d.tracking_done ≡ true
      → d.rendering_done ≡ false
      → DisplayStep ip d (record (render_data ip d) { rendering_done = true })
  -- the goroutine that tracks
  track_one :
      (na : NamedAddressValue) (rest : List NamedAddressValue)
      → d.tracking_done ≡ false
      → d.news ≡ na ∷ rest
      → DisplayStep ip d (record d { news = rest; namaddrs = update d.namaddrs (some na) })
  track_end :
      d.tracking_done ≡ false → d.news ≡ [] → DisplayStep ip d (record d { tracking_done = true })
  report_returns :
      d.rendering_done ≡ true → d.finished ≡ false → DisplayStep ip d (record d { finished = true })

pub data Displayed (ip : Text → Text) (news : List NamedAddressValue) : Display → Type 0 where
  switched_on : Displayed ip news (blank news)
  then_step : {d e : Display} → Displayed ip news d → DisplayStep ip d e → Displayed ip news e
