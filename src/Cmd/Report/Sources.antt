-- ===== src/Cmd/Report/Sources.antt =====
-- What DigAndReport of cmd/mobydig/digging.go displays comes from the news of the Verifier.
use mobydig.Prelude.{All, All-snoc, Text, [], subst, ◌∷◌}
use mobydig.Cmd.Groups.{sort_qualified_addresses}
use mobydig.Cmd.Report.{
  Display, DisplayStep, last_refresh, refresh, render_data, report_returns, track_end, track_one,
}
use mobydig.Cmd.Shared.{sort_shared}
use mobydig.Dig.AddrMap.{NamedAddressesMap}
use mobydig.Dig.AddrMap.Sources.{IsEntryOf, IsSetOf, get-All, update-Entries}
use mobydig.Prelude.Dict.{Entries}
use mobydig.Prelude.Sorting.{All-sort_slice}
use mobydig.Types.Quality.{Quality}
use mobydig.Verifier.AddrCache.Sources.{IsSourced}

module _ (P : Text → Text → Type 0) (R : Text → Quality → Type 0) where
  sort_shared-Entries :
      (ip : Text → Text) (m : NamedAddressesMap)
      → Entries (IsEntryOf P R) m
      → Entries (IsEntryOf P R) (sort_shared ip m)
  unfolding sort_shared sort_qualified_addresses
  sort_shared-Entries ip [] h = tt
  sort_shared-Entries ip ((n, vs) ∷ m) ((p, all), h) =
      ((p, All-sort_slice _ _ vs all), sort_shared-Entries ip m h)

  abbrev pub ShowsSourced : Display → Type 0
  ShowsSourced d =
      All (IsSourced P R) d.news
      × Entries (IsEntryOf P R) d.namaddrs
      × All (All (IsSetOf P R)) d.rendered

  render-ShowsSourced :
      (ip : Text → Text) (d : Display) → ShowsSourced d → ShowsSourced (render_data ip d)
  unfolding render_data
  render-ShowsSourced ip d (news, entries, rendered) = (
    news,
    sort_shared-Entries ip d.namaddrs entries,
    All-snoc (All (IsSetOf P R)) d.rendered _ rendered (get-All P R d.namaddrs entries),
  )

  pub Step-ShowsSourced :
      {ip : Text → Text} {d e : Display} → DisplayStep ip d e → ShowsSourced d → ShowsSourced e
  Step-ShowsSourced {ip} {d} (refresh on) h = render-ShowsSourced ip d h
  Step-ShowsSourced {ip} {d} (last_refresh ends on) h = render-ShowsSourced ip d h
  Step-ShowsSourced {d = d} (track_one na rest on e) (news, entries, rendered) =
      let (now, later) = subst (All (IsSourced P R)) e news in
      (later, update-Entries P R d.namaddrs na now.0 now.1 entries, rendered)
  Step-ShowsSourced (track_end on e) h = h
  Step-ShowsSourced (report_returns ends on) h = h
