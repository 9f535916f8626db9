-- ===== src/Cmd/Report/Last.antt =====
-- What is displayed last.
use mobydig.Prelude.{
  List, Text, [], ap, append-nil, append_assoc, false, refl, some, sym, true, ◌++◌, ◌↔◌, ◌∙◌, ◌∷◌,
  ◌≡◌, ◌≢◌,
}
use mobydig.Cmd.Report.{
  Display, DisplayStep, Displayed, last_refresh, refresh, render_data, report_returns, switched_on,
  then_step, track_end, track_one,
}
use mobydig.Cmd.Shared.{sort_shared, sort_shared-state, sort_shared-view}
use mobydig.Dig.AddrMap.{NamedAddressSet, NamedAddressesMap, get, new_named_addresses_map, update}
use mobydig.Dig.AddrMap.Abstract.{Agree, state_of, state_of-Agree, tell}
use mobydig.Dig.AddrMap.Contents.{Lists, Lists-nonempty, get-Lists}
use mobydig.Dig.AddrMap.Highest.{IsHighest, get-updates, reported}
use mobydig.Dig.AddrMap.Invariant.{IsValid, update-IsValid}
use mobydig.Dig.AddrMap.Tracking.{updates, updates-IsValid, updates-append}
use mobydig.Types.Addr.{NamedAddressValue}
use mobydig.Types.Quality.{Quality}

-- The last display is of a map with all the news.
abbrev pub ShowsAll : List NamedAddressValue → List (List NamedAddressSet) → Type 0
ShowsAll news rendered =
    (earlier : List (List NamedAddressSet)) × (m : NamedAddressesMap) × (rendered
      ≡ earlier ++ get m ∷ [])
    × IsValid m
    × Agree m (updates [] news)

record Inv (news : List NamedAddressValue) (d : Display) : Type 0 where
  taken : List NamedAddressValue
  all_news : taken ++ d.news ≡ news
  valid : IsValid d.namaddrs
  same : state_of d.namaddrs ≡ state_of (updates [] taken)
  tracked : d.tracking_done ≡ true → d.news ≡ []
  shown : d.rendering_done ≡ true → ShowsAll news d.rendered
  waited : d.finished ≡ true → d.rendering_done ≡ true

module _ {news : List NamedAddressValue} {d : Display} (ip : Text → Text) (inv : Inv news d) where
  shows_all : d.tracking_done ≡ true → ShowsAll news (render_data ip d).rendered
  unfolding render_data
  shows_all ends =
      let whole : inv.taken ≡ news =
        sym (append-nil inv.taken) ∙ ap (◌++◌ inv.taken) (sym (inv.tracked ends)) ∙ inv.all_news in
      (
        d.rendered,
        d.namaddrs,
        refl,
        inv.valid,
        (state_of-Agree d.namaddrs (updates [] news)).0
            (inv.same ∙ ap (λ xs. state_of (updates [] xs)) whole),
      )

  sorted_same : state_of (sort_shared ip d.namaddrs) ≡ state_of (updates [] inv.taken)
  sorted_same = sort_shared-state ip d.namaddrs inv.valid ∙ inv.same

  told_same :
      (na : NamedAddressValue)
      → state_of (update d.namaddrs (some na)) ≡ state_of (updates [] (inv.taken ++ na ∷ []))
  unfolding tell
  told_same na =
      ap (tell na) inv.same
      ∙ ap state_of (sym (updates-append [] inv.taken (na ∷ []) ∙ unfold updates in refl))

  track_one-Inv :
      (na : NamedAddressValue) (rest : List NamedAddressValue)
      → d.tracking_done ≡ false
      → d.news ≡ na ∷ rest
      → Inv news (record d { news = rest; namaddrs = update d.namaddrs (some na) })
  track_one-Inv na rest on e = record {
    taken = inv.taken ++ na ∷ [];
    all_news = append_assoc inv.taken (na ∷ []) rest ∙ ap (◌++◌ inv.taken) (sym e) ∙ inv.all_news;
    valid = update-IsValid d.namaddrs (some na) inv.valid;
    same = told_same na;
    tracked = λ ends. cc;
    shown = inv.shown;
    waited = inv.waited;
  }

Step-Inv :
    {ip : Text → Text} {news : List NamedAddressValue} {d e : Display}
    → DisplayStep ip d e
    → Inv news d
    → Inv news e
unfolding render_data
Step-Inv {ip} {d = d} (refresh on) inv = record {
  taken = inv.taken;
  all_news = inv.all_news;
  valid = (sort_shared-view ip d.namaddrs inv.valid).0;
  same = sorted_same ip inv;
  tracked = inv.tracked;
  shown = λ ends. cc;
  waited = inv.waited;
}
Step-Inv {ip} {d = d} (last_refresh ends on) inv = record {
  taken = inv.taken;
  all_news = inv.all_news;
  valid = (sort_shared-view ip d.namaddrs inv.valid).0;
  same = sorted_same ip inv;
  tracked = inv.tracked;
  shown = λ _. shows_all ip inv ends;
  waited = λ _. refl;
}
Step-Inv {ip} (track_one na rest on e) inv = track_one-Inv ip inv na rest on e
Step-Inv (track_end on e) inv = record {
  taken = inv.taken;
  all_news = inv.all_news;
  valid = inv.valid;
  same = inv.same;
  tracked = λ _. e;
  shown = inv.shown;
  waited = inv.waited;
}
Step-Inv (report_returns ends on) inv = record {
  taken = inv.taken;
  all_news = inv.all_news;
  valid = inv.valid;
  same = inv.same;
  tracked = inv.tracked;
  shown = inv.shown;
  waited = λ _. ends;
}

Displayed-Inv :
    {ip : Text → Text} {news : List NamedAddressValue} {d : Display}
    → Displayed ip news d
    → Inv news d
unfolding new_named_addresses_map
Displayed-Inv switched_on = record {
  taken = [];
  all_news = refl;
  valid = record { names = tt; entries = tt };
  same = unfold updates in refl;
  tracked = λ ends. cc;
  shown = λ ends. cc;
  waited = λ ends. cc;
}
Displayed-Inv (then_step r st) = Step-Inv st (Displayed-Inv r)

-- When DigAndReport has returned, the last display has shown all the news.
pub Displayed-ShowsAll :
    {ip : Text → Text} {news : List NamedAddressValue} {d : Display}
    → Displayed ip news d
    → d.finished ≡ true
    → ShowsAll news d.rendered
Displayed-ShowsAll r shut = let inv = Displayed-Inv r in inv.shown (inv.waited shut)

-- The last display lists, for each name, each address with the highest quality of its news.
abbrev pub ShowsHighest : List NamedAddressValue → List (List NamedAddressSet) → Type 0
ShowsHighest news rendered =
    (earlier : List (List NamedAddressSet)) × (sets : List NamedAddressSet) × (rendered
      ≡ earlier ++ sets ∷ [])
    × ((n a : Text) (q : Quality)
        → Lists n a q sets ↔ ((n ≢ []) × (a ≢ []) × IsHighest q (reported n a news)))

-- A map that agrees with the one after all the news lists what that one lists.
Agree-Lists :
    (news : List NamedAddressValue) (m : NamedAddressesMap)
    → IsValid m
    → Agree m (updates [] news)
    → (n a : Text) (q : Quality)
    → Lists n a q (get m) ↔ ((n ≢ []) × (a ≢ []) × IsHighest q (reported n a news))
unfolding new_named_addresses_map
Agree-Lists news m valid agree n a q =
    let listed = get-Lists n a q m valid in
    let whole =
      get-Lists n a q (updates [] news)
        (updates-IsValid [] news (record { names = tt; entries = tt })) in
    let told = get-updates news n a q in
    (
      λ h.
          let (hn, ha) = Lists-nonempty n a q m valid.entries h in
          told.0 (whole.1 (sym (agree n a hn ha) ∙ listed.0 h)),
      λ (hn, ha, h). listed.1 (agree n a hn ha ∙ whole.0 (told.1 (hn, ha, h))),
    )

-- When DigAndReport has returned after its start, the sets displayed last list an address with a
-- quality for a name exactly if neither name nor address is empty, and the quality is the highest of
-- those that the news of the Verifier report for this name and this address, in the order of the
-- constants, though each display sorts slices of the map.
pub Displayed-ShowsHighest :
    {ip : Text → Text} {news : List NamedAddressValue} {d : Display}
    → Displayed ip news d
    → d.finished ≡ true
    → ShowsHighest news d.rendered
Displayed-ShowsHighest {news = news} r shut =
    let (earlier, m, e, valid, agree) = Displayed-ShowsAll r shut in
    (earlier, get m, e, Agree-Lists news m valid agree)
