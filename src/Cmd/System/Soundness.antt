-- ===== src/Cmd/System/Soundness.antt =====
-- DigAndReport as a whole: what its displays show has been found.
use mobydig.Dig.Digger
use mobydig.Verifier.Run.Sources
use mobydig.Prelude.{
  All, All-append, All-map, All-split, All-zip, List, Text, [], false, has, inl, inr, subst, true,
  ◌++◌, ◌≡◌,
}
use mobydig.Cmd.Report.Sources.{ShowsSourced, Step-ShowsSourced}
use mobydig.Cmd.System.{Runs, System, SystemStep, digs, displays, goes_on, set_out, verifies}
use mobydig.Cmd.System.Refinement.{Runs-alone}
use mobydig.Dig.AddrMap.{NamedAddressSet, new_named_addresses_map}
use mobydig.Dig.AddrMap.Sources.{IsSetOf}
use mobydig.Dig.Digger.Pending.{Reach-IsUnverified}
use mobydig.Dig.Digger.Sources.{IsFound, IsName, Reach-IsFound}
use mobydig.Dig.Networks.{DockerNetwork, all_fqdns_on_attached_networks}
use mobydig.DnsWorker.Resolve.{DnsEnv, resolve_name}
use mobydig.Ping.{Pinger}
use mobydig.Pipeline.{IsUnverified-IsPending}
use mobydig.Types.Quality.{Quality, is_verdict}
use mobydig.Verifier.AddrCache.Sources.{IsSourced}
use mobydig.Verifier.Run.Invariant.{IsPending}
use mobydig.Verifier.Run.Sources.{Sources, Step-Sources, judged}
use mobydig.Verifier.Run.Told.{All-IsJudged, IsJudged}

-- The verdicts that the jobs of a run have come to, the last first.
abbrev pub judged_by :
    {fqdn : Text → Text} {env : Text → DnsEnv} {p : Pinger} {ip : Text → Text} {s t : System}
    → SystemStep fqdn env p ip s t
    → List (Text × Quality)
judged_by (verifies more st on e closing) = judged st
judged_by _ = []

abbrev pub verdicts :
    {fqdn : Text → Text} {env : Text → DnsEnv} {p : Pinger} {ip : Text → Text}
    {nets : List DockerNetwork} {s : System}
    → Runs fqdn env p ip nets s
    → List (Text × Quality)
verdicts set_out = []
verdicts (goes_on r st) = judged_by st ++ verdicts r

-- The set is about one of the names, completed by dns.Fqdn. Its addresses are some that the name
-- resolves to, and a verdict on one of them is in the list.
abbrev pub IsSetFound :
    (Text → Text)
    → (Text → DnsEnv)
    → (names : List Text) → (js : List (Text × Quality)) → NamedAddressSet
    → Type 0
IsSetFound fqdn env names js set =
    IsName fqdn env names set.fqdn
    × All
        (λ v.
          (has v.address (resolve_name (env set.fqdn) set.fqdn).0 ≡ true)
          × IsJudged js v.address v.quality)
        set.addresses

set_found :
    (fqdn : Text → Text) (env : Text → DnsEnv) (names : List Text) (js : List (Text × Quality))
    (set : NamedAddressSet)
    → IsSetOf (IsFound fqdn env names) (IsJudged js) set
    → IsSetFound fqdn env names js set
set_found fqdn env names js set ((a, (is_name, _)), all) = (
  is_name,
  All-map
      (λ v (at_name, ne, judgement).
        (elim at_name.1 [ inl e ↦ absurd (ne e) | inr h ↦ h ], judgement))
      set.addresses all,
)

module _ (fqdn : Text → Text) (env : Text → DnsEnv) (nets : List DockerNetwork)
    (R : Text → Quality → Type 0)
    (unjudged : (a : Text) (q : Quality) → is_verdict q ≡ false → R a q) where
  abbrev P : Text → Text → Type 0
  P = IsFound fqdn env (all_fqdns_on_attached_networks nets)

  abbrev IsSound : System → Type 0
  IsSound s = Sources.Sources P R s.verifier × ShowsSourced P R s.display

  -- What a digger has sent.
  dug-IsSourced :
      {d : Digger.State}
      → Digger.Reach fqdn env (all_fqdns_on_attached_networks nets) d
      → All (IsSourced P R) d.news
  dug-IsSourced {d} digging =
      All-zip (λ na. P na.fqdn na.address) IsPending (IsSourced P R)
        (λ na at_name pending. (at_name, unjudged na.address na.quality pending)) d.news
        (Reach-IsFound fqdn env (all_fqdns_on_attached_networks nets) digging)
        (IsUnverified-IsPending _ (Reach-IsUnverified digging))

  Step-IsSound :
      {p : Pinger} {ip : Text → Text} {s t : System} (st : SystemStep fqdn env p ip s t)
      → Digger.Reach fqdn env (all_fqdns_on_attached_networks nets) s.digger
      → All (λ (j : Text × Quality). R j.0 j.1) (judged_by st)
      → IsSound s
      → IsSound t
  Step-IsSound {s = s} (digs {d} more st on e) digging known (sources, displayed) =
      let (_, fresh_news) =
        All-split (IsSourced P R) s.digger.news more
          (subst (All (IsSourced P R)) e (dug-IsSourced (Digger.next digging st))) in
      let all_input = All-append (IsSourced P R) s.verifier.input more sources.0 fresh_news in
      ((all_input, sources.1, sources.2, sources.3, sources.4, sources.5), displayed)
  Step-IsSound {s = s} (verifies {v} more st on e closing) digging known (sources, displayed) =
      let after = Step-Sources P R st unjudged known sources in
      let (_, fresh_news) =
        All-split (IsSourced P R) s.verifier.news more (subst (All (IsSourced P R)) e after.2) in
      let all_news = All-append (IsSourced P R) s.display.news more displayed.0 fresh_news in
      (after, (all_news, displayed.1, displayed.2))
  Step-IsSound (displays st closing) digging known (sources, displayed) =
      (sources, Step-ShowsSourced P R st displayed)

  Runs-IsSound :
      {p : Pinger} {ip : Text → Text} {s : System} (r : Runs fqdn env p ip nets s)
      → All (λ (j : Text × Quality). R j.0 j.1) (verdicts r)
      → IsSound s
  unfolding new_named_addresses_map
  Runs-IsSound set_out known = ((tt, tt, tt, tt, tt, tt), (tt, tt, tt))
  Runs-IsSound (goes_on r st) known =
      let (now, before) = All-split _ (judged_by st) (verdicts r) known in
      Step-IsSound st (Runs-alone r).0 now (Runs-IsSound r before)

-- However the goroutines of DigAndReport interleave, and whether it has returned or not: each set of
-- each display is about a name that AllFQDNsOnAttachedNetworks makes of the networks, completed by
-- dns.Fqdn, and lists no address but such as the name resolves to, and with a verdict only if a job
-- of the Pinger has come to that verdict on the address.
pub system-IsSetFound :
    {fqdn : Text → Text} {env : Text → DnsEnv} {p : Pinger} {ip : Text → Text}
    {nets : List DockerNetwork} {s : System} (r : Runs fqdn env p ip nets s)
    → All
        (All (IsSetFound fqdn env (all_fqdns_on_attached_networks nets) (verdicts r)))
        s.display.rendered
system-IsSetFound {fqdn} {env} {nets = nets} {s = s} r =
    let (_, displayed) =
      Runs-IsSound fqdn env nets (IsJudged (verdicts r)) (λ a q h. inl h) r
        (All-map (λ j h. inr h) (verdicts r) (All-IsJudged (verdicts r))) in
    All-map
      (λ sets. All-map (set_found fqdn env (all_fqdns_on_attached_networks nets) (verdicts r)) sets)
      s.display.rendered displayed.2
