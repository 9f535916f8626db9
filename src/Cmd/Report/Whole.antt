-- ===== src/Cmd/Report/Whole.antt =====
-- DigAndReport from the Docker client's answers to the display.
use mobydig.Dig.Digger
use mobydig.Verifier.Run
use mobydig.Prelude.{
  Any, List, Text, [], ap, codes, false, has, inl, inr, refl, subst, true, ◌++◌, ◌∙◌, ◌∷◌, ◌≡◌, ◌≢◌,
}
use mobydig.Cmd.Report.{Display, Displayed, prepare, ready}
use mobydig.Cmd.Report.Start.{IsPrepared, prepare-IsPrepared}
use mobydig.Cmd.Report.Verdicts.{IsShownLast, displayed-verdict}
use mobydig.Dig.Networks.{DockerNetwork, all_fqdns_on_attached_networks}
use mobydig.DnsWorker.Dial.{Opened}
use mobydig.DnsWorker.Resolve.{DnsEnv, resolve_name}
use mobydig.Mobynet.{Client, ContainerJson, Endpoint, ok, trim_slash}
use mobydig.Mobynet.Labels.{names_on}
use mobydig.Mobynet.Outcome.{
  Attached, IsDiscovered, discover-IsDiscovered, found_empty, found_network, found_none,
}
use mobydig.Ping.{Pinger}
use mobydig.Types.Addr.{Error}
use mobydig.Verifier.Run.Once.{seen}

-- The label is the name or an alias of another container on a network of the center.
abbrev pub IsLabelOn : Client → ContainerJson → (label net : Text) → Type 0
IsLabelOn moby center label net =
    Any
      (λ n.
        (n.0 ≡ net)
        × ((cntrs : List Text) × (moby.network_inspect (n.1).network_id ≡ ok cntrs)
            × (has label (names_on moby (trim_slash center.name) net cntrs) ≡ true)))
      center.networks

-- The network is in the list, with the label.
abbrev IsIn : (label net : Text) → List DockerNetwork → Type 0
IsIn label net nets =
    (before : List DockerNetwork) × (labels : List Text) × (after : List DockerNetwork) × (nets
      ≡ before ++ record { label = net; labels = labels } ∷ after)
    × (has label labels ≡ true)

IsIn-cons :
    (label net : Text) (k : DockerNetwork) (nets : List DockerNetwork)
    → IsIn label net nets
    → IsIn label net (k ∷ nets)
IsIn-cons label net k nets (before, labels, after, e, h) =
    (k ∷ before, labels, after, ap (◌∷◌ k) e, h)

Attached-IsIn :
    (moby : Client) (own label net : Text) {networks : List (Text × Endpoint)}
    {nets : List DockerNetwork}
    → Attached moby own networks nets
    → Any
        (λ n.
          (n.0 ≡ net)
          × ((cntrs : List Text) × (moby.network_inspect (n.1).network_id ≡ ok cntrs)
              × (has label (names_on moby own net cntrs) ≡ true)))
        networks
    → IsIn label net nets
unfolding names_on has
Attached-IsIn moby own label net found_none h = absurd h
Attached-IsIn moby own label net (found_empty e r) (inl (same, (cntrs, f, g))) =
    let unlisted : has label (names_on moby own net []) ≡ true = cc (e, f, g) in cc (unlisted)
Attached-IsIn moby own label net (found_empty e r) (inr h) = Attached-IsIn moby own label net r h
Attached-IsIn moby own label net
      (found_network {ep = ep} {nets = nets} {cntrs} {labels} e ne d all r)
      (inl (same, (cntrs', f, g))) =
    let listed : has label (names_on moby own _ cntrs) ≡ true = cc (same, e, f, g) in
    ([], labels, nets, rw same refl, all label ∙ listed)
Attached-IsIn moby own label net (found_network {nets = nets} e ne d all r) (inr h) =
    IsIn-cons label net _ nets (Attached-IsIn moby own label net r h)

-- What DigAndReport has discovered when it goes on after its start.
prepared-Attached :
    (client_error : Error) (moby : Client) (open_pool : Text → Opened) (startpoint : Text)
    (nets : List DockerNetwork) (netnsref : Text) (center : ContainerJson)
    → prepare client_error moby open_pool startpoint ≡ ready nets netnsref
    → moby.container_inspect startpoint ≡ ok center
    → Attached moby (trim_slash center.name) center.networks nets
prepared-Attached client_error moby open_pool startpoint nets netnsref center h seen =
    let prepared =
      subst (IsPrepared client_error moby open_pool startpoint) h
        (prepare-IsPrepared client_error moby open_pool startpoint) in
    let (center', seen', pid, path, attached) =
      subst (IsDiscovered moby startpoint) prepared.1 (discover-IsDiscovered moby startpoint) in
    let same : center' ≡ center = cc (seen, seen') in
    subst (λ c. Attached moby (trim_slash c.name) c.networks nets) same attached

module _ {fqdn : Text → Text} {env : Text → DnsEnv} {p : Pinger} {ip : Text → Text}
    {digger : Digger.State} {verifier : Run.State} {d : Display} {nets : List DockerNetwork}
    (digging : Digger.Reach fqdn env (all_fqdns_on_attached_networks nets) digger)
    (verifying_run : Run.Reach p digger.news verifier)
    (displaying : Displayed ip verifier.news d) where
  -- Let DigAndReport go on after its start with networks that it has discovered around the center,
  -- and return, and let the digger and `Verify` run to their ends, neither of them cancelled. Then
  -- for the name or an alias of any other container on a network of the center, joined with the name
  -- of the network, and each address that it resolved to, neither of them empty: the sets displayed
  -- last list the address for the name, with a verdict; and the text that Render writes of these
  -- sets has a line about that name, and in it the address with that verdict.
  pub reported-verdict :
      (client_error : Error) (moby : Client) (open_pool : Text → Opened)
      (startpoint netnsref : Text) (center : ContainerJson) (label net a : Text)
      → prepare client_error moby open_pool startpoint ≡ ready nets netnsref
      → moby.container_inspect startpoint ≡ ok center
      → IsLabelOn moby center label net
      → digger.closed ≡ true
      → digger.cancelled ≡ false
      → verifier.main ≡ Run.ended
      → verifier.cancelled ≡ false
      → d.finished ≡ true
      → has a
          (resolve_name
            (env (fqdn (label ++ (codes "." ++ net))))
            (fqdn (label ++ (codes "." ++ net)))).0
        ≡ true
      → fqdn (label ++ (codes "." ++ net)) ≢ []
      → a ≢ []
      → IsShownLast ip (fqdn (label ++ (codes "." ++ net))) a d.rendered
  reported-verdict client_error moby open_pool startpoint netnsref center label net a h seen on_net
        shut digging_on over_run verifying_on done_all resolved hn ha =
      let (before, labels, after, e, listed) =
        Attached-IsIn moby (trim_slash center.name) label net
          (prepared-Attached client_error moby open_pool startpoint nets netnsref center h seen)
          on_net in
      displayed-verdict before (record { label = net; labels = labels }) after
        (subst (λ ns. Digger.Reach fqdn env (all_fqdns_on_attached_networks ns) digger) e digging)
        verifying_run displaying label a shut digging_on over_run verifying_on done_all listed
        resolved hn ha
