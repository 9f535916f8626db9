-- ===== src/Cmd/Report/Verdicts.antt =====
-- The whole way from the networks to the display.
use mobydig.Dig.Digger
use mobydig.Verifier.Run
use mobydig.Prelude.{
  List, Text, [], arith, false, has, has-append, map, text_discrete, true, ◌++◌, ◌∙◌, ◌∷◌, ◌≡◌, ◌≢◌,
}
use mobydig.Cmd.Groups.{group_names}
use mobydig.Cmd.Render.{Renderer, Styles, longest_of, render}
use mobydig.Cmd.Render.Found.{Shown, render-Shown}
use mobydig.Cmd.Report.{Display, Displayed}
use mobydig.Cmd.Report.Last.{Displayed-ShowsAll}
use mobydig.Dig.AddrMap.{NamedAddressSet, get}
use mobydig.Dig.AddrMap.Contents.{Lists, get-Lists}
use mobydig.Dig.Networks.{
  DockerNetwork, all_fqdns_lem, all_fqdns_on_attached_networks, dotted, dotted_names,
}
use mobydig.DnsWorker.Resolve.{DnsEnv, resolve_name}
use mobydig.Ping.{Pinger}
use mobydig.Pipeline.{dug-verdict}
use mobydig.Types.Quality.{Quality, is_verdict}

-- What Render writes of the sets has a line about the name, and in it the address with the quality.
abbrev pub IsWritten :
    (Text → Text) → (name address : Text) → Quality → List NamedAddressSet → Type 0
IsWritten ip name address q sets =
    (r : Renderer) (st : Styles)
    → Shown r st (longest_of (group_names ip sets) 0) name address q (render ip r st sets)

-- The sets displayed last list the address for the name with a verdict, and Render writes it.
abbrev pub IsShownLast :
    (Text → Text) → (name address : Text) → List (List NamedAddressSet) → Type 0
IsShownLast ip name address rendered =
    (earlier : List (List NamedAddressSet)) × (sets : List NamedAddressSet) × (rendered
      ≡ earlier ++ sets ∷ [])
    × ((q : Quality) × (is_verdict q ≡ true)
        × Lists name address q sets
        × IsWritten ip name address q sets)

has-map-dotted :
    (label : Text) (net : DockerNetwork) (labels : List Text)
    → has label labels ≡ true
    → has (dotted label net) (map (λ l. dotted l net) labels) ≡ true
unfolding has
has-map-dotted label net [] h = cc
has-map-dotted label net (l ∷ labels) h = elim (text_discrete l label) [
  | yes e ↦ rw e (ground arith)
  | no ne ↦ ground (arith, has-map-dotted label net labels, h, ne)
]

-- A label is dug with the name of its network.
has-dotted_names :
    (label : Text) (before : List DockerNetwork) (net : DockerNetwork) (after : List DockerNetwork)
    → has label net.labels ≡ true
    → has (dotted label net) (dotted_names (before ++ net ∷ after)) ≡ true
unfolding dotted_names
has-dotted_names label [] net after h = ground (
  arith,
  has-append (dotted label net) (map (λ l. dotted l net) net.labels) (dotted_names after),
  has-map-dotted label net net.labels h,
)
has-dotted_names label (other_net ∷ before) net after h = ground (
  arith,
  has-append (dotted label net) (map (λ l. dotted l other_net) other_net.labels)
      (dotted_names (before ++ net ∷ after)),
  has-dotted_names label before net after h,
)

has-all_fqdns :
    (label : Text) (before : List DockerNetwork) (net : DockerNetwork) (after : List DockerNetwork)
    → has label net.labels ≡ true
    → has (dotted label net) (all_fqdns_on_attached_networks (before ++ net ∷ after)) ≡ true
has-all_fqdns label before net after h =
    let (flat, e, distinct, members) = all_fqdns_lem (before ++ net ∷ after) in
    rw (e, has-append (dotted label net) (dotted_names (before ++ net ∷ after)) flat)
      (ground (arith, has-dotted_names label before net after h))

module _ {fqdn : Text → Text} {env : Text → DnsEnv} {p : Pinger} {ip : Text → Text}
    (before : List DockerNetwork) (net : DockerNetwork) (after : List DockerNetwork)
    {digger : Digger.State} {verifier : Run.State} {d : Display}
    (digging : Digger.Reach fqdn env
      (all_fqdns_on_attached_networks (before ++ net ∷ after))
      digger)
    (verifying_run : Run.Reach p digger.news verifier)
    (displaying : Displayed ip verifier.news d) where
  -- The addresses of a label of one of the networks, with the name of the network.
  pub displayed-verdict :
      (label a : Text)
      → digger.closed ≡ true
      → digger.cancelled ≡ false
      → verifier.main ≡ Run.ended
      → verifier.cancelled ≡ false
      → d.finished ≡ true
      → has label net.labels ≡ true
      → has a (resolve_name (env (fqdn (dotted label net))) (fqdn (dotted label net))).0 ≡ true
      → fqdn (dotted label net) ≢ []
      → a ≢ []
      → IsShownLast ip (fqdn (dotted label net)) a d.rendered
  displayed-verdict label a shut digging_on over_run verifying_on done_all on_net resolved hn ha =
      let name = fqdn (dotted label net) in
      let (earlier, m, e, valid, agree) = Displayed-ShowsAll displaying done_all in
      let (q, final, told) =
        dug-verdict digging verifying_run (dotted label net) a shut digging_on over_run verifying_on
          (has-all_fqdns label before net after on_net) resolved hn ha in
      let listed = (get-Lists name a q m valid).1 (agree name a hn ha ∙ told) in
      (earlier, get m, e, (q, final, listed, λ r st. render-Shown ip r st (get m) name a q listed))
