-- ===== src/Cmd/System/Verdict.antt =====
-- DigAndReport as a whole: what its last display shows.
use mobydig.Prelude.{List, Text, [], codes, has, true, ◌++◌, ◌≡◌, ◌≢◌}
use mobydig.Cmd.Report.{prepare, ready}
use mobydig.Cmd.Report.Verdicts.{IsShownLast}
use mobydig.Cmd.Report.Whole.{IsLabelOn, reported-verdict}
use mobydig.Cmd.System.{Runs, System}
use mobydig.Cmd.System.Refinement.{Runs-alone}
use mobydig.Cmd.System.Return.{Runs-ended}
use mobydig.Dig.Networks.{DockerNetwork}
use mobydig.DnsWorker.Dial.{Opened}
use mobydig.DnsWorker.Resolve.{DnsEnv, resolve_name}
use mobydig.Mobynet.{Client, ContainerJson, ok}
use mobydig.Ping.{Pinger}
use mobydig.Types.Addr.{Error}

-- Let DigAndReport go on after its start with networks that it has discovered around the center.
-- However its goroutines interleave, if it has returned, then for the name or an alias of any other
-- container on a network of the center, joined with the name of the network, and each address that it
-- resolved to, neither of them empty: the sets displayed last list the address for the name, with a
-- verdict; and the text that Render writes of these sets has a line about that name, and in it the
-- address with that verdict.
pub system-verdict :
    {fqdn : Text → Text} {env : Text → DnsEnv} {p : Pinger} {ip : Text → Text}
    {nets : List DockerNetwork} {s : System} (client_error : Error) (moby : Client)
    (open_pool : Text → Opened) (startpoint netnsref : Text) (center : ContainerJson)
    (label net a : Text)
    → prepare client_error moby open_pool startpoint ≡ ready nets netnsref
    → moby.container_inspect startpoint ≡ ok center
    → IsLabelOn moby center label net
    → Runs fqdn env p ip nets s
    → s.display.finished ≡ true
    → has a
        (resolve_name
          (env (fqdn (label ++ (codes "." ++ net))))
          (fqdn (label ++ (codes "." ++ net)))).0
      ≡ true
    → fqdn (label ++ (codes "." ++ net)) ≢ []
    → a ≢ []
    → IsShownLast ip (fqdn (label ++ (codes "." ++ net))) a s.display.rendered
system-verdict {fqdn} {env} {p} {ip} client_error moby open_pool startpoint netnsref center label
      net a prepared inspected on_net r done_all resolved hn ha =
    let (digging, verifying_run, displaying, digging_on, verifying_on) = Runs-alone r in
    let (dug_all, joined, _) = Runs-ended r done_all in
    reported-verdict digging verifying_run displaying client_error moby open_pool startpoint
      netnsref center label net a prepared inspected on_net dug_all.0 digging_on joined.0
      verifying_on done_all resolved hn ha
