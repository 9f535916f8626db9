-- ===== src/Tests/System.antt =====
-- The goroutines of DigAndReport together, on the network of the module Chain.
use mobydig.Dig.Digger
use mobydig.Verifier.Run
use mobydig.Prelude.{All, [], codes, false, has, none, refl, text_discrete, true, ◌↔◌, ◌∷◌, ◌≡◌}
use mobydig.Cmd.Report.{Displayed}
use mobydig.Cmd.Report.Verdicts.{IsShownLast}
use mobydig.Cmd.Spinner.{SpinnerState, SpinnerStep, tick, ticks}
use mobydig.Cmd.System.{Runs, System, set_out, set_up}
use mobydig.Cmd.System.Completion.{SystemLeads, system_completes}
use mobydig.Cmd.System.Exact.{IsResolved, IsSettled, last_display, system-IsSettled}
use mobydig.Cmd.System.Refinement.{Runs-alone}
use mobydig.Cmd.System.Return.{Runs-ended}
use mobydig.Cmd.System.Sequential.{Runs-sequential}
use mobydig.Cmd.System.Soundness.{IsSetFound, system-IsSetFound, verdicts}
use mobydig.Cmd.System.Spinning.{Programs, Programs-SpinnerStep, Runs-Programs, spins}
use mobydig.Cmd.System.Termination.{Ends, system-Ends}
use mobydig.Cmd.System.Verdict.{system-verdict}
use mobydig.Dig.Digger.News.{IsIdle}
use mobydig.Dig.Networks.{all_fqdns_on_attached_networks}
use mobydig.DnsWorker.Resolve.{resolve_name}
use mobydig.Tests.Chain.{
  defaults, digging, display, foo_net, net_a, plain_ip, server, verification, with_dot,
}
use mobydig.Tests.Report.{any_server, foo_on_net_a, on_net_a, pair, pair-ready}
use mobydig.Tests.Samples.{ten, text-ne}

abbrev at_end : System
at_end = record { digger = digging.last; verifier = verification.last; display = display.last }

abbrev to_end : Runs with_dot server defaults plain_ip (net_a ∷ []) at_end
to_end =
    Runs-sequential digging.reach digging.uncancelled digging.is_closed verification.reach
      verification.uncancelled verification.is_ended display.displayed

Runs-alone_example :
    Digger.DigNetworks with_dot server (net_a ∷ []) at_end.digger
    × Run.Reach defaults at_end.digger.news at_end.verifier
    × Displayed plain_ip at_end.verifier.news at_end.display
    × (at_end.digger.cancelled ≡ false)
    × (at_end.verifier.cancelled ≡ false)
Runs-alone_example = Runs-alone to_end

Runs-ended_example :
    ((at_end.digger.closed ≡ true) × IsIdle at_end.digger)
    × ((at_end.verifier.main ≡ Run.ended)
        × (at_end.verifier.input ≡ [])
        × (at_end.verifier.jobs ≡ [])
        × (at_end.verifier.court ≡ [])
        × (at_end.verifier.slurper ≡ Run.finished))
    × (at_end.display.news ≡ [])
unfolding display
Runs-ended_example = Runs-ended to_end refl

-- The end, with a spinner that has not ticked and is told to stop.
abbrev spinning_to_end :
    (sp : SpinnerState) × Programs with_dot server defaults plain_ip
      (net_a ∷ [])
      (record { system = at_end; spinner = sp })
    × (sp.ended ≡ false)
spinning_to_end = Runs-Programs to_end

-- A tick that comes after DigAndReport has returned.
Programs-SpinnerStep_example :
    (spinning_to_end.0.done ≡ true)
    × (at_end ≡ at_end)
    × SpinnerStep spinning_to_end.0 (tick spinning_to_end.0)
unfolding display
Programs-SpinnerStep_example =
    Programs-SpinnerStep spinning_to_end.1 refl (spins (ticks spinning_to_end.2))

system_completes_example :
    (t : System) × SystemLeads with_dot server defaults plain_ip (set_up (net_a ∷ [])) t
    × (t.display.finished ≡ true)
system_completes_example = system_completes set_out

system-Ends_example : Ends with_dot server defaults plain_ip (set_up (net_a ∷ []))
system-Ends_example = system-Ends with_dot server defaults plain_ip (set_up (net_a ∷ []))

system-verdict_example : IsShownLast plain_ip foo_net ten display.last.rendered
unfolding resolve_name text_discrete has display
system-verdict_example =
    system-verdict none pair any_server (codes "center") (codes "/proc/4217/ns/net")
      (on_net_a (codes "center")) (codes "foo") (codes "net_a") ten pair-ready refl foo_on_net_a
      to_end refl refl (text-ne _ _) (text-ne _ _)

system-IsSetFound_example :
    All
      (All (
        IsSetFound with_dot server (all_fqdns_on_attached_networks (net_a ∷ [])) (verdicts to_end)))
      at_end.display.rendered
system-IsSetFound_example = system-IsSetFound to_end

system-IsSettled_example :
    IsSettled (verdicts to_end) foo_net ten (last_display at_end.display.rendered)
    ↔ IsResolved with_dot server (all_fqdns_on_attached_networks (net_a ∷ [])) foo_net ten
unfolding display
system-IsSettled_example = system-IsSettled to_end refl foo_net ten
