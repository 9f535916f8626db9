-- ===== src/Cmd/System/Sequential.antt =====
-- Runs of the goroutines one after the other, each on all that the one before it has sent.
use mobydig.Dig.Digger
use mobydig.Verifier.Run
use mobydig.Prelude.{List, Text, [], false, subst, sym, true, ◌≡◌}
use mobydig.Cmd.Report.{Display, Displayed, blank, switched_on, then_step}
use mobydig.Cmd.System.{Runs, digs, displays, goes_on, set_out, verifies}
use mobydig.Cmd.System.Sends.{digger_sends, verifier_sends}
use mobydig.Dig.Digger.News.{Step-uncancelled}
use mobydig.Dig.Networks.{DockerNetwork, all_fqdns_on_attached_networks}
use mobydig.DnsWorker.Resolve.{DnsEnv}
use mobydig.Ping.{Pinger}
use mobydig.Verifier.Run.Results.{Step-cancelled}

module _ {fqdn : Text → Text} {env : Text → DnsEnv} {p : Pinger} {ip : Text → Text}
    {nets : List DockerNetwork} where
  -- The Digger alone.
  Runs-digger :
      {d : Digger.State}
      → Digger.Reach fqdn env (all_fqdns_on_attached_networks nets) d
      → d.cancelled ≡ false
      → Runs fqdn env p ip nets
          (record { digger = d; verifier = Run.init d.news; display = blank [] })
  Runs-digger Digger.start on = set_out
  Runs-digger {d} (Digger.next {s} r st) on =
      let (more, e) = digger_sends st in
      subst
        (λ news.
          Runs fqdn env p ip nets
            (record { digger = d; verifier = Run.init news; display = blank [] }))
        (sym e) (goes_on (Runs-digger r (Step-uncancelled st on)) (digs more st on e))

  -- The Verifier after it.
  Runs-verifier :
      {d : Digger.State} {v : Run.State}
      → Digger.Reach fqdn env (all_fqdns_on_attached_networks nets) d
      → d.cancelled ≡ false
      → d.closed ≡ true
      → Run.Reach p d.news v
      → v.cancelled ≡ false
      → Runs fqdn env p ip nets (record { digger = d; verifier = v; display = blank v.news })
  Runs-verifier digging on shut Run.start _ = Runs-digger digging on
  Runs-verifier {d} {v} digging on shut (Run.next {s} r st) verifying_on =
      let (more, e) = verifier_sends st in
      subst
        (λ news.
          Runs fqdn env p ip nets (record { digger = d; verifier = v; display = blank news }))
        (sym e)
        (goes_on (Runs-verifier digging on shut r (Step-cancelled st verifying_on))
          (verifies more st verifying_on e (λ _. shut)))

  -- Let the Digger, not cancelled, have closed its channel, `Verify`, not cancelled, have run to its
  -- end on all that was sent, and the display have got anywhere on all that `Verify` has sent. Then
  -- the goroutines of DigAndReport can be in these three states at once.
  pub Runs-sequential :
      {d : Digger.State} {v : Run.State} {e : Display}
      → Digger.Reach fqdn env (all_fqdns_on_attached_networks nets) d
      → d.cancelled ≡ false
      → d.closed ≡ true
      → Run.Reach p d.news v
      → v.cancelled ≡ false
      → v.main ≡ Run.ended
      → Displayed ip v.news e
      → Runs fqdn env p ip nets (record { digger = d; verifier = v; display = e })
  Runs-sequential digging on shut run_of verifying_on over_run switched_on =
      Runs-verifier digging on shut run_of verifying_on
  Runs-sequential digging on shut run_of verifying_on over_run (then_step r st) =
      goes_on (Runs-sequential digging on shut run_of verifying_on over_run r)
        (displays st (λ _. over_run))
