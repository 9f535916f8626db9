-- ===== src/Cmd/System/Return.antt =====
-- What has ended when DigAndReport returns.
use mobydig.Verifier.Run
use mobydig.Prelude.{
  All, All-append, List, Text, [], ap, append-ne-nil, inl, inr, refl, true, ◌++◌, ◌∷◌, ◌≡◌,
}
use mobydig.Cmd.Report.{
  Display, DisplayStep, Displayed, last_refresh, refresh, render_data, report_returns, switched_on,
  then_step, track_end, track_one,
}
use mobydig.Cmd.System.{Runs, System, SystemStep, digs, displays, to_verifier, verifies}
use mobydig.Cmd.System.Closing.{digger_stuck, verifier_stuck}
use mobydig.Cmd.System.Refinement.{Parts-Phases, Runs-Parts, whole_DisplayPart, whole_VerifierPart}
use mobydig.Dig.Digger.{announcement}
use mobydig.Dig.Digger.News.{IsIdle, Reach-closed-IsIdle}
use mobydig.Dig.Digger.Pending.{Reach-IsUnverified}
use mobydig.Dig.Networks.{DockerNetwork}
use mobydig.DnsWorker.Resolve.{DnsEnv}
use mobydig.Ping.{Pinger}
use mobydig.Pipeline.{IsUnverified-IsPending}
use mobydig.Types.Addr.{NamedAddressValue}
use mobydig.Verifier.Run.Invariant.{IsPending}
use mobydig.Verifier.Run.Phases.{Phases, is_after_loop}
use mobydig.Verifier.Run.Results.{Reach-Phases, Reach-joined}

-- The display winds down in this order.
record Order (d : Display) : Type 0 where
  all_received : d.tracking_done ≡ true → d.news ≡ []
  all_tracked : d.rendering_done ≡ true → d.tracking_done ≡ true
  all_rendered : d.finished ≡ true → d.rendering_done ≡ true

Step-Order : {ip : Text → Text} {d e : Display} → DisplayStep ip d e → Order d → Order e
unfolding render_data
Step-Order (refresh on) h = record {
  all_received = h.all_received;
  all_tracked = h.all_tracked;
  all_rendered = h.all_rendered;
}
Step-Order (last_refresh ends on) h = record {
  all_received = h.all_received;
  all_tracked = λ _. ends;
  all_rendered = λ _. refl;
}
Step-Order (track_one na rest on e) h = record {
  all_received = λ ends. cc;
  all_tracked = h.all_tracked;
  all_rendered = h.all_rendered;
}
Step-Order (track_end on e) h = record {
  all_received = λ _. e;
  all_tracked = λ _. refl;
  all_rendered = h.all_rendered;
}
Step-Order (report_returns ends on) h = record {
  all_received = h.all_received;
  all_tracked = h.all_tracked;
  all_rendered = λ _. ends;
}

Displayed-Order :
    {ip : Text → Text} {news : List NamedAddressValue} {d : Display} → Displayed ip news d → Order d
Displayed-Order switched_on = record {
  all_received = λ h. cc;
  all_tracked = λ h. cc;
  all_rendered = λ h. cc;
}
Displayed-Order (then_step r st) = Step-Order st (Displayed-Order r)

display_stuck :
    {ip : Text → Text} {d e : Display} → DisplayStep ip d e → Order d → d.finished ≡ true → ⊥
display_stuck (refresh on) h over_all = cc (h.all_rendered over_all, on)
display_stuck (last_refresh ends on) h over_all = cc (h.all_rendered over_all, on)
display_stuck (track_one na rest on e) h over_all = cc (h.all_tracked (h.all_rendered over_all), on)
display_stuck (track_end on e) h over_all = cc (h.all_tracked (h.all_rendered over_all), on)
display_stuck (report_returns ends on) h over_all = cc (over_all, on)

module _ {fqdn : Text → Text} {env : Text → DnsEnv} {p : Pinger} {ip : Text → Text}
    {nets : List DockerNetwork} {s : System} (r : Runs fqdn env p ip nets s) where
  -- A Verifier that has not found its input closed would have had to take one more message.
  ended-closed : s.verifier.main ≡ Run.ended → s.digger.closed ≡ true
  unfolding announcement
  ended-closed m =
      let parts = Runs-Parts r in
      elim parts.verifying_part [
        | inr (shut, _) ↦ shut
        | inl h ↦
            let one_more = announcement [] ∷ [] in
            let pending : All IsPending (s.digger.news ++ one_more) =
              All-append IsPending s.digger.news one_more
                (IsUnverified-IsPending _ (Reach-IsUnverified parts.digging)) (refl, tt) in
            let phases : Phases (to_verifier one_more s.verifier) =
              Reach-Phases pending (h one_more) parts.verifying_on in
            absurd (
              append-ne-nil s.verifier.input (announcement []) []
                (phases.input_taken (ap is_after_loop m)))
      ]

  -- When DigAndReport has returned, the Digger has closed its channel with no name, task or callback
  -- left; `Verify` has returned, with all its input taken, all jobs of the Pinger ended and all its
  -- messages passed on, by a goroutine that has ended too; and all that `Verify` has sent has been
  -- tracked.
  pub Runs-ended :
      s.display.finished ≡ true
      → ((s.digger.closed ≡ true) × IsIdle s.digger)
        × ((s.verifier.main ≡ Run.ended)
            × (s.verifier.input ≡ [])
            × (s.verifier.jobs ≡ [])
            × (s.verifier.court ≡ [])
            × (s.verifier.slurper ≡ Run.finished))
        × (s.display.news ≡ [])
  Runs-ended done_all =
      let parts = Runs-Parts r in
      let order = Displayed-Order (whole_DisplayPart s parts.display_part) in
      let tracked = order.all_tracked (order.all_rendered done_all) in
      let over_run = parts.tracked tracked in
      let shut = ended-closed over_run in
      let (taken, jobs, court, slurper) =
        Reach-joined (IsUnverified-IsPending _ (Reach-IsUnverified parts.digging))
          (whole_VerifierPart s parts.verifying_part) parts.verifying_on over_run in
      (
        (shut, Reach-closed-IsIdle parts.digging shut),
        (over_run, taken, jobs, court, slurper),
        order.all_received tracked,
      )

  pub Runs-rendering_done : s.display.finished ≡ true → s.display.rendering_done ≡ true
  Runs-rendering_done =
      (Displayed-Order (whole_DisplayPart s (Runs-Parts r).display_part)).all_rendered

  -- When DigAndReport has returned, no goroutine of the Digger, of Verify and its Pinger, of tracking
  -- or of rendering can take another step.
  pub Runs-stuck : {t : System} → s.display.finished ≡ true → ¬ SystemStep fqdn env p ip s t
  Runs-stuck done_all (digs more st on e) =
      let ((shut, idle), _, _) = Runs-ended done_all in digger_stuck st on idle shut
  Runs-stuck done_all (verifies more st on e closing) =
      let (_, joined, _) = Runs-ended done_all in
      verifier_stuck st on (Parts-Phases (Runs-Parts r)) joined.0
  Runs-stuck done_all (displays st closing) =
      display_stuck st (Displayed-Order (whole_DisplayPart s (Runs-Parts r).display_part)) done_all
