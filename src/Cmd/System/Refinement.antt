-- ===== src/Cmd/System/Refinement.antt =====
-- The goroutines together do what each does by itself on all that the one before it sends.
use mobydig.Dig.Digger
use mobydig.Verifier.Run
use mobydig.Prelude.{
  Bool-cases, List, Text, [], append-nil, append_assoc, false, inl, inr, refl, true, ◌++◌, ◌≡◌, ◌≢◌,
  ◌⊎◌,
}
use mobydig.Cmd.Command.{main}
use mobydig.Cmd.Report.{
  Display, DisplayStep, Displayed, last_refresh, refresh, render_data, report_returns, switched_on,
  then_step, track_end, track_one,
}
use mobydig.Cmd.System.{
  Runs, System, SystemStep, digs, displays, ends_input, ends_news, goes_on, set_out, set_up,
  to_display, to_verifier, verifies,
}
use mobydig.Cmd.System.Channels.{Step-to_display, Step-to_verifier}
use mobydig.Cmd.System.Closing.{digger_stuck, verifier_stuck}
use mobydig.Dig.Digger.News.{Reach-closed-IsIdle}
use mobydig.Dig.Digger.Pending.{Reach-IsUnverified}
use mobydig.Dig.Networks.{DockerNetwork, all_fqdns_on_attached_networks}
use mobydig.DnsWorker.Resolve.{DnsEnv}
use mobydig.Ping.{Pinger}
use mobydig.Pipeline.{IsUnverified-IsPending}
use mobydig.Types.Addr.{NamedAddressValue}
use mobydig.Verifier.Run.Phases.{Phases}
use mobydig.Verifier.Run.Results.{Reach-Phases}

-- Whatever is sent later, or the channel is closed.
abbrev pub VerifierPart : Pinger → System → Type 0
VerifierPart p s =
    ((more : List NamedAddressValue)
      → Run.Reach p (s.digger.news ++ more) (to_verifier more s.verifier))
    ⊎ ((s.digger.closed ≡ true) × Run.Reach p s.digger.news s.verifier)

abbrev pub DisplayPart : (Text → Text) → System → Type 0
DisplayPart ip s =
    ((more : List NamedAddressValue)
      → Displayed ip (s.verifier.news ++ more) (to_display more s.display))
    ⊎ ((s.verifier.main ≡ Run.ended) × Displayed ip s.verifier.news s.display)

pub record Parts (fqdn : Text → Text) (env : Text → DnsEnv) (p : Pinger) (ip : Text → Text)
    (nets : List DockerNetwork) (s : System) : Type 0 where
  pub digging : Digger.Reach fqdn env (all_fqdns_on_attached_networks nets) s.digger
  pub digging_on : s.digger.cancelled ≡ false
  pub verifying_part : VerifierPart p s
  pub verifying_on : s.verifier.cancelled ≡ false
  pub display_part : DisplayPart ip s
  pub tracked : s.display.tracking_done ≡ true → s.verifier.main ≡ Run.ended

module _ {p : Pinger} where
  -- What the Digger sends.
  digs-VerifierPart :
      (s : System) (d : Digger.State) (more : List NamedAddressValue)
      → (s.digger.closed ≡ true → ⊥)
      → d.news ≡ s.digger.news ++ more
      → VerifierPart p s
      → VerifierPart p (record s { digger = d; verifier = to_verifier more s.verifier })
  digs-VerifierPart s d more on e (inr (shut, r)) = absurd (on shut)
  digs-VerifierPart s d more on e (inl h) = inl (λ later.
      rw (e, append_assoc s.digger.news more later, append_assoc s.verifier.input more later)
        (h (more ++ later)))

  -- All that was sent was there.
  pub whole_VerifierPart : (s : System) → VerifierPart p s → Run.Reach p s.digger.news s.verifier
  whole_VerifierPart s (inr (shut, r)) = r
  whole_VerifierPart s (inl h) =
      rw (← append-nil s.digger.news, ← append-nil s.verifier.input) (h [])

  -- A step of the Verifier; it has found the channel closed only if the Digger has closed it.
  verifies-VerifierPart :
      (s : System) {v : Run.State} (d : Display) (st : Run.Step p s.verifier v)
      → (ends_input st ≡ true → s.digger.closed ≡ true)
      → VerifierPart p s
      → VerifierPart p (record s { verifier = v; display = d })
  verifies-VerifierPart s d st closing part = elim (Bool-cases (ends_input st)) [
    | inl e ↦ inr (closing e, Run.next (whole_VerifierPart s part) st)
    | inr ne ↦ elim part [
      | inl h ↦ inl (λ more. Run.next (h more) (Step-to_verifier more st ne))
      | inr (shut, r) ↦ inr (shut, Run.next r st)
    ]
  ]

module _ {ip : Text → Text} where
  pub whole_DisplayPart : (s : System) → DisplayPart ip s → Displayed ip s.verifier.news s.display
  whole_DisplayPart s (inr (shut, r)) = r
  whole_DisplayPart s (inl h) =
      rw (← append-nil s.verifier.news, ← append-nil s.display.news) (h [])

  -- What the Verifier sends.
  verifies-DisplayPart :
      (s : System) (v : Run.State) (more : List NamedAddressValue)
      → s.verifier.main ≢ Run.ended
      → v.news ≡ s.verifier.news ++ more
      → DisplayPart ip s
      → DisplayPart ip (record s { verifier = v; display = to_display more s.display })
  verifies-DisplayPart s v more on e (inr (shut, r)) = absurd (on shut)
  verifies-DisplayPart s v more on e (inl h) = inl (λ later.
      rw (e, append_assoc s.verifier.news more later, append_assoc s.display.news more later)
        (h (more ++ later)))

  displays-DisplayPart :
      (s : System) {d : Display} (st : DisplayStep ip s.display d)
      → (ends_news st ≡ true → s.verifier.main ≡ Run.ended)
      → DisplayPart ip s
      → DisplayPart ip (record s { display = d })
  displays-DisplayPart s st closing part = elim (Bool-cases (ends_news st)) [
    | inl e ↦ inr (closing e, then_step (whole_DisplayPart s part) st)
    | inr ne ↦ elim part [
      | inl h ↦ inl (λ more. then_step (h more) (Step-to_display more st ne))
      | inr (shut, r) ↦ inr (shut, then_step r st)
    ]
  ]

  displays-tracked :
      (main : Run.Main) {d e : Display} (st : DisplayStep ip d e)
      → (ends_news st ≡ true → main ≡ Run.ended)
      → (d.tracking_done ≡ true → main ≡ Run.ended)
      → e.tracking_done ≡ true
      → main ≡ Run.ended
  unfolding render_data
  displays-tracked main (refresh on) closing h done_tracking = h done_tracking
  displays-tracked main (last_refresh ends on) closing h done_tracking = h done_tracking
  displays-tracked main (track_one na rest on e) closing h done_tracking = h done_tracking
  displays-tracked main (track_end on e) closing h done_tracking = closing refl
  displays-tracked main (report_returns ends on) closing h done_tracking = h done_tracking

module _ {fqdn : Text → Text} {env : Text → DnsEnv} {p : Pinger} {ip : Text → Text} where
  set_up-Parts : (nets : List DockerNetwork) → Parts fqdn env p ip nets (set_up nets)
  set_up-Parts nets = record {
    digging = Digger.start;
    digging_on = refl;
    verifying_part = inl (λ more. Run.start);
    verifying_on = refl;
    display_part = inl (λ more. switched_on);
    tracked = λ h. cc;
  }

  pub Parts-Phases :
      {nets : List DockerNetwork} {s : System} → Parts fqdn env p ip nets s → Phases s.verifier
  Parts-Phases {s = s} parts =
      Reach-Phases (IsUnverified-IsPending _ (Reach-IsUnverified parts.digging))
        (whole_VerifierPart s parts.verifying_part) parts.verifying_on

  Step-Parts :
      {nets : List DockerNetwork} {s t : System}
      → SystemStep fqdn env p ip s t
      → Parts fqdn env p ip nets s
      → Parts fqdn env p ip nets t
  Step-Parts {s = s} (digs {d} more st on e) parts =
      let open_channel : s.digger.closed ≢ true =
        λ shut. digger_stuck st on (Reach-closed-IsIdle parts.digging shut) shut in
      record {
        digging = Digger.next parts.digging st;
        digging_on = on;
        verifying_part = digs-VerifierPart s d more open_channel e parts.verifying_part;
        verifying_on = parts.verifying_on;
        display_part = parts.display_part;
        tracked = parts.tracked;
      }
  Step-Parts {s = s} (verifies {v} more st on e closing) parts =
      let runs : s.verifier.main ≢ Run.ended = verifier_stuck st on (Parts-Phases parts) in
      record {
        digging = parts.digging;
        digging_on = parts.digging_on;
        verifying_part =
            verifies-VerifierPart s (to_display more s.display) st closing parts.verifying_part;
        verifying_on = on;
        display_part = verifies-DisplayPart s v more runs e parts.display_part;
        tracked = λ h. absurd (runs (parts.tracked h));
      }
  Step-Parts {s = s} (displays st closing) parts = record {
    digging = parts.digging;
    digging_on = parts.digging_on;
    verifying_part = parts.verifying_part;
    verifying_on = parts.verifying_on;
    display_part = displays-DisplayPart s st closing parts.display_part;
    tracked = displays-tracked s.verifier.main st closing parts.tracked;
  }

  pub Runs-Parts :
      {nets : List DockerNetwork} {s : System}
      → Runs fqdn env p ip nets s
      → Parts fqdn env p ip nets s
  Runs-Parts {nets} set_out = set_up-Parts nets
  Runs-Parts (goes_on r st) = Step-Parts st (Runs-Parts r)

  -- In any interleaving of the goroutines of DigAndReport, the Digger is in a state that it reaches
  -- alone, the Verifier in one that it reaches alone on all that the Digger has sent, and the display
  -- in one that it reaches alone on all that the Verifier has sent, none of them cancelled.
  pub Runs-alone :
      {nets : List DockerNetwork} {s : System}
      → Runs fqdn env p ip nets s
      → Digger.DigNetworks fqdn env nets s.digger
        × Run.Reach p s.digger.news s.verifier
        × Displayed ip s.verifier.news s.display
        × (s.digger.cancelled ≡ false)
        × (s.verifier.cancelled ≡ false)
  Runs-alone {s = s} r =
      let parts = Runs-Parts r in
      (
        parts.digging,
        whole_VerifierPart s parts.verifying_part,
        whole_DisplayPart s parts.display_part,
        parts.digging_on,
        parts.verifying_on,
      )
