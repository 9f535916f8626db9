-- ===== src/Cmd/System/Completion.antt =====
-- DigAndReport can always return.
use mathlib.Core.WellFounded.{Acc}
use mobydig.Verifier.Run
use mobydig.Prelude.{Bool-cases, List, List-cases, Text, false, inl, inr, refl, true, ◌∙◌, ◌≡◌}
use mobydig.Cmd.Report.{last_refresh, report_returns, track_end, track_one}
use mobydig.Cmd.System.{Runs, System, SystemStep, digs, displays, goes_on, verifies}
use mobydig.Cmd.System.Refinement.{Runs-alone}
use mobydig.Cmd.System.Sends.{digger_sends, verifier_sends}
use mobydig.Cmd.System.Termination.{Ends, Proceeds, system-Ends}
use mobydig.Dig.Digger.Completion.{advance}
use mobydig.Dig.Digger.Pending.{Reach-IsUnverified}
use mobydig.Dig.Networks.{DockerNetwork}
use mobydig.DnsWorker.Resolve.{DnsEnv}
use mobydig.Ping.{Pinger}
use mobydig.Pipeline.{IsUnverified-IsPending}
use mobydig.Verifier.Run.Ending.{Reach-CanStep}

pub data SystemLeads (fqdn : Text → Text) (env : Text → DnsEnv) (p : Pinger) (ip : Text → Text)
    : System → System → Type 0 where
  rests : {s : System} → SystemLeads fqdn env p ip s s
  then_goes :
      {s t u : System}
      → SystemStep fqdn env p ip s t
      → SystemLeads fqdn env p ip t u
      → SystemLeads fqdn env p ip s u

-- Whether `Verify` has returned.
main_ended : (m : Run.Main) → Dec (m ≡ Run.ended)
main_ended Run.ended = yes refl
main_ended Run.looping = no (λ e. cc)
main_ended (Run.validating qa) = no (λ e. cc)
main_ended (Run.submitting qa) = no (λ e. cc)
main_ended Run.stopping = no (λ e. cc)
main_ended Run.joining = no (λ e. cc)

module _ {fqdn : Text → Text} {env : Text → DnsEnv} {p : Pinger} {ip : Text → Text} where
  -- The display can go on once the Verifier has ended.
  display_next :
      (s : System)
      → s.verifier.main ≡ Run.ended
      → s.display.finished ≡ false
      → (t : System) × Proceeds fqdn env p ip s t
  display_next s over_run unfinished = elim (Bool-cases s.display.rendering_done) [
    | inl e ↦ (_, (displays (report_returns e unfinished) (λ h. cc), refl))
    | inr e ↦ elim (Bool-cases s.display.tracking_done) [
      | inl f ↦ (_, (displays (last_refresh f e) (λ h. cc), refl))
      | inr f ↦ elim (List-cases s.display.news) [
        | inl n ↦ (_, (displays (track_end f n) (λ _. over_run), refl))
        | inr (na, rest, n) ↦ (_, (displays (track_one na rest f n) (λ h. cc), refl))
      ]
    ]
  ]

  -- However the goroutines of DigAndReport have interleaved, as long as it has not returned, one of
  -- them can take a step that is more than a refresh of the display.
  Runs-Proceeds :
      {nets : List DockerNetwork} {s : System}
      → Runs fqdn env p ip nets s
      → s.display.finished ≡ false
      → (t : System) × Proceeds fqdn env p ip s t
  Runs-Proceeds {s = s} r unfinished =
      let (digging, verifying_run, _, digging_on, verifying_on) = Runs-alone r in
      elim (Bool-cases s.digger.closed) [
        | inr open_channel ↦
            let (d, st, _, same) = advance fqdn env s.digger open_channel in
            let (more, e) = digger_sends st in (_, (digs more st (same ∙ digging_on) e, refl))
        | inl shut ↦ elim (main_ended s.verifier.main) [
          | yes m ↦ display_next s m unfinished
          | no m ↦
              let (v, st, same) =
                Reach-CanStep (IsUnverified-IsPending _ (Reach-IsUnverified digging)) verifying_run
                  m in
              let (more, e) = verifier_sends st in
              (_, (verifies more st (same ∙ verifying_on) e (λ _. shut), refl))
        ]
      ]

  completes_by :
      {nets : List DockerNetwork} {s : System}
      → Ends fqdn env p ip s
      → Runs fqdn env p ip nets s
      → (t : System) × SystemLeads fqdn env p ip s t × (t.display.finished ≡ true)
  completes_by (Acc.intro s smaller) r = elim (Bool-cases s.display.finished) [
    | inl e ↦ (s, rests, e)
    | inr e ↦
        let (t, (st, no_tick)) = Runs-Proceeds r e in
        let (u, leads, h) = completes_by (smaller t (st, no_tick)) (goes_on r st) in
        (u, then_goes st leads, h)
  ]

  -- However the goroutines of DigAndReport have interleaved, the state reached leads to one in which
  -- DigAndReport has returned.
  pub system_completes :
      {nets : List DockerNetwork} {s : System}
      → Runs fqdn env p ip nets s
      → (t : System) × SystemLeads fqdn env p ip s t × (t.display.finished ≡ true)
  system_completes {s = s} r = completes_by (system-Ends fqdn env p ip s) r
