-- ===== src/Cmd/System/Spinning.antt =====
-- The goroutine of the spinner beside those of Cmd.System: the renderer starts it, and stops it.
use mobydig.Prelude.{Bool, Bool-cases, List, Text, false, inl, inr, refl, some, sym, true, ◌∙◌, ◌≡◌}
use mobydig.Cmd.Report.{last_refresh, refresh, render_data, report_returns, track_end, track_one}
use mobydig.Cmd.Spinner.{
  SpinnerState, SpinnerStep, new_spinner, quits, stop, stop-done, tick, tick-done, ticks,
}
use mobydig.Cmd.System.{
  Runs, System, SystemStep, digs, displays, goes_on, set_out, set_up, verifies,
}
use mobydig.Cmd.System.Return.{Runs-rendering_done, Runs-stuck}
use mobydig.Dig.Networks.{DockerNetwork}
use mobydig.DnsWorker.Resolve.{DnsEnv}
use mobydig.Ping.{Pinger}

pub record Program : Type 0 where
  pub system : System
  pub spinner : SpinnerState

-- The deferred function of the rendering goroutine, which calls `Stop` of the renderer.
abbrev pub stops_renderer :
    {fqdn : Text → Text} {env : Text → DnsEnv} {p : Pinger} {ip : Text → Text} {s t : System}
    → SystemStep fqdn env p ip s t
    → Bool
stops_renderer (displays (last_refresh ends on) closing) = true
stops_renderer _ = false

-- The spinner may have ticked before the renderer is made, which stands for another phase at first.
pub data ProgramStep (fqdn : Text → Text) (env : Text → DnsEnv) (p : Pinger) (ip : Text → Text)
    (w : Program) : Program → Type 0 where
  works :
      {t : System} (st : SystemStep fqdn env p ip w.system t)
      → stops_renderer st ≡ false
      → ProgramStep fqdn env p ip w (record w { system = t })
  stops :
      {t : System} {sp : SpinnerState} (st : SystemStep fqdn env p ip w.system t)
      → stops_renderer st ≡ true
      → stop w.spinner ≡ some sp
      → ProgramStep fqdn env p ip w (record { system = t; spinner = sp })
  spins :
      {sp : SpinnerState}
      → SpinnerStep w.spinner sp
      → ProgramStep fqdn env p ip w (record w { spinner = sp })

pub data Programs (fqdn : Text → Text) (env : Text → DnsEnv) (p : Pinger) (ip : Text → Text)
    (nets : List DockerNetwork) : Program → Type 0 where
  switched_on : Programs fqdn env p ip nets (record { system = set_up nets; spinner = new_spinner })
  then_step :
      {w v : Program}
      → Programs fqdn env p ip nets w
      → ProgramStep fqdn env p ip w v
      → Programs fqdn env p ip nets v

module _ {fqdn : Text → Text} {env : Text → DnsEnv} {p : Pinger} {ip : Text → Text} where
  -- The renderer is stopped when rendering is done.
  works-rendering_done :
      {s t : System} (st : SystemStep fqdn env p ip s t)
      → stops_renderer st ≡ false
      → t.display.rendering_done ≡ s.display.rendering_done
  unfolding render_data
  works-rendering_done (digs more st on e) h = refl
  works-rendering_done (verifies more st on e closing) h = refl
  works-rendering_done (displays (refresh on) closing) h = refl
  works-rendering_done (displays (last_refresh ends on) closing) h = cc
  works-rendering_done (displays (track_one na rest on e) closing) h = refl
  works-rendering_done (displays (track_end on e) closing) h = refl
  works-rendering_done (displays (report_returns ends on) closing) h = refl

  stops-rendering_done :
      {s t : System} (st : SystemStep fqdn env p ip s t)
      → stops_renderer st ≡ true
      → (s.display.rendering_done ≡ false) × (t.display.rendering_done ≡ true)
  unfolding render_data
  stops-rendering_done (digs more st on e) h = cc
  stops-rendering_done (verifies more st on e closing) h = cc
  stops-rendering_done (displays (refresh on) closing) h = cc
  stops-rendering_done (displays (last_refresh ends on) closing) h = (on, refl)
  stops-rendering_done (displays (track_one na rest on e) closing) h = cc
  stops-rendering_done (displays (track_end on e) closing) h = cc
  stops-rendering_done (displays (report_returns ends on) closing) h = cc

  module _ {nets : List DockerNetwork} where
    Programs-Runs : {w : Program} → Programs fqdn env p ip nets w → Runs fqdn env p ip nets w.system
    Programs-Runs switched_on = set_out
    Programs-Runs (then_step r (works st h)) = goes_on (Programs-Runs r) st
    Programs-Runs (then_step r (stops st h e)) = goes_on (Programs-Runs r) st
    Programs-Runs (then_step r (spins st)) = Programs-Runs r

    Programs-done :
        {w : Program}
        → Programs fqdn env p ip nets w
        → w.spinner.done ≡ w.system.display.rendering_done
    unfolding tick stop new_spinner
    Programs-done switched_on = refl
    Programs-done (then_step r (works st h)) = Programs-done r ∙ sym (works-rendering_done st h)
    Programs-done (then_step r (stops {t} {sp} st h e)) =
        (stop-done _ sp e).0 ∙ sym (stops-rendering_done st h).1
    Programs-done (then_step r (spins (ticks on))) = tick-done _ ∙ Programs-done r
    Programs-done (then_step r (spins (quits on told))) = Programs-done r

    -- Wherever a step calls `Stop` of the renderer, it does not panic: the spinner is told once.
    pub Programs-stop :
        {w : Program} {t : System}
        → Programs fqdn env p ip nets w
        → (st : SystemStep fqdn env p ip w.system t) → stops_renderer st ≡ true
        → stop w.spinner ≡ some (record w.spinner { done = true })
    unfolding stop
    Programs-stop r st h = rw (Programs-done r, (stops-rendering_done st h).0) refl

    -- When DigAndReport, having gone on after its start, has returned, however its goroutines and the
    -- spinner's have interleaved: the spinner has been told to stop, and a step that is still taken is
    -- one of the spinner's goroutine alone, a tick or its end.
    pub Programs-SpinnerStep :
        {w v : Program}
        → Programs fqdn env p ip nets w
        → w.system.display.finished ≡ true
        → ProgramStep fqdn env p ip w v
        → (w.spinner.done ≡ true) × (v.system ≡ w.system) × SpinnerStep w.spinner v.spinner
    Programs-SpinnerStep r over_all (works st h) = absurd (Runs-stuck (Programs-Runs r) over_all st)
    Programs-SpinnerStep r over_all (stops st h e) =
        absurd (Runs-stuck (Programs-Runs r) over_all st)
    Programs-SpinnerStep r over_all (spins st) =
        (Programs-done r ∙ Runs-rendering_done (Programs-Runs r) over_all, refl, st)

    -- The goroutines of DigAndReport run as they do without the spinner, which need not tick.
    pub Runs-Programs :
        {s : System}
        → Runs fqdn env p ip nets s
        → (sp : SpinnerState) × Programs fqdn env p ip nets (record { system = s; spinner = sp })
          × (sp.ended ≡ false)
    unfolding new_spinner
    Runs-Programs set_out = (new_spinner, switched_on, refl)
    Runs-Programs (goes_on r st) =
        let (sp, so_far, going) = Runs-Programs r in
        elim (Bool-cases (stops_renderer st)) [
          | inl h ↦
              let told = Programs-stop so_far st h in
              (record sp { done = true }, then_step so_far (stops st h told), going)
          | inr h ↦ (sp, then_step so_far (works st h), going)
        ]
