-- ===== src/Cmd/System/Termination.antt =====
-- No run of DigAndReport goes on for ever, but for the ticks of its display.
use mobydig.Dig.Digger
use mobydig.Verifier.Run
use mathlib.Core.WellFounded.{Acc}
use mobydig.Prelude.{
  Bool, Text, ap, arith, false, if◌then◌else◌, length, suc, true, zero, ℕ, ◌+◌, ◌<◌, ◌≡◌,
}
use mobydig.Cmd.Report.{
  Display, DisplayStep, last_refresh, refresh, render_data, report_returns, track_end, track_one,
}
use mobydig.Cmd.System.{System, SystemStep, digs, displays, verifies}
use mobydig.Dig.Digger.Completion.{Step-work_left, work_left}
use mobydig.DnsWorker.Resolve.{DnsEnv}
use mobydig.Ping.{Pinger}
use mobydig.Verifier.Run.Ending.{Step-steps_left, steps_left}

-- What the ticker, or the start of the display, calls for.
abbrev pub is_refresh : {ip : Text → Text} {d e : Display} → DisplayStep ip d e → Bool
is_refresh (refresh on) = true
is_refresh _ = false

abbrev pub is_tick :
    {fqdn : Text → Text} {env : Text → DnsEnv} {p : Pinger} {ip : Text → Text} {s t : System}
    → SystemStep fqdn env p ip s t
    → Bool
is_tick (displays st closing) = is_refresh st
is_tick _ = false

-- The second state can come next after the first, by another step than that.
abbrev pub Proceeds :
    (Text → Text) → (Text → DnsEnv) → Pinger → (Text → Text) → System → System → Type 0
Proceeds fqdn env p ip s t = (st : SystemStep fqdn env p ip s t) × (is_tick st ≡ false)

-- What is left to the display.
abbrev display_left : Display → ℕ
display_left d =
    length d.news
    + (if d.tracking_done then 0 else 1)
    + (if d.rendering_done then 0 else 1)
    + (if d.finished then 0 else 1)

Step-display_left :
    {ip : Text → Text} {d e : Display} (st : DisplayStep ip d e)
    → is_refresh st ≡ false
    → display_left e < display_left d
unfolding render_data
Step-display_left (refresh on) h = cc
Step-display_left (last_refresh ends on) h = ground (arith, on)
Step-display_left (track_one na rest on e) h = omega (arith, ap length e)
Step-display_left (track_end on e) h = ground (arith, on)
Step-display_left (report_returns ends on) h = ground (arith, on)

module _ (fqdn : Text → Text) (env : Text → DnsEnv) (p : Pinger) (ip : Text → Text) where
  -- A state after which only finitely many steps can come, but for ticks.
  abbrev pub Ends : System → Type 0
  Ends s = Acc (λ t r. Proceeds fqdn env p ip r t) s

  next-Ends :
      {s t : System}
      → ((d : Digger.State) (v : Run.State)
          → work_left fqdn env d < work_left fqdn env s.digger
          → Ends (record s { digger = d; verifier = v }))
      → ((v : Run.State) (d : Display)
          → steps_left v < steps_left s.verifier
          → Ends (record s { verifier = v; display = d }))
      → ((d : Display) → display_left d < display_left s.display → Ends (record s { display = d }))
      → Proceeds fqdn env p ip s t
      → Ends t
  next-Ends digs_on verifies_on displays_on (digs more st on e, h) =
      digs_on _ _ (Step-work_left fqdn env st on)
  next-Ends digs_on verifies_on displays_on (verifies more st on e closing, h) =
      verifies_on _ _ (Step-steps_left st)
  next-Ends digs_on verifies_on displays_on (displays st closing, h) =
      displays_on _ (Step-display_left st h)

  Ends-below :
      (i j k : ℕ) (s : System)
      → work_left fqdn env s.digger < i
      → steps_left s.verifier < j
      → display_left s.display < k
      → Ends s
  Ends-below zero j k s h l m = absurd (omega (arith, h))
  Ends-below (suc i) zero k s h l m = absurd (omega (arith, l))
  Ends-below (suc i) (suc j) zero s h l m = absurd (omega (arith, m))
  Ends-below (suc i) (suc j) (suc k) s h l m = Acc.intro s (λ t st.
      next-Ends
        (λ d v lt.
          Ends-below i (suc (steps_left v)) (suc (display_left s.display)) _ (omega (arith, h, lt))
            (omega arith) (omega arith))
        (λ v d lt.
          Ends-below (suc i) j (suc (display_left d)) _ h (omega (arith, l, lt)) (omega arith))
        (λ d lt. Ends-below (suc i) (suc j) k _ h l (omega (arith, m, lt))) st)

  -- From any state whatever, there is no endless sequence of steps of the goroutines of DigAndReport
  -- other than those that only refresh the display.
  pub system-Ends : (s : System) → Ends s
  system-Ends s =
      Ends-below (suc (work_left fqdn env s.digger)) (suc (steps_left s.verifier))
        (suc (display_left s.display)) s (omega arith) (omega arith) (omega arith)
