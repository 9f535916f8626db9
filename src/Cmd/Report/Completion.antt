-- ===== src/Cmd/Report/Completion.antt =====
-- DigAndReport can always return, once the Verifier has closed its channel.
use mobydig.Prelude.{Bool-cases, List, Text, [], false, inl, inr, refl, true, ◌∷◌, ◌≡◌}
use mobydig.Cmd.Report.{
  Display, DisplayStep, Displayed, last_refresh, report_returns, track_end, track_one,
}
use mobydig.Types.Addr.{NamedAddressValue}

-- From one state to another, in any number of steps.
pub data Leads (ip : Text → Text) : Display → Display → Type 0 where
  stay : {d : Display} → Leads ip d d
  step_first : {d e f : Display} → DisplayStep ip d e → Leads ip e f → Leads ip d f

abbrev CanReturn : (Text → Text) → Display → Type 0
CanReturn ip d = (e : Display) × Leads ip d e × (e.finished ≡ true)

CanReturn-step :
    {ip : Text → Text} {d e : Display} → DisplayStep ip d e → CanReturn ip e → CanReturn ip d
CanReturn-step st (f, r, h) = (f, step_first st r, h)

module _ (ip : Text → Text) where
  after_rendering : (d : Display) → d.rendering_done ≡ true → CanReturn ip d
  after_rendering d h = elim (Bool-cases d.finished) [
    | inl e ↦ (d, stay, e)
    | inr e ↦ CanReturn-step (report_returns h e) (_, stay, refl)
  ]

  after_tracking : (d : Display) → d.tracking_done ≡ true → CanReturn ip d
  after_tracking d h = elim (Bool-cases d.rendering_done) [
    | inl e ↦ after_rendering d e
    | inr e ↦ CanReturn-step (last_refresh h e) (after_rendering _ refl)
  ]

  while_tracking :
      (news : List NamedAddressValue) (d : Display)
      → d.news ≡ news
      → d.tracking_done ≡ false
      → CanReturn ip d
  while_tracking [] d e h = CanReturn-step (track_end h e) (after_tracking _ refl)
  while_tracking (na ∷ news) d e h =
      CanReturn-step (track_one na news h e) (while_tracking news _ refl h)

  -- Whatever the news of the Verifier are, and however tracking and rendering have interleaved, the
  -- state reached leads to one in which DigAndReport has returned.
  report_completes :
      {news : List NamedAddressValue} {d : Display} → Displayed ip news d → CanReturn ip d
  report_completes {d = d} r = elim (Bool-cases d.tracking_done) [
    | inl e ↦ after_tracking d e
    | inr e ↦ while_tracking d.news d refl e
  ]
