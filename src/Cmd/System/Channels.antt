-- ===== src/Cmd/System/Channels.antt =====
-- What is sent to a channel later does not change the steps taken before.
use mobydig.Verifier.Run
use mobydig.Prelude.{List, Text, ap, false, ◌++◌, ◌∷◌, ◌≡◌}
use mobydig.Cmd.Report.{
  Display, DisplayStep, last_refresh, refresh, render_data, report_returns, track_end, track_one,
}
use mobydig.Cmd.System.{ends_input, ends_news, to_display, to_verifier}
use mobydig.Ping.{Pinger}
use mobydig.Types.Addr.{NamedAddressValue}
use mobydig.Verifier.Run.{take_address, take_message}

received_first :
    (more : List NamedAddressValue) {pending rest : List NamedAddressValue} {na : NamedAddressValue}
    → pending ≡ na ∷ rest
    → pending ++ more ≡ na ∷ (rest ++ more)
received_first more e = ap (λ xs. xs ++ more) e

-- A step of `Verify` that does not find the channel closed.
pub Step-to_verifier :
    {p : Pinger} {s t : Run.State} (more : List NamedAddressValue) (st : Run.Step p s t)
    → ends_input st ≡ false
    → Run.Step p (to_verifier more s) (to_verifier more t)
unfolding take_address take_message
Step-to_verifier more (Run.cancel c) h = Run.cancel c
Step-to_verifier more (Run.pass na rest m e a) h =
    Run.pass na (rest ++ more) m (received_first more e) a
Step-to_verifier more (Run.pass_cancelled na rest m e a c) h =
    Run.pass_cancelled na (rest ++ more) m (received_first more e) a c
Step-to_verifier more (Run.take room na rest m e a r) h =
    Run.take room na (rest ++ more) m (received_first more e) a r
Step-to_verifier more (Run.drained m e) h = cc
Step-to_verifier more (Run.leave m c) h = Run.leave m c
Step-to_verifier more (Run.send_verifying qa m) h = Run.send_verifying qa m
Step-to_verifier more (Run.abandon qa m c) h = Run.abandon qa m c
Step-to_verifier more (Run.submit qa m) h = Run.submit qa m
Step-to_verifier more (Run.decide env before qa after e) h = Run.decide env before qa after e
Step-to_verifier more (Run.drop before qa after e c) h = Run.drop before qa after e c
Step-to_verifier more (Run.stop m e) h = Run.stop m e
Step-to_verifier more (Run.slurp room qa na rest l e n r) h = Run.slurp room qa na rest l e n r
Step-to_verifier more (Run.slurp_closed l e o) h = Run.slurp_closed l e o
Step-to_verifier more (Run.slurp_cancelled l c) h = Run.slurp_cancelled l c
Step-to_verifier more (Run.finish m f) h = Run.finish m f
Step-to_verifier more (Run.finish_cancelled m c) h = Run.finish_cancelled m c

-- The same for the goroutine that tracks.
pub Step-to_display :
    {ip : Text → Text} {d e : Display} (more : List NamedAddressValue) (st : DisplayStep ip d e)
    → ends_news st ≡ false
    → DisplayStep ip (to_display more d) (to_display more e)
unfolding render_data
Step-to_display more (refresh on) h = refresh on
Step-to_display more (last_refresh ends on) h = last_refresh ends on
Step-to_display more (track_one na rest on e) h =
    track_one na (rest ++ more) on (received_first more e)
Step-to_display more (track_end on e) h = cc
Step-to_display more (report_returns ends on) h = report_returns ends on
