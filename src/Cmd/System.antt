-- ===== src/Cmd/System.antt =====
-- cmd/mobydig/digging.go: the goroutines of DigAndReport, with those of the Digger, the Verifier and
-- its Pinger, interleaved in any order. The Verifier receives what the Digger has sent, and the
-- display what the Verifier has sent, at any time after; each sees its channel closed when all is
-- received and the sender has closed it. The context is context.Background(), which never ends.
-- The display may have been refreshed before all are made, with the map empty; a refresh that comes
-- first here stands for that. The goroutine of the spinner, which shares nothing with these but its
-- own mutex and channel, is put beside them in Cmd.System.Spinning.
pub mod Channels
pub mod Closing
pub mod Refinement
pub mod Return
pub mod Verdict
pub mod Soundness
pub mod Termination
pub mod Exact
pub mod Sends
pub mod Sequential
pub mod Spinning
pub mod Completion
use mobydig.Dig.Digger
use mobydig.Verifier.Run
use mobydig.Prelude.{Bool, List, Text, [], false, true, ◌++◌, ◌≡◌}
use mobydig.Cmd.Report.{Display, DisplayStep, blank, track_end}
use mobydig.Dig.Networks.{DockerNetwork, all_fqdns_on_attached_networks}
use mobydig.DnsWorker.Resolve.{DnsEnv}
use mobydig.Ping.{Pinger}
use mobydig.Types.Addr.{NamedAddressValue}

pub record System : Type 0 where
  pub digger : Digger.State
  pub verifier : Run.State  -- its input: what it has not received yet
  pub display : Display  -- its news: what it has not received yet

-- After the Digger and the Verifier have been made, and before the names are dug.
abbrev pub set_up : List DockerNetwork → System
set_up nets = record {
  digger = Digger.init (all_fqdns_on_attached_networks nets);
  verifier = Run.init [];
  display = blank [];
}

-- Messages that were sent to the Verifier, and to the display.
abbrev pub to_verifier : List NamedAddressValue → Run.State → Run.State
to_verifier more v = record v { input = v.input ++ more }

abbrev pub to_display : List NamedAddressValue → Display → Display
to_display more d = record d { news = d.news ++ more }

-- The step that finds the input channel closed.
abbrev pub ends_input : {p : Pinger} {v w : Run.State} → Run.Step p v w → Bool
ends_input (Run.drained m e) = true
ends_input _ = false

-- The step that finds the channel of the Verifier's news closed.
abbrev pub ends_news : {ip : Text → Text} {d e : Display} → DisplayStep ip d e → Bool
ends_news (track_end on e) = true
ends_news _ = false

pub data SystemStep (fqdn : Text → Text) (env : Text → DnsEnv) (p : Pinger) (ip : Text → Text)
    (s : System) : System → Type 0 where
  digs :
      {d : Digger.State} (more : List NamedAddressValue)
      → Digger.Step fqdn env s.digger d
      → d.cancelled ≡ false
      → d.news ≡ s.digger.news ++ more
      → SystemStep fqdn env p ip s (record s { digger = d; verifier = to_verifier more s.verifier })
  verifies :
      {v : Run.State} (more : List NamedAddressValue) (st : Run.Step p s.verifier v)
      → v.cancelled ≡ false
      → v.news ≡ s.verifier.news ++ more
      → (ends_input st ≡ true → s.digger.closed ≡ true)
      → SystemStep fqdn env p ip s (record s { verifier = v; display = to_display more s.display })
  displays :
      {d : Display} (st : DisplayStep ip s.display d)
      → (ends_news st ≡ true → s.verifier.main ≡ Run.ended)
      → SystemStep fqdn env p ip s (record s { display = d })

pub data Runs (fqdn : Text → Text) (env : Text → DnsEnv) (p : Pinger) (ip : Text → Text)
    (nets : List DockerNetwork) : System → Type 0 where
  set_out : Runs fqdn env p ip nets (set_up nets)
  goes_on :
      {s t : System}
      → Runs fqdn env p ip nets s
      → SystemStep fqdn env p ip s t
      → Runs fqdn env p ip nets t
