-- ===== src/Cmd/System/Sends.antt =====
-- A step of a goroutine only adds to what it has sent.
use mobydig.Dig.Digger
use mobydig.Verifier.Run
use mobydig.Prelude.{List, Text, [], append-nil, refl, sym, ◌++◌, ◌≡◌}
use mobydig.DnsWorker.Resolve.{DnsEnv}
use mobydig.Ping.{Pinger}
use mobydig.Types.Addr.{NamedAddressValue}
use mobydig.Verifier.Run.{take_address, take_message}

pub digger_sends :
    {fqdn : Text → Text} {env : Text → DnsEnv} {s t : Digger.State}
    → Digger.Step fqdn env s t
    → (more : List NamedAddressValue) × (t.news ≡ s.news ++ more)
digger_sends {s = s} (Digger.announce name rest i e) = (_, refl)
digger_sends {s = s} (Digger.emit before na rest after e) = (_, refl)
digger_sends {s = s} (Digger.cancel x) = ([], sym (append-nil s.news))
digger_sends {s = s} (Digger.give_up i x) = ([], sym (append-nil s.news))
digger_sends {s = s} (Digger.submit name i) = ([], sym (append-nil s.news))
digger_sends {s = s} (Digger.resolve before name after e) = ([], sym (append-nil s.news))
digger_sends {s = s} (Digger.emit_cancelled before nas after e x) = ([], sym (append-nil s.news))
digger_sends {s = s} (Digger.sent before after e) = ([], sym (append-nil s.news))
digger_sends {s = s} (Digger.stop_wait a b c d e) = ([], sym (append-nil s.news))

pub verifier_sends :
    {p : Pinger} {s t : Run.State}
    → Run.Step p s t
    → (more : List NamedAddressValue) × (t.news ≡ s.news ++ more)
unfolding take_address take_message
verifier_sends {s = s} (Run.pass na rest m e a) = (_, refl)
verifier_sends {s = s} (Run.take room na rest m e a r) = (_, refl)
verifier_sends {s = s} (Run.slurp room qa na rest l e n r) = (_, refl)
verifier_sends {s = s} (Run.cancel c) = ([], sym (append-nil s.news))
verifier_sends {s = s} (Run.pass_cancelled na rest m e a c) = ([], sym (append-nil s.news))
verifier_sends {s = s} (Run.drained m e) = ([], sym (append-nil s.news))
verifier_sends {s = s} (Run.leave m c) = ([], sym (append-nil s.news))
verifier_sends {s = s} (Run.send_verifying qa m) = ([], sym (append-nil s.news))
verifier_sends {s = s} (Run.abandon qa m c) = ([], sym (append-nil s.news))
verifier_sends {s = s} (Run.submit qa m) = ([], sym (append-nil s.news))
verifier_sends {s = s} (Run.decide env before qa after e) = ([], sym (append-nil s.news))
verifier_sends {s = s} (Run.drop before qa after e c) = ([], sym (append-nil s.news))
verifier_sends {s = s} (Run.stop m e) = ([], sym (append-nil s.news))
verifier_sends {s = s} (Run.slurp_closed l e o) = ([], sym (append-nil s.news))
verifier_sends {s = s} (Run.slurp_cancelled l c) = ([], sym (append-nil s.news))
verifier_sends {s = s} (Run.finish m f) = ([], sym (append-nil s.news))
verifier_sends {s = s} (Run.finish_cancelled m c) = ([], sym (append-nil s.news))
