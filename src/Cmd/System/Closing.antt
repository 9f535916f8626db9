-- ===== src/Cmd/System/Closing.antt =====
-- A goroutine that has closed its channel goes no further.
use mobydig.Dig.Digger
use mobydig.Verifier.Run
use mobydig.Prelude.{Text, [], ap, append-ne-nil, false, sym, true, ◌∙◌, ◌∷◌, ◌≡◌}
use mobydig.Dig.Digger.News.{IsIdle}
use mobydig.DnsWorker.Resolve.{DnsEnv}
use mobydig.Ping.{Pinger}
use mobydig.Verifier.Run.Phases.{Phases, is_after_stop}

pub digger_stuck :
    {fqdn : Text → Text} {env : Text → DnsEnv} {s t : Digger.State}
    → Digger.Step fqdn env s t
    → t.cancelled ≡ false
    → IsIdle s
    → s.closed ≡ true
    → ⊥
digger_stuck (Digger.cancel x) on h shut = cc
digger_stuck (Digger.announce name rest i e) on h shut = cc (e, h.0)
digger_stuck (Digger.give_up i x) on h shut = cc
digger_stuck (Digger.submit name i) on h shut = cc (i, h.1)
digger_stuck (Digger.resolve before name after e) on h shut =
    append-ne-nil before name after (sym e ∙ h.2)
digger_stuck (Digger.emit before na rest after e) on h shut =
    append-ne-nil before (na ∷ rest) after (sym e ∙ h.3)
digger_stuck (Digger.emit_cancelled before nas after e x) on h shut = cc
digger_stuck (Digger.sent before after e) on h shut = append-ne-nil before [] after (sym e ∙ h.3)
digger_stuck (Digger.stop_wait a b c d e) on h shut = cc

pub verifier_stuck :
    {p : Pinger} {s t : Run.State}
    → Run.Step p s t
    → t.cancelled ≡ false
    → Phases s
    → s.main ≡ Run.ended
    → ⊥
verifier_stuck (Run.cancel c) on h m = cc
verifier_stuck (Run.pass na rest l e a) on h m = cc
verifier_stuck (Run.pass_cancelled na rest l e a c) on h m = cc
verifier_stuck (Run.take room na rest l e a r) on h m = cc
verifier_stuck (Run.drained l e) on h m = cc
verifier_stuck (Run.leave l c) on h m = cc
verifier_stuck (Run.send_verifying qa l) on h m = cc
verifier_stuck (Run.abandon qa l c) on h m = cc
verifier_stuck (Run.submit qa l) on h m = cc
verifier_stuck {s = s} (Run.decide env before qa after e) on h m =
    append-ne-nil before qa after (sym e ∙ h.pool_idle (ap is_after_stop m))
verifier_stuck (Run.drop before qa after e c) on h m = cc
verifier_stuck (Run.stop l e) on h m = cc
verifier_stuck (Run.slurp room qa na rest l e n r) on h m = cc (l, h.joined m)
verifier_stuck (Run.slurp_closed l e o) on h m = cc (l, h.joined m)
verifier_stuck (Run.slurp_cancelled l c) on h m = cc
verifier_stuck (Run.finish l f) on h m = cc
verifier_stuck (Run.finish_cancelled l c) on h m = cc
