-- ===== src/Ping/Stream/Phases.antt =====
-- What holds at each place of the loop, in a run whose context has not ended.
use mobydig.Prelude.{List, [], append-ne-nil, arith, false, none, refl, sym, true, ◌∙◌, ◌≡◌}
use mobydig.Ping.{Pinger, announce}
use mobydig.Ping.Stream.{
  Stage, State, Step, Streamed, begun, context_done, end_context, further, hand_over, input_closed,
  judge, judge_abandoned, notice, notice_abandoned, noticing, over, receive, stop_pool,
  stop_pool_again,
}
use mobydig.Ping.Verdict.{qual-with_new_quality}
use mobydig.Types.Addr.{QualifiedAddress, qual}
use mobydig.Types.Quality.{verifying}

announce-qual : (qa : QualifiedAddress) → qual (announce qa) ≡ verifying
unfolding announce
announce-qual qa = qual-with_new_quality qa verifying none

-- What is about to be sent as a notice is pending.
abbrev pub IsNotice : Stage → Type 0
IsNotice (noticing qa) = qual qa ≡ verifying
IsNotice _ = Unit

pub record Phases (s : State) : Type 0 where
  pub noticed : IsNotice s.stage
  pub used_up : s.stage ≡ over → s.addrs ≡ []
  pub idle : s.court_closed ≡ true → (s.stage ≡ over) × (s.jobs ≡ [])

-- An ended context stays ended.
pub Step-context_ended :
    {p : Pinger} {s t : State} → Step p s t → t.context_ended ≡ false → s.context_ended ≡ false
Step-context_ended (end_context x) c = cc
Step-context_ended _ c = c

Step-Phases :
    {p : Pinger} {s t : State} → Step p s t → t.context_ended ≡ false → Phases s → Phases t
Step-Phases (end_context x) c h = cc
Step-Phases (receive qa rest r e) c h = record {
  noticed = announce-qual qa;
  used_up = λ o. cc;
  idle = λ k. ground (arith, h.idle k);
}
Step-Phases (input_closed r e) c h = record {
  noticed = tt;
  used_up = λ o. e;
  idle = λ k. (refl, (h.idle k).1);
}
Step-Phases (context_done r x) c h = cc
Step-Phases (notice qa n) c h = record {
  noticed = tt;
  used_up = λ o. cc;
  idle = λ k. ground (arith, h.idle k);
}
Step-Phases (notice_abandoned qa n x) c h = cc
Step-Phases (hand_over qa n) c h = record {
  noticed = tt;
  used_up = λ o. cc;
  idle = λ k. ground (arith, h.idle k);
}
Step-Phases (judge env before qa after e) c h = record {
  noticed = h.noticed;
  used_up = h.used_up;
  idle = λ k. absurd (append-ne-nil before qa after (sym e ∙ (h.idle k).1));
}
Step-Phases (judge_abandoned before qa after e x) c h = cc
Step-Phases (stop_pool o j x) c h = record {
  noticed = h.noticed;
  used_up = h.used_up;
  idle = λ k. (o, j);
}
Step-Phases (stop_pool_again x) c h = h

pub Streamed-Phases :
    {p : Pinger} {addrs : List QualifiedAddress} {s : State}
    → Streamed p addrs s
    → s.context_ended ≡ false
    → Phases s
Streamed-Phases begun c = record { noticed = tt; used_up = λ o. cc; idle = λ k. cc }
Streamed-Phases (further r st) c = Step-Phases st c (Streamed-Phases r (Step-context_ended st c))
