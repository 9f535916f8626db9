-- ===== src/Ping/Stream.antt =====
-- `ValidateStreamContext` and `StopWait` of ping/ping.go, with the two sends of `validate` and the
-- jobs of the pool, interleaved in any order. A send that blocks is a step that has not happened
-- yet. The elements of the input channel are given beforehand; it is closed after the last.
pub mod Messages
pub mod Phases
pub mod Verdicts
pub mod Completion
use mobydig.Prelude.{Bool, List, [], false, true, ◌++◌, ◌∷◌, ◌≡◌}
use mobydig.Ping.{Pinger, Surroundings, announce, verdict}
use mobydig.Types.Addr.{QualifiedAddress}

-- Where ValidateStreamContext stands.
pub data Stage : Type 0 where
  receiving : Stage  -- at the select of its loop
  noticing : QualifiedAddress → Stage  -- at the first select of `validate`
  handing_over : QualifiedAddress → Stage  -- before `p.workers.Submit`
  over : Stage

pub record State : Type 0 where
  pub addrs : List QualifiedAddress  -- left in the input channel
  pub stage : Stage
  pub jobs : List QualifiedAddress  -- submitted to the pool and not ended
  pub court_tv : List QualifiedAddress  -- all that was sent, in order
  pub context_ended : Bool
  pub court_closed : Bool

abbrev pub init : List QualifiedAddress → State
init addrs = record {
  addrs = addrs;
  stage = receiving;
  jobs = [];
  court_tv = [];
  context_ended = false;
  court_closed = false;
}

pub data Step (p : Pinger) (s : State) : State → Type 0 where
  end_context : s.context_ended ≡ false → Step p s (record s { context_ended = true })
  -- the loop
  receive :
      (qa : QualifiedAddress) (rest : List QualifiedAddress)
      → s.stage ≡ receiving
      → s.addrs ≡ qa ∷ rest
      → Step p s (record s { addrs = rest; stage = noticing (announce qa) })
  input_closed : s.stage ≡ receiving → s.addrs ≡ [] → Step p s (record s { stage = over })
  context_done : s.stage ≡ receiving → s.context_ended ≡ true → Step p s (record s { stage = over })
  -- `validate`
  notice :
      (qa : QualifiedAddress)
      → s.stage ≡ noticing qa
      → Step p s (record s { court_tv = s.court_tv ++ qa ∷ []; stage = handing_over qa })
  notice_abandoned :
      (qa : QualifiedAddress)
      → s.stage ≡ noticing qa
      → s.context_ended ≡ true
      → Step p s (record s { stage = receiving })
  hand_over :
      (qa : QualifiedAddress)
      → s.stage ≡ handing_over qa
      → Step p s (record s { jobs = s.jobs ++ qa ∷ []; stage = receiving })
  -- the deferred send of a job
  judge :
      (env : Surroundings) (before : List QualifiedAddress) (qa : QualifiedAddress)
      (after : List QualifiedAddress)
      → s.jobs ≡ before ++ qa ∷ after
      → Step p s
          (record s { jobs = before ++ after; court_tv = s.court_tv ++ verdict p env qa ∷ [] })
  judge_abandoned :
      (before : List QualifiedAddress) (qa : QualifiedAddress) (after : List QualifiedAddress)
      → s.jobs ≡ before ++ qa ∷ after
      → s.context_ended ≡ true
      → Step p s (record s { jobs = before ++ after })
  -- `StopWait`, called after ValidateStreamContext; a second call does nothing
  stop_pool :
      s.stage ≡ over
      → s.jobs ≡ []
      → s.court_closed ≡ false
      → Step p s (record s { court_closed = true })
  stop_pool_again : s.court_closed ≡ true → Step p s s

pub data Streamed (p : Pinger) (addrs : List QualifiedAddress) : State → Type 0 where
  begun : Streamed p addrs (init addrs)
  further : {s t : State} → Streamed p addrs s → Step p s t → Streamed p addrs t
