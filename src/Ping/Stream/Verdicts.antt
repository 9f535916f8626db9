-- ===== src/Ping/Stream/Verdicts.antt =====
-- What a stream of addresses is answered with.
-- The address that ValidateStreamContext has taken and not handed over.
use mobydig.Prelude.{List, Text, [], ap, arith, false, subst, true, ℕ, ◌+◌, ◌∷◌, ◌≡◌}
use mobydig.Ping.{Pinger, verdict}
use mobydig.Ping.Stream.{
  Stage, State, Step, Streamed, begun, context_done, end_context, further, hand_over, handing_over,
  input_closed, judge, judge_abandoned, notice, notice_abandoned, noticing, receive, stop_pool,
  stop_pool_again,
}
use mobydig.Ping.Stream.Messages.{
  about, about-announce, judged_lem, notices_of, pending_lem, sum, sum-append, sum-remove,
  verdicts_of,
}
use mobydig.Ping.Stream.Phases.{IsNotice, Step-context_ended, Streamed-Phases}
use mobydig.Types.Addr.{QualifiedAddress}

abbrev taken : Text → Stage → ℕ
taken a (noticing qa) = about a qa
taken a (handing_over qa) = about a qa
taken a _ = 0

abbrev unnoticed : Text → Stage → ℕ
unnoticed a (noticing qa) = about a qa
unnoticed a _ = 0

-- Each address of the input has been noticed or will be, and has its verdict or will have it.
record Counted (a : Text) (all : ℕ) (s : State) : Type 0 where
  notices : sum (notices_of a) s.court_tv + unnoticed a s.stage + sum (about a) s.addrs ≡ all
  verdicts :
      sum (verdicts_of a) s.court_tv
        + sum (about a) s.jobs
        + taken a s.stage
        + sum (about a) s.addrs
      ≡ all

module _ (p : Pinger) (a : Text) (all : ℕ) where
  Step-Counted :
      {s t : State}
      → Step p s t
      → t.context_ended ≡ false
      → IsNotice s.stage
      → Counted a all s
      → Counted a all t
  Step-Counted (end_context x) c n h = cc
  Step-Counted (receive qa rest r e) c n h = record {
    notices = omega (
      arith,
      h.notices,
      about-announce a qa,
      ap (sum (about a)) e,
      ap (unnoticed a) r,
      ap (taken a) r,
    );
    verdicts = omega (
      arith,
      h.verdicts,
      about-announce a qa,
      ap (sum (about a)) e,
      ap (unnoticed a) r,
      ap (taken a) r,
    );
  }
  Step-Counted (input_closed r e) c n h = record {
    notices = omega (arith, h.notices, ap (unnoticed a) r);
    verdicts = omega (arith, h.verdicts, ap (taken a) r);
  }
  Step-Counted (context_done r x) c n h = cc
  Step-Counted {s} (notice qa m) c n h = record {
    notices = omega (
      arith,
      h.notices,
      pending_lem a qa (subst IsNotice m n),
      sum-append (notices_of a) s.court_tv (qa ∷ []),
      sum-append (verdicts_of a) s.court_tv (qa ∷ []),
      ap (unnoticed a) m,
      ap (taken a) m,
    );
    verdicts = omega (
      arith,
      h.verdicts,
      pending_lem a qa (subst IsNotice m n),
      sum-append (notices_of a) s.court_tv (qa ∷ []),
      sum-append (verdicts_of a) s.court_tv (qa ∷ []),
      ap (unnoticed a) m,
      ap (taken a) m,
    );
  }
  Step-Counted (notice_abandoned qa m x) c n h = cc
  Step-Counted {s} (hand_over qa m) c n h = record {
    notices = omega (arith, h.notices, ap (unnoticed a) m);
    verdicts = omega (arith, h.verdicts, ap (taken a) m, sum-append (about a) s.jobs (qa ∷ []));
  }
  Step-Counted {s} (judge env before qa after e) c n h = record {
    notices = omega (
      arith,
      h.notices,
      judged_lem p env a qa,
      sum-append (notices_of a) s.court_tv (verdict p env qa ∷ []),
      sum-append (verdicts_of a) s.court_tv (verdict p env qa ∷ []),
      sum-remove (about a) before qa after,
      ap (sum (about a)) e,
    );
    verdicts = omega (
      arith,
      h.verdicts,
      judged_lem p env a qa,
      sum-append (notices_of a) s.court_tv (verdict p env qa ∷ []),
      sum-append (verdicts_of a) s.court_tv (verdict p env qa ∷ []),
      sum-remove (about a) before qa after,
      ap (sum (about a)) e,
    );
  }
  Step-Counted (judge_abandoned before qa after e x) c n h = cc
  Step-Counted (stop_pool o j x) c n h = record { notices = h.notices; verdicts = h.verdicts }
  Step-Counted (stop_pool_again x) c n h = h

Streamed-Counted :
    {p : Pinger} {addrs : List QualifiedAddress} {s : State} (a : Text)
    → Streamed p addrs s
    → s.context_ended ≡ false
    → Counted a (sum (about a) addrs) s
Streamed-Counted a begun c = record { notices = omega arith; verdicts = omega arith }
Streamed-Counted {p} a (further r st) c =
    let before = Step-context_ended st c in
    Step-Counted p a _ st c (Streamed-Phases r before).noticed (Streamed-Counted a r before)

-- When StopWait has closed the channel of a run whose context has not ended, the input is used up
-- and no job is left, and for each address as many notices without a verdict have been sent, and as
-- many verdicts, as the input has elements about the address.
pub Streamed-answered :
    {p : Pinger} {addrs : List QualifiedAddress} {s : State} (a : Text)
    → Streamed p addrs s
    → s.context_ended ≡ false
    → s.court_closed ≡ true
    → (s.addrs ≡ [])
      × (s.jobs ≡ [])
      × (sum (notices_of a) s.court_tv ≡ sum (about a) addrs)
      × (sum (verdicts_of a) s.court_tv ≡ sum (about a) addrs)
Streamed-answered {s = s} a r c shut =
    let phases = Streamed-Phases r c in
    let counted = Streamed-Counted a r c in
    let (at_end, no_jobs) = phases.idle shut in
    let no_addrs = phases.used_up at_end in
    (
      no_addrs,
      no_jobs,
      omega (
        arith,
        counted.notices,
        ap (unnoticed a) at_end,
        ap (taken a) at_end,
        ap (sum (about a)) no_jobs,
        ap (sum (about a)) no_addrs,
      ),
      omega (
        arith,
        counted.verdicts,
        ap (unnoticed a) at_end,
        ap (taken a) at_end,
        ap (sum (about a)) no_jobs,
        ap (sum (about a)) no_addrs,
      ),
    )
