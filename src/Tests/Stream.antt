-- ===== src/Tests/Stream.antt =====
-- ValidateStreamContext of ping/ping.go: one address with a name, and the same without.
use mobydig.Prelude.{List, [], false, none, refl, true, ℕ, ◌∷◌, ◌≡◌}
use mobydig.Ping.{Pinger, Surroundings, announce, plain_address}
use mobydig.Ping.Stream.{
  State, Streamed, begun, further, hand_over, init, input_closed, judge, notice, noticing, receive,
  stop_pool, stop_pool_again,
}
use mobydig.Ping.Stream.Messages.{about, notices_of, sum, verdicts_of}
use mobydig.Ping.Stream.Verdicts.{Streamed-answered}
use mobydig.Tests.Samples.{at, foo, ten}
use mobydig.Types.Addr.{QualifiedAddress, named}
use mobydig.Types.Quality.{unverified}

abbrev defaults : Pinger
defaults = record {
  count = 3;
  interval = 1000000000;
  threshold_percentage = 50;
  unprivileged = false;
  netns = none;
}

abbrev answered : ℕ → Surroundings
answered n = record {
  ended_before = none;
  switch_error = λ _. none;
  run_error = λ _. none;
  ended_after = none;
  packets_recv = λ _. n;
}

abbrev two_addrs : List QualifiedAddress
two_addrs = named (at foo ten unverified) ∷ plain_address ten ∷ []

record Shut : Type 0 where
  last : State
  stream : Streamed defaults two_addrs last
  going : last.context_ended ≡ false
  is_closed : last.court_closed ≡ true

-- The second job ends first, and without replies.
whole_stream : Shut
whole_stream =
    let q1 = announce (named (at foo ten unverified)) in
    let q2 = announce (plain_address ten) in
    let r1 = further begun (receive _ _ refl refl) in
    let r2 = further r1 (notice q1 refl) in
    let r3 = further r2 (hand_over q1 refl) in
    let r4 = further r3 (receive _ _ refl refl) in
    let r5 = further r4 (notice q2 refl) in
    let r6 = further r5 (hand_over q2 refl) in
    let r7 = further r6 (judge (answered 0) (q1 ∷ []) q2 [] refl) in
    let r8 = further r7 (judge (answered 3) [] q1 [] refl) in
    let r9 = further r8 (input_closed refl refl) in
    let r10 = further r9 (stop_pool refl refl refl) in
    record { last = _; stream = further r10 (stop_pool_again refl); going = refl; is_closed = refl }

Streamed-answered_example :
    (whole_stream.last.addrs ≡ [])
    × (whole_stream.last.jobs ≡ [])
    × (sum (notices_of ten) whole_stream.last.court_tv ≡ sum (about ten) two_addrs)
    × (sum (verdicts_of ten) whole_stream.last.court_tv ≡ sum (about ten) two_addrs)
Streamed-answered_example =
    Streamed-answered ten whole_stream.stream whole_stream.going whole_stream.is_closed

-- The context has ended while a notice is to be sent.
abbrev noticing_late : State
noticing_late = record (init two_addrs) {
  stage = noticing (announce (plain_address ten));
  context_ended = true;
}
