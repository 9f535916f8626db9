-- ===== src/Tests/Ping.antt =====
-- ping/ping.go.
use mobydig.Prelude.{[], arith, false, none, refl, ℕ, ◌*◌, ◌+◌, ◌<◌, ◌≡◌, ◌≤◌}
use mobydig.Ping.{Pinger, Surroundings, new, plain_address, required, verdict}
use mobydig.Ping.Threshold.{required_bounds}
use mobydig.Ping.Verdict.{
  first_error, obstacles, quality_of, verdict-plain_address-err, verdict_lem,
}
use mobydig.Tests.Samples.{at, foo, ten}
use mobydig.Types.Addr.{addr, err_of, named, with_new_quality}
use mobydig.Types.Quality.{verified, verifying}

-- Everything goes well, and `n` replies arrive.
abbrev replies : ℕ → Surroundings
replies n = record {
  ended_before = none;
  switch_error = λ _. none;
  run_error = λ _. none;
  ended_after = none;
  packets_recv = λ _. n;
}

abbrev defaults : Pinger
defaults = record {
  count = 3;
  interval = 1000000000;
  threshold_percentage = 50;
  unprivileged = false;
  netns = none;
}

new_lem : new [] ≡ defaults
unfolding new
new_lem = refl

-- One reply of three will do for fifty percent.
one_of_three :
    verdict defaults (replies 1) (named (at foo ten verifying)) ≡ named (at foo ten verified)
unfolding verdict with_new_quality
one_of_three = refl

required_bounds_example : (required 3 50 * 100 ≤ 3 * 50) × (3 * 50 < required 3 50 * 100 + 100)
required_bounds_example = required_bounds 3 50 (omega arith)

verdict_lem_example :
    let e = first_error (obstacles defaults (replies 0) (addr (named (at foo ten verifying)))) in
    verdict defaults (replies 0) (named (at foo ten verifying))
    ≡ with_new_quality (named (at foo ten verifying)) (quality_of e) e
verdict_lem_example = verdict_lem defaults (replies 0) (named (at foo ten verifying))

verdict-plain_address-err_example : err_of (verdict defaults (replies 0) (plain_address ten)) ≡ none
verdict-plain_address-err_example = verdict-plain_address-err defaults (replies 0) ten

abbrev single : Pinger
single = record defaults { count = 1 }
