-- ===== src/Ping/Threshold.antt =====
-- The number of replies that validates an address, against the percentage that is asked for.
use native.Mathlib.Nat.{mod-eq_of_lt}
use mobydig.Prelude.{arith, ℕ, ◌%◌, ◌*◌, ◌+◌, ◌<◌, ◌^◌, ◌≡◌, ◌≤◌}
use mobydig.Ping.{required, word}

-- Where the product does not overflow, the replies required are the percentage of the pings sent,
-- rounded down to a whole reply.
pub required_bounds :
    (count threshold : ℕ)
    → count * threshold < 2 ^ 63
    → (required count threshold * 100 ≤ count * threshold)
      × (count * threshold < required count threshold * 100 + 100)
unfolding required
required_bounds count threshold h =
    let e : count * threshold % word ≡ count * threshold = mod-eq_of_lt {m = word} (omega arith) in
    ground (arith, e)

-- Below one whole reply none is required.
pub required-eq-zero :
    (count threshold : ℕ) → count * threshold < 100 → required count threshold ≡ 0
required-eq-zero count threshold h = omega (arith, required_bounds count threshold (omega arith))
