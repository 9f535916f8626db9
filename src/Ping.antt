-- ===== src/Ping.antt =====
-- ping/ping.go: the options of a Pinger and one validation. pro-bing's pinger, the switch into a
-- network namespace by lxkns and the context are not under this repository: what they answer during
-- one validation is a value of `Surroundings`. A stream of validations is in the module Stream.
pub mod Stream
pub mod Threshold
pub mod Verdict
use mobydig.Prelude.{
  Bool, List, Option, Text, [], codes, false, if◌then◌else◌, ltb, none, not, some, true, ℕ, ◌%◌,
  ◌*◌, ◌+◌, ◌/◌, ◌^◌, ◌∷◌,
}
use mobydig.Types.Addr.{Error, QualifiedAddress, addr, plain, qual, with_new_quality}
use mobydig.Types.Quality.{Quality}

pub record Pinger : Type 0 where
  pub count : ℕ
  pub interval : ℕ
  pub threshold_percentage : ℕ
  pub unprivileged : Bool
  pub netns : Option Text

abbrev pub PingerOption : Type 0
PingerOption = Pinger → Pinger

abbrev second : ℕ
second = 1000000000

-- The loop of `new`.
apply_options : List PingerOption → Pinger → Pinger
apply_options [] p = p
apply_options (opt ∷ options) p = apply_options options (opt p)

-- The defaults in `new`, and then the options in their order. The size of the worker pool and of
-- the channel are no part of a validation.
unfoldable pub new : List PingerOption → Pinger
unfolding apply_options
new options = apply_options options (record {
  count = 3;
  interval = second;
  threshold_percentage = 50;
  unprivileged = false;
  netns = none;
})

-- The reference is stored as it is, the empty one too.
unfoldable pub in_network_namespace : Text → PingerOption
in_network_namespace netnsref p = record p { netns = some netnsref }

unfoldable pub with_count : ℕ → PingerOption
with_count count p = record p { count = count }

unfoldable pub with_interval : ℕ → PingerOption
with_interval interval p = record p { interval = interval }

unfoldable pub as_unprivileged : PingerOption
as_unprivileged p = record p { unprivileged = true }

-- `none` is the panic.
unfoldable pub with_threshold_percentage : ℕ → Option PingerOption
with_threshold_percentage threshold =
    if ltb 100 threshold then none else some (λ p. record p { threshold_percentage = threshold })

-- What the job sets on pro-bing's pinger.
pub record Request : Type 0 where
  pub address : Text
  pub privileged : Bool
  pub count : ℕ
  pub interval : ℕ
  pub resolve_timeout : ℕ

-- What the code under other repositories answers during one validation.
pub record Surroundings : Type 0 where
  pub ended_before : Error  -- `ctx.Err()` in the first select, or nil for its default
  pub switch_error : Text → Error  -- ops.Execute cannot enter the namespace
  pub run_error : Request → Error  -- RunWithContext
  pub ended_after : Error  -- `ctx.Err()` after the run
  pub packets_recv : Request → ℕ

-- An `int` is its pattern of 64 bits.
abbrev pub word : ℕ
word = 2 ^ 64

-- `pinger.Count*int(p.thresholdPercentage)/100`, where the product wraps. A product that is
-- negative as an int64 gives a quotient of at most 0, so that no number of packets is below it.
unfoldable pub required : ℕ → ℕ → ℕ
required count threshold =
    let product = count * threshold % word in if ltb product (2 ^ 63) then product / 100 else 0

unfoldable pub request : Pinger → Text → Request
request p a = record {
  address = a;
  privileged = not p.unprivileged;
  count = p.count;
  interval = p.interval;
  resolve_timeout = p.interval * (p.count + 2) % word;
}

abbrev pub no_replies : Text
no_replies = codes "no replies or too many losses"

-- The function `ping` of the job: its error, and the verdict that it leaves.
unfoldable pub ping : Pinger → Surroundings → QualifiedAddress → Error × QualifiedAddress
unfolding required request
ping p env verdict = elim env.ended_before [
  | some e ↦ (some e, verdict)
  | none ↦
      let r = request p (addr verdict) in
      elim (env.run_error r) [
        | some e ↦ (some e, verdict)
        | none ↦ elim env.ended_after [
          | some e ↦ (some e, verdict)
          | none ↦
              if ltb (env.packets_recv r) (required p.count p.threshold_percentage)
              then (some no_replies, verdict)
              else (none, with_new_quality verdict Quality.verified none)
        ]
      ]
]

-- The call of `ping`, in the network namespace if there is one.
unfoldable pub ping_in_namespace :
    Pinger → Surroundings → QualifiedAddress → Error × QualifiedAddress
unfolding ping
ping_in_namespace p env verdict = elim p.netns [
  | none ↦ ping p env verdict
  | some netnsref ↦ elim (env.switch_error netnsref) [
    | some e ↦ (some e, verdict)
    | none ↦ ping p env verdict
  ]
]

-- The last statement of the job.
unfoldable pub settle : Error × QualifiedAddress → QualifiedAddress
settle (none, verdict) = verdict
settle (some e, verdict) = with_new_quality verdict (qual verdict) (some e)

-- The job that `validate` submits: the verdict that its deferred function sends.
unfoldable pub verdict : Pinger → Surroundings → QualifiedAddress → QualifiedAddress
unfolding ping_in_namespace settle
verdict p env qa = settle (ping_in_namespace p env (with_new_quality qa Quality.invalid none))

-- What ValidateQA and ValidateStreamContext hand to `validate`, and what that sends first.
unfoldable pub announce : QualifiedAddress → QualifiedAddress
announce qa = with_new_quality qa Quality.verifying none

-- The address that Validate makes.
unfoldable pub plain_address : Text → QualifiedAddress
plain_address a = plain (record { address = a; quality = Quality.verifying; err = none })
