-- ===== src/Verifier/Run/Ending.antt =====
-- `Verify` ends, in every interleaving and whether the context ends or not.
use mobydig.Prelude.{
  All, Bool, List, [], ap, arith, false, if◌then◌else◌, length, length-append, none, refl, suc,
  text_discrete, true, ℕ, ◌*◌, ◌+◌, ◌<◌, ◌∷◌, ◌≡◌, ◌≢◌, ◌≤◌,
}
use mobydig.Dig.Digger.{dug}
use mobydig.Ping.{Pinger, Surroundings, verdict}
use mobydig.Prelude.Dict.{lookup}
use mobydig.Types.Addr.{NamedAddressValue, QualifiedAddress, as_named, named, plain}
use mobydig.Verifier.AddrCache.{update}
use mobydig.Verifier.AddrCache.Delivery.{wanted}
use mobydig.Verifier.Run.{
  Main, Reach, Slurper, State, Step, abandon, after_update, cancel, decide, drained, drop, ended,
  finish, finish_cancelled, finished, joining, leave, looping, next, pass, pass_cancelled,
  send_verifying, slurp, slurp_cancelled, slurp_closed, slurping, start, stop, stopping, submit,
  submitting, take, take_address, take_message, validating,
}
use mobydig.Verifier.Run.Invariant.{Inv, IsPending}
use mobydig.Verifier.Run.Phases.{Phases}
use mobydig.Verifier.Run.Results.{Reach-Inv, Reach-Phases}
use mobydig.Verifier.Run.Tokens.{IsKnown}

abbrev main_steps : Main → ℕ
main_steps looping = 3
main_steps (validating qa) = 8
main_steps (submitting qa) = 6
main_steps stopping = 2
main_steps joining = 1
main_steps ended = 0

abbrev slurper_steps : Slurper → ℕ
slurper_steps slurping = 1
slurper_steps finished = 0

-- A bound on the steps that can follow.
abbrev pub steps_left : State → ℕ
steps_left s =
    6 * length s.input
    + main_steps s.main
    + 2 * length s.jobs
    + length s.court
    + slurper_steps s.slurper
    + (if s.cancelled then 0 else 1)

after_update-steps : (b : Bool) (na : NamedAddressValue) → main_steps (after_update b na) ≤ 8
unfolding after_update
after_update-steps true na = omega arith
after_update-steps false na = omega arith

-- Every step uses up some of the bound.
pub Step-steps_left : {p : Pinger} {s t : State} → Step p s t → steps_left t < steps_left s
unfolding take_address take_message
Step-steps_left (cancel c) = ground arith
Step-steps_left (pass na rest m e _) = omega (arith, ap length e)
Step-steps_left (pass_cancelled na rest m e _ c) = omega (arith, ap length e, ap main_steps m)
Step-steps_left {s = s} (take room na rest m e _ _) =
    omega
      (arith, ap length e, ap main_steps m, after_update-steps (update room s.cache na).is_new na)
Step-steps_left (drained m e) = omega (arith, ap main_steps m)
Step-steps_left (leave m c) = omega (arith, ap main_steps m)
Step-steps_left {s = s} (send_verifying qa m) =
    omega (arith, ap main_steps m, length-append s.court (qa ∷ []))
Step-steps_left (abandon qa m c) = omega (arith, ap main_steps m)
Step-steps_left {s = s} (submit qa m) =
    omega (arith, ap main_steps m, length-append s.jobs (qa ∷ []))
Step-steps_left {p} {s = s} (decide env before qa after e) = omega (
  arith,
  ap length e,
  length-append before (qa ∷ after),
  length-append before after,
  length-append s.court (verdict p env qa ∷ []),
)
Step-steps_left (drop before qa after e c) =
    omega (arith, ap length e, length-append before (qa ∷ after), length-append before after)
Step-steps_left (stop m e) = omega (arith, ap main_steps m)
Step-steps_left (slurp room qa na rest l e k _) = omega (arith, ap length e)
Step-steps_left (slurp_closed l e o) = omega (arith, ap slurper_steps l)
Step-steps_left (slurp_cancelled l c) = omega (arith, ap slurper_steps l)
Step-steps_left (finish m f) = omega (arith, ap main_steps m)
Step-steps_left (finish_cancelled m c) = omega (arith, ap main_steps m)

-- Surroundings in which a ping is answered.
abbrev quiet : Surroundings
quiet = record {
  ended_before = none;
  switch_error = λ _. none;
  run_error = λ _. none;
  ended_after = none;
  packets_recv = λ _. 0;
}

CanStep : Pinger → State → Type 0
CanStep p s = (t : State) × Step p s t × (t.cancelled ≡ s.cancelled)

module _ (p : Pinger) (s : State) where
  looping-CanStep :
      (input : List NamedAddressValue) → s.main ≡ looping → s.input ≡ input → CanStep p s
  unfolding CanStep take_address
  looping-CanStep [] m e = (_, drained m e, refl)
  looping-CanStep (na ∷ rest) m e = elim (text_discrete na.address []) [
    | yes undug ↦ (_, pass na rest m e undug, refl)
    | no dug ↦
        (_, take (wanted (lookup na.address s.cache)) na rest m e dug (λ _. omega arith), refl)
  ]

  stopping-CanStep :
      (jobs : List QualifiedAddress) → s.main ≡ stopping → s.jobs ≡ jobs → CanStep p s
  unfolding CanStep
  stopping-CanStep [] m e = (_, stop m e, refl)
  stopping-CanStep (qa ∷ rest) m e = (_, decide quiet [] qa rest e, refl)

  slurping-CanStep :
      (court : List QualifiedAddress)
      → s.slurper ≡ slurping
      → s.court ≡ court
      → s.court_open ≡ false
      → All (IsKnown s.cache) court
      → CanStep p s
  unfolding CanStep as_named take_message
  slurping-CanStep [] l e o known = (_, slurp_closed l e o, refl)
  slurping-CanStep (plain v ∷ rest) l e o known = absurd known.0
  slurping-CanStep (named na ∷ rest) l e o known = (
    _,
    slurp (wanted (lookup na.address s.cache)) (named na) na rest l e refl (λ _. omega arith),
    refl,
  )

  joining-CanStep :
      (slurper : Slurper) → s.main ≡ joining → s.slurper ≡ slurper → Inv s → Phases s → CanStep p s
  unfolding CanStep
  joining-CanStep finished m l inv ph = (_, finish m l, refl)
  joining-CanStep slurping m l inv ph =
      slurping-CanStep s.court l refl (ground arith) inv.court_known

  main-CanStep :
      (main : Main)
      → s.main ≡ main
      → main ≢ ended
      → (b : Bool) → s.cancelled ≡ b
      → (s.cancelled ≡ false → Inv s × Phases s)
      → CanStep p s
  unfolding CanStep
  main-CanStep looping m h b c inv = looping-CanStep s.input m refl
  main-CanStep (validating qa) m h b c inv = (_, send_verifying qa m, refl)
  main-CanStep (submitting qa) m h b c inv = (_, submit qa m, refl)
  main-CanStep stopping m h b c inv = stopping-CanStep s.jobs m refl
  main-CanStep joining m h true c inv = (_, finish_cancelled m c, refl)
  main-CanStep joining m h false c inv = joining-CanStep s.slurper m refl (inv c).0 (inv c).1
  main-CanStep ended m h b c inv = absurd (h refl)

-- From every state reached, cancelled or not, the run can go on until `Verify` has returned, by steps
-- that do not end the context, and no message stops it: each that the Pinger sends is a named
-- address, as the type assertion wants.
pub Reach-CanStep :
    {p : Pinger} {input : List NamedAddressValue} {s : State}
    → All IsPending input
    → Reach p input s
    → s.main ≢ ended
    → (t : State) × Step p s t × (t.cancelled ≡ s.cancelled)
unfolding CanStep
Reach-CanStep {p} {s = s} pending r h =
    main-CanStep p s s.main refl h s.cancelled refl
      (λ c. (Reach-Inv pending r c, Reach-Phases pending r c))

-- The number of steps of a run.
abbrev pub steps : {p : Pinger} {input : List NamedAddressValue} {s : State} → Reach p input s → ℕ
steps start = 0
steps (next r st) = suc (steps r)

Reach-steps_left :
    {p : Pinger} {input : List NamedAddressValue} {s : State} (r : Reach p input s)
    → steps r + steps_left s ≤ 6 * length input + 5
Reach-steps_left start = omega arith
Reach-steps_left (next r st) = omega (arith, Step-steps_left st, Reach-steps_left r)

-- No run, cancelled or not, has more than six steps for each element of the input and five more.
pub Reach-steps :
    {p : Pinger} {input : List NamedAddressValue} {s : State} (r : Reach p input s)
    → steps r ≤ 6 * length input + 5
Reach-steps r = omega (arith, Reach-steps_left r)
