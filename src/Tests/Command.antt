-- ===== src/Tests/Command.antt =====
-- cmd/mobydig/cmdroot.go, spinner.go and digging.go.
use mobydig.Prelude.{[], arith, codes, false, max, none, refl, some, true, ℕ, ◌+◌, ◌∷◌, ◌≡◌}
use mobydig.Cmd.Flags.{default_flags, pre_run, pre_run-calm}
use mobydig.Cmd.Spinner.{
  SpinnerState, Spins, fresh, new_spinner, quits, spinner, stop, stopped, tick, tick_count, ticks,
  turned,
}
use mobydig.Dig.Digger.{open_workers}
use mobydig.DnsWorker.Dial.{Dialled, conn, in_network_namespace, new}
use mobydig.DnsWorker.Tasks.{Pool, Reach, begin, grab, next, start, submit}

default_flags_pass : pre_run default_flags ≡ none
unfolding pre_run
default_flags_pass = refl

abbrev dial_any : ℕ → Dialled
dial_any i = conn (i + 3)

one_worker_passes : pre_run (record default_flags { worker_number = 1 }) ≡ none
unfolding pre_run
one_worker_passes = refl

one_conn : (open_workers (λ _. none) dial_any 1 (codes "/proc/1/ns/net")).free ≡ some (3 ∷ [])
unfolding open_workers new in_network_namespace
one_conn = refl

-- One task runs.
busy : (p : Pool) × Reach (max 1 1) (3 ∷ []) p
unfolding grab
busy = let r1 = next start (submit refl) in (_, next r1 (begin 0 refl refl (omega arith)))

pre_run-calm_example : busy.0.panicked ≡ false
pre_run-calm_example =
    pre_run-calm (record default_flags { worker_number = 1 }) (codes "/proc/1/ns/net") (λ _. none)
      dial_any (3 ∷ []) one_worker_passes one_conn busy.1

-- Seven ticks go once round.
turning : Spins (tick (tick (tick (tick (tick (tick (tick new_spinner)))))))
unfolding tick new_spinner
turning =
    let three = turned (turned (turned fresh (ticks refl)) (ticks refl)) (ticks refl) in
    let six = turned (turned (turned three (ticks refl)) (ticks refl)) (ticks refl) in
    turned six (ticks refl)

seven_ticks : tick_count turning ≡ 7
unfolding turning
seven_ticks = refl

seventh_text :
    spinner (tick (tick (tick (tick (tick (tick (tick new_spinner)))))))
    ≡ some (0xe2 ∷ 0xa0 ∷ 0x98 ∷ 32 ∷ [])
unfolding spinner tick new_spinner
seventh_text = refl

-- After Stop it may tick once more before it ends.
late_tick : (s : SpinnerState) × Spins s × (s.ended ≡ true) × (s.phase ≡ 1)
unfolding tick new_spinner stop
late_tick =
    let told = stopped fresh refl in
    (_, turned (turned told (ticks refl)) (quits refl refl), refl, refl)
