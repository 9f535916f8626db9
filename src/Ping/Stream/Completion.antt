-- ===== src/Ping/Stream/Completion.antt =====
-- Every run of a stream can be completed.
use mobydig.Prelude.{
  Bool-cases, List-cases, [], ap, arith, false, if◌then◌else◌, inl, inr, length, length-append,
  refl, suc, true, zero, ℕ, ◌*◌, ◌+◌, ◌<◌, ◌∷◌, ◌≡◌,
}
use mobydig.Ping.{Pinger, Surroundings}
use mobydig.Ping.Stream.{
  Stage, State, Step, hand_over, handing_over, input_closed, judge, notice, noticing, over, receive,
  receiving, stop_pool,
}

-- One state leads to another by some steps.
pub data Leads (p : Pinger) : State → State → Type 0 where
  stays : {s : State} → Leads p s s
  goes : {s t u : State} → Step p s t → Leads p t u → Leads p s u

abbrev stage_left : Stage → ℕ
stage_left receiving = 1
stage_left (noticing qa) = 4
stage_left (handing_over qa) = 3
stage_left over = 0

abbrev left : State → ℕ
left s = 4 * length s.addrs + stage_left s.stage + length s.jobs + (if s.court_closed then 0 else 1)

abbrev Advances : Pinger → State → Type 0
Advances p s = (t : State) × Step p s t × (left t < left s)

module _ {p : Pinger} (env : Surroundings) where
  -- Of several steps this takes that of the loop.
  advance_by : (s : State) (stage : Stage) → s.stage ≡ stage → s.court_closed ≡ false → Advances p s
  advance_by s receiving e c = elim (List-cases s.addrs) [
    | inl a ↦ (_, input_closed e a, omega (arith, ap stage_left e))
    | inr (qa, rest, a) ↦ (_, receive qa rest e a, omega (arith, ap stage_left e, ap length a))
  ]
  advance_by s (noticing qa) e c = (_, notice qa e, omega (arith, ap stage_left e))
  advance_by s (handing_over qa) e c =
      (_, hand_over qa e, omega (arith, ap stage_left e, length-append s.jobs (qa ∷ [])))
  advance_by s over e c = elim (List-cases s.jobs) [
    | inl j ↦ (_, stop_pool e j c, ground (arith, c))
    | inr (qa, rest, j) ↦ (_, judge env [] qa rest j, omega (arith, ap length j))
  ]

  complete :
      (fuel : ℕ) (s : State) → left s < fuel → (t : State) × Leads p s t × (t.court_closed ≡ true)
  complete zero s h = absurd (omega (arith, h))
  complete (suc fuel) s h = elim (Bool-cases s.court_closed) [
    | inl c ↦ (s, stays, c)
    | inr c ↦
        let (t, st, lt) = advance_by s s.stage refl c in
        let (u, leads, shut) = complete fuel t (omega (arith, h, lt)) in (u, goes st leads, shut)
  ]

-- Whatever the jobs are all answered, every state, whether or not the context has ended, leads to one in
-- which StopWait has closed the channel.
Leads-closed :
    (p : Pinger) (env : Surroundings) (s : State)
    → (t : State) × Leads p s t × (t.court_closed ≡ true)
Leads-closed p env s = complete env (suc (left s)) s (omega arith)
