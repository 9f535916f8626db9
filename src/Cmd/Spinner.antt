-- ===== src/Cmd/Spinner.antt =====
-- cmd/mobydig/spinner.go. A tick and a call of Spinner run under the mutex, and are one step each.
use mobydig.Prelude.{
  Bool, List, Option, Text, [], arith, false, get_elem?, if◌then◌else◌, length, ltb, none, some,
  suc, true, ℕ, ◌%◌, ◌+◌, ◌∷◌, ◌≡◌,
}

-- The runes of the literal, in UTF-8, each with a space.
abbrev braille : ℕ → Text
braille c = 0xe2 ∷ 0xa0 ∷ c ∷ 32 ∷ []

pub record SpinnerState : Type 0 where
  pub phases : List Text
  pub phase : ℕ
  pub done : Bool  -- whether the channel is closed
  pub ended : Bool  -- whether the goroutine has returned

-- newSpinner and Start
unfoldable pub new_spinner : SpinnerState
new_spinner = record {
  phases =
      braille 0x89 ∷ braille 0x98 ∷ braille 0xb0 ∷ braille 0xa4 ∷ braille 0x86 ∷ braille 0x83 ∷ [];
  phase = 0;
  done = false;
  ended = false;
}

-- Spinner; `none` is the panic of an index out of range.
unfoldable pub spinner : SpinnerState → Option Text
spinner s = get_elem? s.phases s.phase

-- A tick of the goroutine.
unfoldable pub tick : SpinnerState → SpinnerState
tick s =
    if ltb (s.phase + 1) (length s.phases)
    then record s { phase = s.phase + 1 }
    else record s { phase = 0 }

-- The goroutine at its select, which may take a tick though `done` is closed.
pub data SpinnerStep (s : SpinnerState) : SpinnerState → Type 0 where
  ticks : s.ended ≡ false → SpinnerStep s (tick s)
  quits : s.ended ≡ false → s.done ≡ true → SpinnerStep s (record s { ended = true })

-- Stop; `none` is the panic of a second close.
unfoldable pub stop : SpinnerState → Option SpinnerState
stop s = if s.done then none else some (record s { done = true })

pub tick-done : (s : SpinnerState) → (tick s).done ≡ s.done
unfolding tick
tick-done s = ground arith

pub stop-done : (s t : SpinnerState) → stop s ≡ some t → (t.done ≡ true) × (t.ended ≡ s.ended)
unfolding stop
stop-done s t e = ground (arith, e)

pub data Spins : SpinnerState → Type 0 where
  fresh : Spins new_spinner
  turned : {s t : SpinnerState} → Spins s → SpinnerStep s t → Spins t
  stopped : {s t : SpinnerState} → Spins s → stop s ≡ some t → Spins t

-- How often it has ticked.
abbrev pub tick_count : {s : SpinnerState} → Spins s → ℕ
tick_count fresh = 0
tick_count (turned r (ticks on)) = suc (tick_count r)
tick_count (turned r (quits on told)) = tick_count r
tick_count (stopped r e) = tick_count r

pub record IsInPhase (n : ℕ) (s : SpinnerState) : Type 0 where
  pub six : length s.phases ≡ 6
  pub at_phase : s.phase ≡ n % 6
