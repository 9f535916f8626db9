-- ===== src/Dig/Digger/Completion.antt =====
-- Every run of a digger can be completed.
use mobydig.Prelude.{
  Bool-cases, List, List-cases, Option, Option-cases, Text, [], ap, arith, false, if◌then◌else◌,
  inl, inr, length, none, refl, some, suc, true, zero, ℕ, ◌++◌, ◌+◌, ◌<◌, ◌∙◌, ◌∷◌, ◌≡◌,
}
use mobydig.Dig.Digger.{
  State, Step, announce, cancel, emit, emit_cancelled, give_up, messages, resolve, sent, stop_wait,
  submit,
}
use mobydig.DnsWorker.Resolve.{DnsEnv}
use mobydig.Types.Addr.{NamedAddressValue}

-- One state leads to another by some steps.
pub data Leads (fqdn : Text → Text) (env : Text → DnsEnv) : State → State → Type 0 where
  stays : {s : State} → Leads fqdn env s s
  goes : {s t u : State} → Step fqdn env s t → Leads fqdn env t u → Leads fqdn env s u

module _ (fqdn : Text → Text) (env : Text → DnsEnv) where
  abbrev weight : Text → ℕ
  weight name = length (messages env name) + 2

  abbrev names_left : List Text → ℕ
  names_left [] = 0
  names_left (name ∷ rest) = weight (fqdn name) + 2 + names_left rest

  abbrev announced_left : Option Text → ℕ
  announced_left none = 0
  announced_left (some name) = weight name + 1

  abbrev queued_left : List Text → ℕ
  queued_left [] = 0
  queued_left (name ∷ rest) = weight name + queued_left rest

  abbrev sending_left : List (List NamedAddressValue) → ℕ
  sending_left [] = 0
  sending_left (nas ∷ rest) = length nas + 1 + sending_left rest

  queued_left-append :
      (xs ys : List Text) → queued_left (xs ++ ys) ≡ queued_left xs + queued_left ys
  queued_left-append [] ys = omega arith
  queued_left-append (x ∷ xs) ys = omega (arith, queued_left-append xs ys)

  sending_left-append :
      (xs ys : List (List NamedAddressValue))
      → sending_left (xs ++ ys) ≡ sending_left xs + sending_left ys
  sending_left-append [] ys = omega arith
  sending_left-append (x ∷ xs) ys = omega (arith, sending_left-append xs ys)

  abbrev pub work_left : State → ℕ
  work_left s =
      names_left s.names
      + announced_left s.announced
      + queued_left s.queued
      + sending_left s.sending
      + (if s.closed then 0 else 1)

  -- Every step of a digger whose context does not end uses up some of what is left.
  pub Step-work_left :
      {s t : State} → Step fqdn env s t → t.cancelled ≡ false → work_left t < work_left s
  Step-work_left (cancel x) on = cc
  Step-work_left (announce name rest i e) on = omega (arith, ap names_left e, ap announced_left i)
  Step-work_left (give_up i x) on = cc
  Step-work_left {s} (submit name i) on =
      omega (arith, ap announced_left i, queued_left-append s.queued (name ∷ []))
  Step-work_left (resolve before name after e) on = omega (
    arith,
    ap queued_left e,
    queued_left-append before (name ∷ after),
    queued_left-append before after,
  )
  Step-work_left (emit before na rest after e) on = omega (
    arith,
    ap sending_left e,
    sending_left-append before ((na ∷ rest) ∷ after),
    sending_left-append before (rest ∷ after),
  )
  Step-work_left (emit_cancelled before nas after e x) on = cc
  Step-work_left (sent before after e) on = omega (
    arith,
    ap sending_left e,
    sending_left-append before ([] ∷ after),
    sending_left-append before after,
  )
  Step-work_left (stop_wait a b c d e) on = ground (arith, e)

  abbrev Advances : State → Type 0
  Advances s =
      (t : State) × Step fqdn env s t × (work_left t < work_left s) × (t.cancelled ≡ s.cancelled)

  -- When nothing is left to announce: the first task, the first callback, or StopWait.
  advance_tasks : (s : State) → s.names ≡ [] → s.announced ≡ none → s.closed ≡ false → Advances s
  advance_tasks s n i c = elim (List-cases s.queued) [
    | inr (name, rest, q) ↦ (_, resolve [] name rest q, omega (arith, ap queued_left q), refl)
    | inl q ↦ elim (List-cases s.sending) [
      | inl e ↦ (_, stop_wait n i q e c, ground (arith, c), refl)
      | inr ([], rest, e) ↦ (_, sent [] rest e, omega (arith, ap sending_left e), refl)
      | inr (na ∷ nas, rest, e) ↦ (_, emit [] na nas rest e, omega (arith, ap sending_left e), refl)
    ]
  ]

  pub advance : (s : State) → s.closed ≡ false → Advances s
  advance s c = elim (Option-cases s.announced) [
    | inr (name, i) ↦ (
      _,
      submit name i,
      omega (arith, ap announced_left i, queued_left-append s.queued (name ∷ [])),
      refl,
    )
    | inl i ↦ elim (List-cases s.names) [
      | inl n ↦ advance_tasks s n i c
      | inr (name, rest, n) ↦
          (_, announce name rest i n, omega (arith, ap names_left n, ap announced_left i), refl)
    ]
  ]

  complete :
      (fuel : ℕ) (s : State)
      → work_left s < fuel
      → (t : State) × Leads fqdn env s t × (t.closed ≡ true) × (t.cancelled ≡ s.cancelled)
  complete zero s h = absurd (omega (arith, h))
  complete (suc fuel) s h = elim (Bool-cases s.closed) [
    | inl c ↦ (s, stays, c, refl)
    | inr c ↦
        let (t, st, lt, same) = advance s c in
        let (u, leads, shut, kept) = complete fuel t (omega (arith, h, lt)) in
        (u, goes st leads, shut, kept ∙ same)
  ]

-- Every state, whether or not the context has ended, leads to one in which StopWait has closed the
-- news channel, by steps that do not end the context.
digger_completes :
    (fqdn : Text → Text) (env : Text → DnsEnv) (s : State)
    → (t : State) × Leads fqdn env s t × (t.closed ≡ true) × (t.cancelled ≡ s.cancelled)
digger_completes fqdn env s = complete fqdn env (suc (work_left fqdn env s)) s (omega arith)
