-- ===== src/Verifier/Run/Told.antt =====
-- Nothing that verifier/verifier.go sends is made up.
use mobydig.Prelude.{
  All, All-map, All-split, All-zip, Any, List, Text, [], false, inl, inr, refl, ◌∷◌, ◌≡◌, ◌⊎◌,
}
use mobydig.Ping.{Pinger}
use mobydig.Types.Addr.{NamedAddressValue}
use mobydig.Types.Quality.{Quality, is_verdict}
use mobydig.Verifier.AddrCache.Sources.{IsSourced}
use mobydig.Verifier.Run.{Reach, State, next, start}
use mobydig.Verifier.Run.Invariant.{IsPending}
use mobydig.Verifier.Run.Sources.{
  IsMessage, Sources, Step-Sources, init-Sources, judged, judgements,
}

-- A verdict on an address is one of these.
abbrev pub IsJudged : List (Text × Quality) → Text → Quality → Type 0
IsJudged js a q = (is_verdict q ≡ false) ⊎ Any (λ j. j ≡ (a, q)) js

-- The name stands with the address in the input.
abbrev pub IsGiven : List NamedAddressValue → Text → Text → Type 0
IsGiven input n a = Any (λ na. (na.fqdn ≡ n) × (na.address ≡ a)) input

All-IsGiven : (input : List NamedAddressValue) → All (λ na. IsGiven input na.fqdn na.address) input
All-IsGiven [] = tt
All-IsGiven (na ∷ input) = (inl (refl, refl), All-map (λ nb h. inr h) input (All-IsGiven input))

pub All-IsJudged : (js : List (Text × Quality)) → All (λ j. Any (λ k. k ≡ j) js) js
All-IsJudged [] = tt
All-IsJudged (j ∷ js) = (inl refl, All-map (λ k h. inr h) js (All-IsJudged js))

Reach-Sources :
    {p : Pinger} {input : List NamedAddressValue} {s : State} (P : Text → Text → Type 0)
    (R : Text → Quality → Type 0)
    → ((a : Text) (q : Quality) → is_verdict q ≡ false → R a q)
    → All (IsSourced P R) input
    → (r : Reach p input s) → All (λ (j : Text × Quality). R j.0 j.1) (judgements r)
    → Sources P R s
Reach-Sources {input = input} P R unjudged given start known = init-Sources P R input given
Reach-Sources P R unjudged given (next r st) known =
    let (now, before) = All-split _ (judged st) (judgements r) known in
    Step-Sources P R st unjudged now (Reach-Sources P R unjudged given r before)

module _ {p : Pinger} {input : List NamedAddressValue} {s : State} (pending : All IsPending input)
    (r : Reach p input s) where
  run-Sources : Sources (IsGiven input) (IsJudged (judgements r)) s
  run-Sources =
      let given =
        All-zip (λ na. IsGiven input na.fqdn na.address) IsPending _ (λ na h k. (h, inl k)) input
          (All-IsGiven input) pending in
      Reach-Sources (IsGiven input) (IsJudged (judgements r)) (λ a q h. inl h) given r
        (All-map (λ j h. inr h) (judgements r) (All-IsJudged (judgements r)))

  -- If no element of the input has a verdict: in every run, cancelled or not, each message that
  -- Verify has sent has a name and an address that stand together in the input, and a verdict only
  -- if a job of the Pinger has come to that verdict on the address.
  pub Reach-told : All (IsSourced (IsGiven input) (IsJudged (judgements r))) s.news
  Reach-told = run-Sources.2

  -- If no element of the input has a verdict: in every run, cancelled or not, each message in the
  -- channel of the Pinger is a named address, so that the type assertion of Verify does not panic;
  -- and its name and address come from the input, and its verdict, if it has one, from a job.
  pub Reach-IsMessage : All (IsMessage (IsGiven input) (IsJudged (judgements r))) s.court
  Reach-IsMessage = run-Sources.3
