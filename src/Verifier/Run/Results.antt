-- ===== src/Verifier/Run/Results.antt =====
-- What `Verify` achieves in every interleaving that is not cancelled.
use mobydig.Prelude.{
  All, List, Option-cases, Text, [], ap, arith, false, inl, inr, refl, some, subst, true, ◌≡◌, ◌≢◌,
}
use mobydig.Dig.AddrMap.View.{view}
use mobydig.Ping.{Pinger}
use mobydig.Prelude.Dict.{lookup}
use mobydig.Types.Addr.{NamedAddressValue}
use mobydig.Types.Quality.{Quality, is_verdict}
use mobydig.Verifier.AddrCache.Delivery.{Served}
use mobydig.Verifier.AddrCache.Invariant.{cached}
use mobydig.Verifier.Run.{
  Reach, State, Step, cancel, ended, finished, next, start, take_address, take_message,
}
use mobydig.Verifier.Run.Delivery.{Delivered, Step-Delivered, client, has_pair, init-Delivered}
use mobydig.Verifier.Run.Invariant.{Inv, IsPending, init-Inv}
use mobydig.Verifier.Run.Phases.{Phases, Step-Phases, init-Phases}
use mobydig.Verifier.Run.Preservation.{Step-Inv}
use mobydig.Verifier.Run.Tokens.{main_tokens, open_count, tokens, verdict_tokens}

-- An ended context stays ended.
pub Step-cancelled :
    {p : Pinger} {s t : State} → Step p s t → t.cancelled ≡ false → s.cancelled ≡ false
unfolding take_address take_message
Step-cancelled (cancel x) c = cc
Step-cancelled _ c = c

told :
    (s : State) (n a : Text)
    → Delivered n a s
    → s.input ≡ []
    → open_count (cached s.cache a) ≡ 0
    → (q : Quality) × (is_verdict q ≡ true)
      × (cached s.cache a ≡ some q)
      × (view (client s) n a ≡ some q)
unfolding cached has_pair
told s n a d taken counts = elim d.served [
  | inl asked ↦ cc (ap (has_pair n a) taken)
  | inr known ↦ elim (Option-cases (lookup a s.cache)) [
    | inl l ↦ absurd (subst (λ o. Served n o (view (client s) n a)) l known)
    | inr (qc, l) ↦ (
      qc.q,
      ground arith,
      rw (l, cached) refl,
      (subst (λ o. Served n o (view (client s) n a)) l known).0,
    )
  ]
]

module _ {p : Pinger} {input : List NamedAddressValue} (pending : All IsPending input) where
  pub Reach-Inv : {s : State} → Reach p input s → s.cancelled ≡ false → Inv s
  Reach-Inv start c = init-Inv input pending
  Reach-Inv (next r st) c = Step-Inv st c (Reach-Inv r (Step-cancelled st c))

  pub Reach-Phases : {s : State} → Reach p input s → s.cancelled ≡ false → Phases s
  Reach-Phases start c = init-Phases input
  Reach-Phases (next r st) c = Step-Phases st c (Reach-Phases r (Step-cancelled st c))

  Reach-Delivered :
      (n a : Text)
      → n ≢ []
      → a ≢ []
      → has_pair n a input ≡ true
      → {s : State} → Reach p input s
      → s.cancelled ≡ false
      → Delivered n a s
  Reach-Delivered n a hn ha asked start c = init-Delivered n a input asked
  Reach-Delivered n a hn ha asked (next r st) c =
      let before = Step-cancelled st c in
      Step-Delivered n a hn ha st c (Reach-Inv r before) (Reach-Delivered n a hn ha asked r before)

  -- When `Verify` has closed the news channel of a run that was not cancelled, all input has been
  -- taken, all jobs have ended, every message of the Pinger has been passed on, and the goroutine
  -- that does so has ended, so that nothing is sent on the closed channel.
  pub Reach-joined :
      {s : State}
      → Reach p input s
      → s.cancelled ≡ false
      → s.main ≡ ended
      → (s.input ≡ []) × (s.jobs ≡ []) × (s.court ≡ []) × (s.slurper ≡ finished)
  Reach-joined r c e = ground (arith, Reach-Phases r c)

  -- If no element of the input has a verdict: in a run that is not cancelled, once Verify has closed
  -- the news channel, a consumer that has kept the news in a map has a verdict for every name and
  -- address that stand together in the input, neither of them empty: the one that the cache holds
  -- for the address, whatever the name.
  pub Reach-verdict :
      {s : State} (n a : Text)
      → Reach p input s
      → s.cancelled ≡ false
      → s.main ≡ ended
      → n ≢ []
      → a ≢ []
      → has_pair n a input ≡ true
      → (q : Quality) × (is_verdict q ≡ true)
        × (cached s.cache a ≡ some q)
        × (view (client s) n a ≡ some q)
  Reach-verdict {s} n a r c e hn ha asked =
      let done = Reach-joined r c e in
      let counts : open_count (cached s.cache a) ≡ 0 = omega (
        arith,
        (Reach-Inv r c).counted a,
        ap (main_tokens a) e,
        ap (tokens a) done.1,
        ap (verdict_tokens a) done.2,
      ) in
      told s n a (Reach-Delivered n a hn ha asked r c) done.0 counts
