-- ===== src/Verifier/Run/Cancel.antt =====
-- What an ended context does to a run.
use mobydig.Prelude.{[], ap, arith, none, refl, ◌++◌, ◌∷◌, ◌≡◌, ◌≢◌}
use mobydig.Ping.{Pinger, announce}
use mobydig.Prelude.Dict.{insert, lookup}
use mobydig.Types.Addr.{
  NamedAddressValue, as_named, named, named_with_new_quality, with_new_quality,
}
use mobydig.Types.Quality.{unverified, verifying}
use mobydig.Verifier.AddrCache.{notify, register, update, update_absent, update_newer}
use mobydig.Verifier.Run.{
  Reach, State, Step, after_update, cancel, drained, drop, ended, finish_cancelled, next,
  send_verifying, slurp, start, stop, submit, take, take_address, take_message,
}

-- After `close(v.news)`, the other goroutine can take a step that sends the named address, now
-- under verification, on the closed channel.
abbrev pub SendsAfterClose : Pinger → NamedAddressValue → State → Type 0
SendsAfterClose p na s =
    (s.main ≡ ended)
    × ((t : State) × Step p s t
        × (t.news ≡ s.news ++ named_with_new_quality na verifying none ∷ []))

-- The name is registered with the address, and told of the quality.
update-verifying :
    (na : NamedAddressValue)
    → na.quality ≡ unverified
    → (update 1 (update 1 [] na).cache (named_with_new_quality na verifying none)).news
      ≡ named_with_new_quality na verifying none ∷ []
unfolding update update_absent update_newer named_with_new_quality register notify lookup insert
update-verifying na unverified_yet = ground (arith, unverified_yet)

-- Whatever named address with a non-empty IP and of quality unverified the input holds alone, a run
-- that is cancelled while it is verified can close the news channel in a state in which the other
-- goroutine can take a message whose `Update` sends the named address, now of quality verifying, on
-- the closed channel.
pub Reach-SendsAfterClose :
    (p : Pinger) (na : NamedAddressValue)
    → na.address ≢ []
    → na.quality ≡ unverified
    → (s : State) × Reach p (na ∷ []) s × SendsAfterClose p na s
unfolding take_address take_message update update_absent after_update announce with_new_quality
    as_named mobydig.Prelude.Dict.lookup
Reach-SendsAfterClose p na not_empty unverified_yet =
    let taken = next start (take 1 na [] refl refl not_empty (λ _. omega arith)) in
    let under_way = next taken (send_verifying (announce (named na)) refl) in
    let submitted = next under_way (submit (announce (named na)) refl) in
    let stopping_now = next submitted (drained refl refl) in
    let cancelled_now = next stopping_now (cancel refl) in
    let dropped = next cancelled_now (drop [] (announce (named na)) [] refl refl) in
    let stopped = next dropped (stop refl refl) in
    let late =
      slurp 1 (announce (named na)) (named_with_new_quality na verifying none) [] refl refl refl
        (λ e. cc) in
    (
      _,
      next stopped (finish_cancelled refl refl),
      (refl, (_, late, ap (◌++◌ (na ∷ [])) (update-verifying na unverified_yet))),
    )
