-- ===== src/Tests/Run.antt =====
-- verifier/verifier.go: a run with two names for one address.
use mobydig.Prelude.{
  All, List, [], arith, false, has, length, none, refl, some, text_discrete, true, ◌*◌, ◌+◌, ◌∷◌,
  ◌≡◌, ◌≤◌,
}
use mobydig.Dig.AddrMap.View.{view}
use mobydig.Ping.{Pinger, Surroundings, announce, verdict}
use mobydig.Prelude.Dict.{insert, lookup}
use mobydig.Tests.Samples.{at, bar, foo, ten, text-ne}
use mobydig.Types.Addr.{NamedAddressValue, as_named, named, with_new_quality}
use mobydig.Types.Quality.{Quality, is_verdict, unverified, verified, verifying}
use mobydig.Verifier.AddrCache.{update}
use mobydig.Verifier.AddrCache.Invariant.{cached}
use mobydig.Verifier.AddrCache.Sources.{IsSourced}
use mobydig.Verifier.Run.{
  Reach, State, Step, after_update, decide, drained, ended, finish, init, next, send_verifying,
  slurp, slurp_closed, start, stop, submit, take, take_address, take_message,
}
use mobydig.Verifier.Run.Cancel.{Reach-SendsAfterClose, SendsAfterClose}
use mobydig.Verifier.Run.Delivery.{client, has_pair}
use mobydig.Verifier.Run.Ending.{Reach-CanStep, Reach-steps, steps}
use mobydig.Verifier.Run.Invariant.{IsPending}
use mobydig.Verifier.Run.Once.{Reach-validations, validations}
use mobydig.Verifier.Run.Results.{Reach-verdict}
use mobydig.Verifier.Run.Sources.{IsMessage, judgements}
use mobydig.Verifier.Run.Told.{IsGiven, IsJudged, Reach-IsMessage, Reach-told}

abbrev defaults : Pinger
defaults = record {
  count = 3;
  interval = 1000000000;
  threshold_percentage = 50;
  unprivileged = false;
  netns = none;
}

abbrev answered : Surroundings
answered = record {
  ended_before = none;
  switch_error = λ _. none;
  run_error = λ _. none;
  ended_after = none;
  packets_recv = λ _. 3;
}

abbrev two_names : List NamedAddressValue
two_names = at foo ten unverified ∷ at bar ten unverified ∷ []

record Ended : Type 0 where
  last : State
  reach : Reach defaults two_names last
  uncancelled : last.cancelled ≡ false
  is_ended : last.main ≡ ended

-- The first name is taken and its address submitted, the second taken; then the verdict comes.
whole_run : Ended
unfolding take_address take_message update lookup insert text_discrete after_update announce
    with_new_quality as_named verdict has
whole_run =
    let foo_qa = announce (named (at foo ten unverified)) in
    let r1 = next start (take 1 _ _ refl refl (text-ne _ _) (λ _. omega arith)) in
    let r2 = next r1 (send_verifying foo_qa refl) in
    let r3 = next r2 (submit foo_qa refl) in
    let r4 = next r3 (take 2 _ _ refl refl (text-ne _ _) (λ _. omega arith)) in
    let r5 = next r4 (slurp 3 _ (at foo ten verifying) _ refl refl refl (λ _. omega arith)) in
    let r6 = next r5 (drained refl refl) in
    let r7 = next r6 (decide answered [] foo_qa [] refl) in
    let r8 = next r7 (slurp 3 _ (at foo ten verified) _ refl refl refl (λ _. omega arith)) in
    let r9 = next r8 (stop refl refl) in
    let r10 = next r9 (slurp_closed refl refl refl) in
    record { last = _; reach = next r10 (finish refl refl); uncancelled = refl; is_ended = refl }

two_names-IsPending : All IsPending two_names
two_names-IsPending = (refl, (refl, tt))

Reach-verdict_example :
    (q : Quality) × (is_verdict q ≡ true)
    × (cached whole_run.last.cache ten ≡ some q)
    × (view (client whole_run.last) bar ten ≡ some q)
unfolding has_pair text_discrete
Reach-verdict_example =
    Reach-verdict two_names-IsPending bar ten whole_run.reach whole_run.uncancelled
      whole_run.is_ended (text-ne _ _) (text-ne _ _) refl

Reach-CanStep_example : (t : State) × Step defaults (init two_names) t × (t.cancelled ≡ false)
Reach-CanStep_example = Reach-CanStep two_names-IsPending start (λ e. cc)

Reach-steps_example : steps whole_run.reach ≤ 6 * length two_names + 5
Reach-steps_example = Reach-steps whole_run.reach

Reach-validations_example : validations ten whole_run.reach ≤ 1
Reach-validations_example = Reach-validations ten whole_run.reach

Reach-SendsAfterClose_example :
    (s : State) × Reach defaults (at foo ten unverified ∷ []) s
    × SendsAfterClose defaults (at foo ten unverified) s
Reach-SendsAfterClose_example =
    Reach-SendsAfterClose defaults (at foo ten unverified) (text-ne _ _) refl

Reach-told_example :
    All (IsSourced (IsGiven two_names) (IsJudged (judgements whole_run.reach))) whole_run.last.news
Reach-told_example = Reach-told two_names-IsPending whole_run.reach

record Begun : Type 0 where
  last : State
  reach : Reach defaults two_names last
  one_message : length last.court ≡ 1

-- The notice of the first address is in the channel of the Pinger.
noticed_run : Begun
unfolding take_address take_message update lookup insert text_discrete after_update announce
    with_new_quality
noticed_run =
    let foo_qa = announce (named (at foo ten unverified)) in
    let r1 = next start (take 1 _ _ refl refl (text-ne _ _) (λ _. omega arith)) in
    record { last = _; reach = next r1 (send_verifying foo_qa refl); one_message = refl }

Reach-IsMessage_example :
    All
      (IsMessage (IsGiven two_names) (IsJudged (judgements noticed_run.reach)))
      noticed_run.last.court
Reach-IsMessage_example = Reach-IsMessage two_names-IsPending noticed_run.reach
