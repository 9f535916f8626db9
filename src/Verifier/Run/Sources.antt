-- ===== src/Verifier/Run/Sources.antt =====
-- What Verify of verifier/verifier.go sends is made of its input and of the verdicts of the Pinger.
use mobydig.Prelude.{
  All, All-append, All-remove, All-snoc, Bool, List, Text, [], ap, false, none, refl, some, subst,
  sym, true, ℕ, ◌++◌, ◌∙◌, ◌∷◌, ◌≡◌,
}
use mobydig.Ping.{Pinger, Surroundings, announce, verdict}
use mobydig.Ping.Verdict.{first_error, obstacles, qual-with_new_quality, quality_of, verdict_lem}
use mobydig.Prelude.Dict.{Entries}
use mobydig.Types.Addr.{
  Error, NamedAddressValue, QualifiedAddress, addr, as_named, named, named_with_new_quality, plain,
  qual, with_new_quality,
}
use mobydig.Types.Quality.{Quality, is_verdict, verifying}
use mobydig.Verifier.AddrCache.{update}
use mobydig.Verifier.AddrCache.Sources.{IsEntrySourced, IsSourced, update-IsUpdateSourced}
use mobydig.Verifier.Run.{
  Main, Reach, State, Step, abandon, after_update, cancel, decide, drained, drop, finish,
  finish_cancelled, init, leave, next, pass, pass_cancelled, send_verifying, slurp, slurp_cancelled,
  slurp_closed, start, stop, submit, submitting, take, take_address, take_message, validating,
}

-- The verdict that a step comes to, with its address.
abbrev pub judged : {p : Pinger} {s t : State} → Step p s t → List (Text × Quality)
judged {p} (decide env before qa after e) = (addr qa, qual (verdict p env qa)) ∷ []
judged _ = []

-- A message or a job passes the type assertion.
abbrev pub IsMessage :
    (Text → Text → Type 0) → (Text → Quality → Type 0) → QualifiedAddress → Type 0
IsMessage P R qa = (na : NamedAddressValue) × (as_named qa ≡ some na) × IsSourced P R na

-- So does what Verify is about to submit.
abbrev IsBusy : (Text → Text → Type 0) → (Text → Quality → Type 0) → Main → Type 0
IsBusy P R (validating qa) = IsMessage P R qa
IsBusy P R (submitting qa) = IsMessage P R qa
IsBusy P R _ = Unit

abbrev pub Sources : (Text → Text → Type 0) → (Text → Quality → Type 0) → State → Type 0
Sources P R s =
    All (IsSourced P R) s.input
    × Entries (IsEntrySourced P R) s.cache
    × All (IsSourced P R) s.news
    × All (IsMessage P R) s.court
    × All (IsMessage P R) s.jobs
    × IsBusy P R s.main

module _ (P : Text → Text → Type 0) (R : Text → Quality → Type 0) where
  with_new_quality-IsMessage :
      (qa : QualifiedAddress) (q : Quality) (err : Error)
      → R (addr qa) q
      → IsMessage P R qa
      → IsMessage P R (with_new_quality qa q err)
  unfolding with_new_quality as_named addr named_with_new_quality
  with_new_quality-IsMessage (plain v) q err r (na, e, h) = cc
  with_new_quality-IsMessage (named nb) q err r (na, e, (s, _)) =
      let same : nb ≡ na = cc in (_, refl, (subst (λ x. P x.fqdn x.address) (sym same) s, r))

  after_update-IsBusy :
      (b : Bool) (na : NamedAddressValue)
      → R na.address verifying
      → IsSourced P R na
      → IsBusy P R (after_update b na)
  unfolding after_update announce as_named addr
  after_update-IsBusy true na r h =
      with_new_quality-IsMessage (named na) verifying none r (na, refl, h)
  after_update-IsBusy false na r h = tt

  verdict-IsMessage :
      (p : Pinger) (env : Surroundings) (qa : QualifiedAddress)
      → R (addr qa) (qual (verdict p env qa))
      → IsMessage P R qa
      → IsMessage P R (verdict p env qa)
  verdict-IsMessage p env qa r h =
      let e = first_error (obstacles p env (addr qa)) in
      let decided : verdict p env qa ≡ with_new_quality qa (quality_of e) e =
        verdict_lem p env qa in
      let same : qual (verdict p env qa) ≡ quality_of e =
        ap qual decided ∙ qual-with_new_quality qa (quality_of e) e in
      subst (IsMessage P R) (sym decided)
        (with_new_quality-IsMessage qa (quality_of e) e (subst (R (addr qa)) same r) h)

  take-Sources :
      (room : ℕ) (s : State) (na : NamedAddressValue) (rest : List NamedAddressValue)
      → R na.address verifying
      → s.input ≡ na ∷ rest
      → Sources P R s
      → Sources P R (take_address room s na rest)
  unfolding take_address
  take-Sources room s na rest r e (input, cache, news, court, jobs, _) =
      let (now, later) = subst (All (IsSourced P R)) e input in
      let (kept, told) = update-IsUpdateSourced P R room s.cache na cache now in
      (
        later,
        kept,
        All-append (IsSourced P R) s.news _ news told,
        court,
        jobs,
        after_update-IsBusy (update room s.cache na).is_new na r now,
      )

  slurp-Sources :
      (room : ℕ) (s : State) (qa : QualifiedAddress) (na : NamedAddressValue)
      (rest : List QualifiedAddress)
      → s.court ≡ qa ∷ rest
      → as_named qa ≡ some na
      → Sources P R s
      → Sources P R (take_message room s na rest)
  unfolding take_message
  slurp-Sources room s qa na rest e named_as (input, cache, news, court, jobs, busy) =
      let ((nb, f, k), later) = subst (All (IsMessage P R)) e court in
      let same : nb ≡ na = cc in
      let (kept, told) =
        update-IsUpdateSourced P R room s.cache na cache (subst (IsSourced P R) same k) in
      (input, kept, All-append (IsSourced P R) s.news _ news told, later, jobs, busy)

  -- One step, which may rely on what is known of the verdict that it comes to.
  pub Step-Sources :
      {p : Pinger} {s t : State} (st : Step p s t)
      → ((a : Text) (q : Quality) → is_verdict q ≡ false → R a q)
      → All (λ (j : Text × Quality). R j.0 j.1) (judged st)
      → Sources P R s
      → Sources P R t
  Step-Sources (cancel c) unjudged known h = h
  Step-Sources {s = s} (pass na rest m e a) unjudged known (input, cache, news, court, jobs, busy) =
      let (now, later) = subst (All (IsSourced P R)) e input in
      (later, cache, All-snoc (IsSourced P R) s.news na news now, court, jobs, busy)
  Step-Sources (pass_cancelled na rest m e a c) unjudged known
        (input, cache, news, court, jobs, _) =
      ((subst (All (IsSourced P R)) e input).1, cache, news, court, jobs, tt)
  Step-Sources {s = s} (take room na rest m e a r) unjudged known h =
      take-Sources room s na rest (unjudged na.address verifying refl) e h
  Step-Sources (drained m e) unjudged known h = (h.0, h.1, h.2, h.3, h.4, tt)
  Step-Sources (leave m c) unjudged known h = (h.0, h.1, h.2, h.3, h.4, tt)
  Step-Sources {s = s} (send_verifying qa m) unjudged known
        (input, cache, news, court, jobs, busy) =
      let one : IsMessage P R qa = subst (IsBusy P R) m busy in
      (input, cache, news, All-snoc (IsMessage P R) s.court qa court one, jobs, one)
  Step-Sources (abandon qa m c) unjudged known h = (h.0, h.1, h.2, h.3, h.4, tt)
  Step-Sources {s = s} (submit qa m) unjudged known (input, cache, news, court, jobs, busy) =
      let one : IsMessage P R qa = subst (IsBusy P R) m busy in
      (input, cache, news, court, All-snoc (IsMessage P R) s.jobs qa jobs one, tt)
  Step-Sources {p} {s = s} (decide env before qa after e) unjudged known
        (input, cache, news, court, jobs, busy) =
      let (one, others) =
        All-remove (IsMessage P R) before qa after (subst (All (IsMessage P R)) e jobs) in
      let decided = verdict-IsMessage p env qa known.0 one in
      (input, cache, news, All-snoc (IsMessage P R) s.court _ court decided, others, busy)
  Step-Sources (drop before qa after e c) unjudged known (input, cache, news, court, jobs, busy) =
      let (_, others) =
        All-remove (IsMessage P R) before qa after (subst (All (IsMessage P R)) e jobs) in
      (input, cache, news, court, others, busy)
  Step-Sources (stop m e) unjudged known h = (h.0, h.1, h.2, h.3, h.4, tt)
  Step-Sources {s = s} (slurp room qa na rest l e n r) unjudged known h =
      slurp-Sources room s qa na rest e n h
  Step-Sources (slurp_closed l e o) unjudged known h = h
  Step-Sources (slurp_cancelled l c) unjudged known h = h
  Step-Sources (finish m f) unjudged known h = (h.0, h.1, h.2, h.3, h.4, tt)
  Step-Sources (finish_cancelled m c) unjudged known h = (h.0, h.1, h.2, h.3, h.4, tt)

pub init-Sources :
    (P : Text → Text → Type 0) (R : Text → Quality → Type 0) (input : List NamedAddressValue)
    → All (IsSourced P R) input
    → Sources P R (init input)
init-Sources P R input all = (all, tt, tt, tt, tt, tt)

-- The verdicts that the jobs of a run have come to, the last first.
abbrev pub judgements :
    {p : Pinger} {input : List NamedAddressValue} {s : State}
    → Reach p input s
    → List (Text × Quality)
judgements start = []
judgements (next r st) = judged st ++ judgements r
