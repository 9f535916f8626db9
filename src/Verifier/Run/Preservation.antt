-- ===== src/Verifier/Run/Preservation.antt =====
-- Every step of a run that is not cancelled keeps the invariant of the tokens.
use mobydig.Prelude.{
  All, All-remove, All-snoc, Bool, List, Text, [], ap, arith, false, refl, subst, ◌++◌, ◌∙◌, ◌∷◌,
  ◌≡◌,
}
use mobydig.Ping.{Pinger, Surroundings, verdict}
use mobydig.Ping.Verdict.{verdict_lem}
use mobydig.Types.Addr.{NamedAddressValue, QualifiedAddress}
use mobydig.Verifier.Run.{
  Main, State, Step, abandon, cancel, decide, drained, drop, ended, finish, finish_cancelled,
  joining, leave, looping, pass, pass_cancelled, send_verifying, slurp, slurp_cancelled,
  slurp_closed, stop, stopping, submit, submitting, take, validating,
}
use mobydig.Verifier.Run.Counting.{tokens-remove, verdict-token}
use mobydig.Verifier.Run.Invariant.{
  Inv, IsMainKnown, IsPending, named_of_as_named, slurp-Inv, take-Inv,
}
use mobydig.Verifier.Run.Tokens.{
  IsKnown, IsKnown-with_new_quality, main_tokens, tokens, tokens-append, verdict_tokens-append,
}

send-Inv :
    (s : State) (qa : QualifiedAddress)
    → s.main ≡ validating qa
    → Inv s
    → Inv (record s { court = s.court ++ qa ∷ []; main = submitting qa })
send-Inv s qa m inv =
    let known : IsMainKnown s.cache (validating qa) =
      subst (IsMainKnown s.cache) m inv.main_known in
    record {
      counted = λ a. ground (
        arith,
        inv.counted a,
        ap (main_tokens a) m,
        verdict_tokens-append a s.court (qa ∷ []),
        known.1,
      );
      main_known = known.0;
      jobs_known = inv.jobs_known;
      court_known = All-snoc (IsKnown s.cache) s.court qa inv.court_known known.0;
      pending = inv.pending;
    }

submit-Inv :
    (s : State) (qa : QualifiedAddress)
    → s.main ≡ submitting qa
    → Inv s
    → Inv (record s { jobs = s.jobs ++ qa ∷ []; main = looping })
submit-Inv s qa m inv = record {
  counted =
      λ a. omega (arith, inv.counted a, ap (main_tokens a) m, tokens-append a s.jobs (qa ∷ []));
  main_known = tt;
  jobs_known =
      All-snoc (IsKnown s.cache) s.jobs qa inv.jobs_known
        (subst (IsMainKnown s.cache) m inv.main_known);
  court_known = inv.court_known;
  pending = inv.pending;
}

decide-Inv :
    (p : Pinger) (env : Surroundings) (s : State) (before : List QualifiedAddress)
    (qa : QualifiedAddress) (after : List QualifiedAddress)
    → s.jobs ≡ before ++ qa ∷ after
    → Inv s
    → Inv (record s { jobs = before ++ after; court = s.court ++ verdict p env qa ∷ [] })
decide-Inv p env s before qa after e inv =
    let (known, rest) =
      All-remove (IsKnown s.cache) before qa after
        (subst (All (IsKnown s.cache)) e inv.jobs_known) in
    record {
      counted = λ a. omega (
        arith,
        inv.counted a,
        ap (tokens a) e,
        tokens-remove a before qa after,
        verdict_tokens-append a s.court (verdict p env qa ∷ []),
        verdict-token p env a qa,
      );
      main_known = inv.main_known;
      jobs_known = rest;
      court_known =
          All-snoc (IsKnown s.cache) s.court _ inv.court_known
            (rw verdict_lem (IsKnown-with_new_quality s.cache qa _ _ known));
      pending = inv.pending;
    }

-- A step of the goroutine of `Verify` to a place where it holds no token.
idle-Inv :
    (s : State) (main : Main) (input : List NamedAddressValue) (news : List NamedAddressValue)
    (court_open : Bool)
    → ((a : Text) → main_tokens a s.main ≡ main_tokens a main)
    → IsMainKnown s.cache main
    → All IsPending input
    → Inv s
    → Inv (record s { input = input; news = news; court_open = court_open; main = main })
idle-Inv s main input news court_open t k p inv = record {
  counted = λ a. omega (arith, inv.counted a, t a);
  main_known = k;
  jobs_known = inv.jobs_known;
  court_known = inv.court_known;
  pending = p;
}

-- Every step of a run that is not cancelled keeps the invariant.
pub Step-Inv : {p : Pinger} {s t : State} → Step p s t → t.cancelled ≡ false → Inv s → Inv t
Step-Inv (cancel x) c inv = cc
Step-Inv {s = s} (pass na rest m e _) c inv =
    idle-Inv s s.main rest (s.news ++ na ∷ []) s.court_open (λ a. refl) inv.main_known
      (let all : All IsPending (na ∷ rest) = subst (All IsPending) e inv.pending in all.1) inv
Step-Inv (pass_cancelled na rest m e _ d) c inv = cc
Step-Inv {s = s} (take room na rest m e _ _) c inv = take-Inv room s na rest m e inv
Step-Inv {s = s} (drained m e) c inv =
    idle-Inv s stopping s.input s.news s.court_open (λ a. ap (main_tokens a) m) tt inv.pending inv
Step-Inv (leave m d) c inv = cc
Step-Inv {s = s} (send_verifying qa m) c inv = send-Inv s qa m inv
Step-Inv (abandon qa m d) c inv = cc
Step-Inv {s = s} (submit qa m) c inv = submit-Inv s qa m inv
Step-Inv {p} {s = s} (decide env before qa after e) c inv = decide-Inv p env s before qa after e inv
Step-Inv (drop before qa after e d) c inv = cc
Step-Inv {s = s} (stop m e) c inv =
    idle-Inv s joining s.input s.news false (λ a. ap (main_tokens a) m) tt inv.pending inv
Step-Inv {s = s} (slurp room qa na rest _ e n _) c inv =
    slurp-Inv room s na rest (e ∙ ap (λ q. q ∷ rest) (named_of_as_named qa na n)) inv
Step-Inv {s = s} (slurp_closed _ _ _) c inv = record {
  counted = inv.counted;
  main_known = inv.main_known;
  jobs_known = inv.jobs_known;
  court_known = inv.court_known;
  pending = inv.pending;
}
Step-Inv (slurp_cancelled _ d) c inv = cc
Step-Inv {s = s} (finish m _) c inv =
    idle-Inv s ended s.input s.news s.court_open (λ a. ap (main_tokens a) m) tt inv.pending inv
Step-Inv (finish_cancelled m d) c inv = cc
