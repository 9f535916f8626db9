-- ===== src/Ping/Verdict.antt =====
-- The verdict of one validation, against the list of what may go wrong.
use mobydig.Prelude.{
  List, Text, [], arith, if◌then◌else◌, ltb, none, refl, some, ◌*◌, ◌++◌, ◌<◌, ◌∙◌, ◌∷◌, ◌≡◌,
}
use mobydig.Ping.{
  Pinger, Surroundings, no_replies, ping_in_namespace, plain_address, request, required, settle,
  verdict,
}
use mobydig.Ping.Threshold.{required-eq-zero}
use mobydig.Types.Addr.{Error, QualifiedAddress, addr, err_of, named, plain, qual, with_new_quality}
use mobydig.Types.Quality.{Quality, invalid, verified}

-- Too few replies.
unfoldable pub shortage : Pinger → Surroundings → Text → Error
shortage p env a =
    if ltb (env.packets_recv (request p a)) (required p.count p.threshold_percentage)
    then some no_replies
    else none

unfoldable pub switch_failure : Pinger → Surroundings → Error
switch_failure p env = elim p.netns [ none ↦ none | some netnsref ↦ env.switch_error netnsref ]

-- What may go wrong, in the order in which it is found.
unfoldable pub obstacles : Pinger → Surroundings → Text → List Error
unfolding shortage switch_failure
obstacles p env a =
    switch_failure p env
    ∷ env.ended_before
    ∷ env.run_error (request p a)
    ∷ env.ended_after
    ∷ shortage p env a
    ∷ []

unfoldable pub first_error : List Error → Error
first_error [] = none
first_error (none ∷ errors) = first_error errors
first_error (some e ∷ errors) = some e

abbrev pub quality_of : Error → Quality
quality_of none = verified
quality_of (some e) = invalid

-- The job after its first statement.
settle-ping :
    (p : Pinger) (env : Surroundings) (qa : QualifiedAddress)
    → qual qa ≡ invalid
    → let e = first_error (obstacles p env (addr qa)) in
      settle (ping_in_namespace p env qa) ≡ with_new_quality qa (quality_of e) e
unfolding ping_in_namespace settle first_error obstacles addr with_new_quality qual
settle-ping p env (named na) q = ground arith
settle-ping p env (plain v) q = ground arith

pub addr-with_new_quality :
    (qa : QualifiedAddress) (q : Quality) (e : Error) → addr (with_new_quality qa q e) ≡ addr qa
unfolding addr with_new_quality
addr-with_new_quality (plain v) q e = refl
addr-with_new_quality (named v) q e = refl

pub qual-with_new_quality :
    (qa : QualifiedAddress) (q : Quality) (e : Error) → qual (with_new_quality qa q e) ≡ q
unfolding qual with_new_quality
qual-with_new_quality (plain v) q e = refl
qual-with_new_quality (named v) q e = refl

with_new_quality_twice :
    (qa : QualifiedAddress) (q r : Quality) (d e : Error)
    → with_new_quality (with_new_quality qa q d) r e ≡ with_new_quality qa r e
unfolding with_new_quality
with_new_quality_twice (plain v) q r d e = refl
with_new_quality_twice (named v) q r d e = refl

-- The verdict is Verified if nothing goes wrong, and otherwise Invalid with the first error: the
-- failed switch into the namespace, a context that has ended before, a failed run, a context that
-- has ended after it, or too few replies. Name and address are those of the address submitted.
pub verdict_lem :
    (p : Pinger) (env : Surroundings) (qa : QualifiedAddress)
    → let e = first_error (obstacles p env (addr qa)) in
      verdict p env qa ≡ with_new_quality qa (quality_of e) e
unfolding verdict
verdict_lem p env qa =
    let start = with_new_quality qa invalid none in
    settle-ping p env start (qual-with_new_quality qa invalid none)
    ∙ rw (addr-with_new_quality qa invalid none, with_new_quality_twice)

-- Whatever goes wrong, the verdict on an address submitted to `Validate` carries no error.
pub verdict-plain_address-err :
    (p : Pinger) (env : Surroundings) (a : Text) → err_of (verdict p env (plain_address a)) ≡ none
unfolding err_of plain_address with_new_quality
verdict-plain_address-err p env a = rw (verdict_lem p env (plain_address a))

first_error-append :
    (xs : List Error) (e : Error)
    → first_error xs ≡ none
    → first_error (xs ++ e ∷ []) ≡ first_error (e ∷ [])
unfolding first_error
first_error-append [] e h = refl
first_error-append (none ∷ xs) e h = first_error-append xs e h
first_error-append (some x ∷ xs) e h = cc

-- An address is verified though no ping was answered, if nothing else goes wrong and the number of
-- pings times the percentage is below one hundred.
verdict_without_replies :
    (p : Pinger) (env : Surroundings) (qa : QualifiedAddress)
    → p.count * p.threshold_percentage < 100
    → first_error (
        switch_failure p env
        ∷ env.ended_before
        ∷ env.run_error (request p (addr qa))
        ∷ env.ended_after
        ∷ [])
      ≡ none
    → env.packets_recv (request p (addr qa)) ≡ 0
    → verdict p env qa ≡ with_new_quality qa verified none
unfolding obstacles shortage first_error
verdict_without_replies p env qa low fine silent = verdict_lem p env qa ∙ rw clear
  where
    clear : first_error (obstacles p env (addr qa)) ≡ none
    clear =
        first_error-append
          (switch_failure p env
            ∷ env.ended_before
            ∷ env.run_error (request p (addr qa))
            ∷ env.ended_after
            ∷ [])
          (shortage p env (addr qa)) fine
        ∙ ground (arith, required-eq-zero p.count p.threshold_percentage low)
