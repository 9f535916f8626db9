-- ===== src/Ping/Stream/Messages.antt =====
-- The notices and verdicts about an address, by their number.
-- Is the message about the address?
use mobydig.Prelude.{
  List, Text, [], ap, arith, if◌then◌else◌, ite, none, refl, text_discrete, true, ℕ, ◌++◌, ◌+◌, ◌∙◌,
  ◌∷◌, ◌≡◌,
}
use mobydig.Ping.{Pinger, Surroundings, announce, verdict}
use mobydig.Ping.Verdict.{
  addr-with_new_quality, first_error, obstacles, qual-with_new_quality, quality_of, verdict_lem,
}
use mobydig.Types.Addr.{QualifiedAddress, addr, qual}
use mobydig.Types.Quality.{is_verdict, verifying}

abbrev pub about : Text → QualifiedAddress → ℕ
about a qa = ite (text_discrete (addr qa) a) 1 0

-- Messages without a verdict, and messages with one.
abbrev pub notices_of : Text → QualifiedAddress → ℕ
notices_of a qa = if is_verdict (qual qa) then 0 else about a qa

abbrev pub verdicts_of : Text → QualifiedAddress → ℕ
verdicts_of a qa = if is_verdict (qual qa) then about a qa else 0

abbrev pub sum : (QualifiedAddress → ℕ) → List QualifiedAddress → ℕ
sum f [] = 0
sum f (qa ∷ qas) = f qa + sum f qas

pub sum-append :
    (f : QualifiedAddress → ℕ) (xs ys : List QualifiedAddress)
    → sum f (xs ++ ys) ≡ sum f xs + sum f ys
sum-append f [] ys = omega arith
sum-append f (x ∷ xs) ys = omega (arith, sum-append f xs ys)

pub sum-remove :
    (f : QualifiedAddress → ℕ) (before : List QualifiedAddress) (qa : QualifiedAddress)
    (after : List QualifiedAddress)
    → sum f (before ++ qa ∷ after) ≡ sum f (before ++ after) + f qa
sum-remove f before qa after =
    omega (arith, sum-append f before (qa ∷ after), sum-append f before after)

announce-addr : (qa : QualifiedAddress) → addr (announce qa) ≡ addr qa
unfolding announce
announce-addr qa = addr-with_new_quality qa verifying none

pub about-announce : (a : Text) (qa : QualifiedAddress) → about a (announce qa) ≡ about a qa
about-announce a qa = rw (announce-addr qa) refl

-- A notice is counted as such, and not as a verdict.
pub pending_lem :
    (a : Text) (qa : QualifiedAddress)
    → qual qa ≡ verifying
    → (notices_of a qa ≡ about a qa) × (verdicts_of a qa ≡ 0)
pending_lem a qa h = rw h (refl, refl)

module _ (p : Pinger) (env : Surroundings) (qa : QualifiedAddress) where
  verdict-addr : addr (verdict p env qa) ≡ addr qa
  verdict-addr =
      let e = first_error (obstacles p env (addr qa)) in
      ap addr (verdict_lem p env qa) ∙ addr-with_new_quality qa (quality_of e) e

  verdict-is_verdict : is_verdict (qual (verdict p env qa)) ≡ true
  verdict-is_verdict =
      let e = first_error (obstacles p env (addr qa)) in
      rw (verdict_lem p env qa, qual-with_new_quality qa (quality_of e) e) (ground arith)

pub judged_lem :
    (p : Pinger) (env : Surroundings) (a : Text) (qa : QualifiedAddress)
    → (notices_of a (verdict p env qa) ≡ 0) × (verdicts_of a (verdict p env qa) ≡ about a qa)
judged_lem p env a qa = rw (verdict-is_verdict p env qa, verdict-addr p env qa) (refl, refl)
