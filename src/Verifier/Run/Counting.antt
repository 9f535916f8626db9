-- ===== src/Verifier/Run/Counting.antt =====
-- One token for each open address, and every message about a name that waits for it.
use mobydig.Prelude.{List, Text, arith, false, if◌then◌else◌, true, ℕ, ◌++◌, ◌+◌, ◌∷◌, ◌≡◌}
use mobydig.Ping.{Pinger, Surroundings, verdict}
use mobydig.Ping.Verdict.{
  addr-with_new_quality, first_error, obstacles, qual-with_new_quality, quality_of, verdict_lem,
}
use mobydig.Types.Addr.{NamedAddressValue, QualifiedAddress, addr, named}
use mobydig.Types.Quality.{is_verdict}
use mobydig.Verifier.AddrCache.{NamedAddressCache, update}
use mobydig.Verifier.AddrCache.Invariant.{cached, update-cached}
use mobydig.Verifier.Run.Tokens.{open_count, token, tokens, tokens-append, verdict_token}

-- How an `Update` changes the number of open addresses.
module _ (room : ℕ) (c : NamedAddressCache) (na : NamedAddressValue) (a : Text) where
  pub open-update_pending :
      is_verdict na.quality ≡ false
      → let u = update room c na in
        open_count (cached u.cache a)
        ≡ open_count (cached c a) + (if u.is_new then token a (named na) else 0)
  unfolding addr
  open-update_pending pending = ground (arith, update-cached room c na a)

  pub open-update_verdict :
      is_verdict na.quality ≡ true
      → open_count (cached c na.address) ≡ 1
      → open_count (cached (update room c na).cache a) + token a (named na)
        ≡ open_count (cached c a)
  unfolding addr
  open-update_verdict final still_open = ground (arith, update-cached room c na a)

-- The verdict of a job is about the address of the job, and is a verdict.
pub verdict-token :
    (p : Pinger) (env : Surroundings) (a : Text) (qa : QualifiedAddress)
    → verdict_token a (verdict p env qa) ≡ token a qa
verdict-token p env a qa =
    let e = first_error (obstacles p env (addr qa)) in
    rw
      (
        verdict_lem p env qa,
        qual-with_new_quality qa (quality_of e) e,
        addr-with_new_quality qa (quality_of e) e,
      )
      (ground arith)

pub tokens-remove :
    (a : Text) (before : List QualifiedAddress) (qa : QualifiedAddress)
    (after : List QualifiedAddress)
    → tokens a (before ++ qa ∷ after) ≡ tokens a (before ++ after) + token a qa
tokens-remove a before qa after =
    omega (arith, tokens-append a before (qa ∷ after), tokens-append a before after)
