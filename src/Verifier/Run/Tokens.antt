-- ===== src/Verifier/Run/Tokens.antt =====
-- The validations in flight: from the moment that the loop finds a new address until its verdict
-- has been taken from the channel, there is one token for the address.
use mobydig.Prelude.{
  All, List, Option, Text, [], arith, false, has, has-snoc, if◌then◌else◌, inl, ite, none, some,
  text_discrete, true, ℕ, ◌++◌, ◌+◌, ◌∷◌, ◌≡◌, ◌⊎◌,
}
use mobydig.Prelude.Dict.{lookup, lookup-insert}
use mobydig.Types.Addr.{
  Error, NamedAddressValue, QualifiedAddress, addr, named, plain, qual, with_new_quality,
}
use mobydig.Types.Quality.{Quality, is_verdict, qual_le}
use mobydig.Verifier.AddrCache.{
  NamedAddressCache, QualityUpdateConsumers, Updated, add_consumer, register, update, update_absent,
  update_newer, update_stale,
}
use mobydig.Verifier.AddrCache.Delivery.{register_consumers}
use mobydig.Verifier.AddrCache.Invariant.{register-q, update_cases}
use mobydig.Verifier.Run.{Main, submitting, validating}

-- Does a name count as waiting for the verdict on the address of this cache entry?
abbrev pub IsKnownIn : Text → Option QualityUpdateConsumers → Type 0
IsKnownIn n none = ⊥
IsKnownIn n (some qc) = (is_verdict qc.q ≡ true) ⊎ (has n qc.consumers ≡ true)

-- The message or job is about an address that the cache has, under a name registered with it or
-- after its verdict. A plain address is never so.
abbrev pub IsKnown : NamedAddressCache → QualifiedAddress → Type 0
IsKnown c (plain v) = ⊥
IsKnown c (named na) = IsKnownIn na.fqdn (lookup na.address c)

-- One token if the address is the one asked for.
abbrev pub token : Text → QualifiedAddress → ℕ
token a qa = ite (text_discrete (addr qa) a) 1 0

abbrev pub tokens : Text → List QualifiedAddress → ℕ
tokens a [] = 0
tokens a (qa ∷ qas) = token a qa + tokens a qas

-- In the channel only the verdicts are tokens.
abbrev pub verdict_token : Text → QualifiedAddress → ℕ
verdict_token a qa = if is_verdict (qual qa) then token a qa else 0

abbrev pub verdict_tokens : Text → List QualifiedAddress → ℕ
verdict_tokens a [] = 0
verdict_tokens a (qa ∷ qas) = verdict_token a qa + verdict_tokens a qas

abbrev pub main_tokens : Text → Main → ℕ
main_tokens a (validating qa) = token a qa
main_tokens a (submitting qa) = token a qa
main_tokens a _ = 0

-- An address without a verdict is open.
abbrev pub open_count : Option Quality → ℕ
open_count none = 0
open_count (some q) = if is_verdict q then 0 else 1

pub tokens-append :
    (a : Text) (xs ys : List QualifiedAddress) → tokens a (xs ++ ys) ≡ tokens a xs + tokens a ys
tokens-append a [] ys = omega arith
tokens-append a (x ∷ xs) ys = omega (arith, tokens-append a xs ys)

pub verdict_tokens-append :
    (a : Text) (xs ys : List QualifiedAddress)
    → verdict_tokens a (xs ++ ys) ≡ verdict_tokens a xs + verdict_tokens a ys
verdict_tokens-append a [] ys = omega arith
verdict_tokens-append a (x ∷ xs) ys = omega (arith, verdict_tokens-append a xs ys)

-- `Update` keeps what is known, and makes the name and address that it is called with known.
module _ (room : ℕ) (c : NamedAddressCache) (na : NamedAddressValue) (n a : Text) where
  abbrev Keeps : Updated → Type 0
  Keeps u =
      IsKnownIn n (lookup a c) ⊎ ((na.fqdn ≡ n) × (na.address ≡ a)) → IsKnownIn n (lookup a u.cache)

  update_absent-Keeps : lookup na.address c ≡ none → Keeps (update_absent room c na)
  unfolding update_absent has
  update_absent-Keeps e = ground (
    arith,
    e,
    lookup-insert na.address a (record { q = na.quality; err = none; consumers = na.fqdn ∷ [] }) c,
  )

  module _ (qc : QualityUpdateConsumers) (e : lookup na.address c ≡ some qc) where
    update_stale-Keeps : Keeps (update_stale room c na qc)
    unfolding update_stale
    update_stale-Keeps = ground (
      arith,
      e,
      lookup-insert na.address a (add_consumer na.fqdn qc) c,
      has-snoc n na.fqdn qc.consumers,
    )

    update_newer-Keeps : qual_le na.quality qc.q ≡ false → Keeps (update_newer room c na qc)
    unfolding update_newer
    update_newer-Keeps gt =
        let (told, kept) = register_consumers na qc n in
        ground
          (arith, e, told, kept, register-q na qc, lookup-insert na.address a (register na qc).0 c)

  pub update-IsKnownIn :
      IsKnownIn n (lookup a c) ⊎ ((na.fqdn ≡ n) × (na.address ≡ a))
      → IsKnownIn n (lookup a (update room c na).cache)
  update-IsKnownIn =
      update_cases Keeps room c na update_absent-Keeps (λ qc e _. update_stale-Keeps qc e)
        update_newer-Keeps

pub update-IsKnown :
    (room : ℕ) (c : NamedAddressCache) (na : NamedAddressValue) (qa : QualifiedAddress)
    → IsKnown c qa
    → IsKnown (update room c na).cache qa
update-IsKnown room c na (plain v) h = h
update-IsKnown room c na (named nb) h = update-IsKnownIn room c na nb.fqdn nb.address (inl h)

pub update-All-IsKnown :
    (room : ℕ) (c : NamedAddressCache) (na : NamedAddressValue) (qas : List QualifiedAddress)
    → All (IsKnown c) qas
    → All (IsKnown (update room c na).cache) qas
update-All-IsKnown room c na [] h = tt
update-All-IsKnown room c na (qa ∷ qas) h =
    (update-IsKnown room c na qa h.0, update-All-IsKnown room c na qas h.1)

-- A message that keeps the name and the address is as known.
pub IsKnown-with_new_quality :
    (c : NamedAddressCache) (qa : QualifiedAddress) (q : Quality) (e : Error)
    → IsKnown c qa
    → IsKnown c (with_new_quality qa q e)
unfolding with_new_quality
IsKnown-with_new_quality c (plain v) q e h = h
IsKnown-with_new_quality c (named na) q e h = h
