-- ===== src/Verifier/Run/Invariant.antt =====
-- What holds in every state that a run without cancellation reaches: one token for each open
-- address, and every message is about a name that waits for it.
use mobydig.Prelude.{
  All, Bool, Bool-cases, List, Text, ap, arith, false, if◌then◌else◌, inl, inr, none, refl, some,
  subst, true, ℕ, ◌+◌, ◌∷◌, ◌≡◌, ◌≢◌,
}
use mobydig.Ping.{announce}
use mobydig.Prelude.Dict.{lookup}
use mobydig.Types.Addr.{
  NamedAddressValue, QualifiedAddress, addr, as_named, named, plain, qual, with_new_quality,
}
use mobydig.Types.Quality.{is_verdict}
use mobydig.Verifier.AddrCache.{NamedAddressCache, update}
use mobydig.Verifier.AddrCache.Invariant.{cached, update-cached}
use mobydig.Verifier.Run.{
  Main, State, after_update, ended, init, joining, looping, stopping, submitting, take_address,
  take_message, validating,
}
use mobydig.Verifier.Run.Counting.{open-update_pending, open-update_verdict}
use mobydig.Verifier.Run.Tokens.{
  IsKnown, main_tokens, open_count, token, tokens, update-All-IsKnown, update-IsKnown,
  update-IsKnownIn, verdict_tokens,
}

-- What `validate` is busy with is known, and is not yet a verdict.
abbrev pub IsMainKnown : NamedAddressCache → Main → Type 0
IsMainKnown c (validating qa) = IsKnown c qa × (is_verdict (qual qa) ≡ false)
IsMainKnown c (submitting qa) = IsKnown c qa
IsMainKnown c _ = Unit

abbrev pub IsPending : NamedAddressValue → Type 0
IsPending na = is_verdict na.quality ≡ false

pub record Inv (s : State) : Type 0 where
  pub counted :
      (a : Text)
      → main_tokens a s.main + tokens a s.jobs + verdict_tokens a s.court
        ≡ open_count (cached s.cache a)
  pub main_known : IsMainKnown s.cache s.main
  pub jobs_known : All (IsKnown s.cache) s.jobs
  pub court_known : All (IsKnown s.cache) s.court
  pub pending : All IsPending s.input

pub init-Inv : (input : List NamedAddressValue) → All IsPending input → Inv (init input)
unfolding cached lookup
init-Inv input h = record {
  counted = λ a. refl;
  main_known = tt;
  jobs_known = tt;
  court_known = tt;
  pending = h;
}

-- A message that is known has its address in the cache.
IsKnown-cached :
    (c : NamedAddressCache) (na : NamedAddressValue)
    → IsKnown c (named na)
    → cached c na.address ≢ none
unfolding cached lookup
IsKnown-cached c na h = ground arith

IsMainKnown-update :
    (room : ℕ) (c : NamedAddressCache) (na : NamedAddressValue) (main : Main)
    → IsMainKnown c main
    → IsMainKnown (update room c na).cache main
IsMainKnown-update room c na (validating qa) h = (update-IsKnown room c na qa h.0, h.1)
IsMainKnown-update room c na (submitting qa) h = update-IsKnown room c na qa h
IsMainKnown-update room c na looping h = tt
IsMainKnown-update room c na stopping h = tt
IsMainKnown-update room c na joining h = tt
IsMainKnown-update room c na ended h = tt

pub after_update-tokens :
    (a : Text) (b : Bool) (na : NamedAddressValue)
    → main_tokens a (after_update b na) ≡ (if b then token a (named na) else 0)
unfolding after_update announce with_new_quality addr
after_update-tokens a true na = refl
after_update-tokens a false na = refl

after_update-IsMainKnown :
    (c : NamedAddressCache) (b : Bool) (na : NamedAddressValue)
    → IsKnown c (named na)
    → IsMainKnown c (after_update b na)
unfolding after_update announce with_new_quality qual
after_update-IsMainKnown c true na h = (h, refl)
after_update-IsMainKnown c false na h = tt

pub take-Inv :
    (room : ℕ) (s : State) (na : NamedAddressValue) (rest : List NamedAddressValue)
    → s.main ≡ looping
    → s.input ≡ na ∷ rest
    → Inv s
    → Inv (take_address room s na rest)
unfolding take_address
take-Inv room s na rest m e inv =
    let p : All IsPending (na ∷ rest) = subst (All IsPending) e inv.pending in
    record {
      counted = λ a. omega (
        arith,
        inv.counted a,
        ap (main_tokens a) m,
        open-update_pending room s.cache na a p.0,
        after_update-tokens a (update room s.cache na).is_new na,
      );
      main_known =
          after_update-IsMainKnown _ (update room s.cache na).is_new na
            (update-IsKnownIn room s.cache na na.fqdn na.address (inr (refl, refl)));
      jobs_known = update-All-IsKnown room s.cache na s.jobs inv.jobs_known;
      court_known = update-All-IsKnown room s.cache na s.court inv.court_known;
      pending = p.1;
    }

pub named_of_as_named :
    (qa : QualifiedAddress) (na : NamedAddressValue) → as_named qa ≡ some na → qa ≡ named na
unfolding as_named
named_of_as_named (plain v) na e = cc
named_of_as_named (named nb) na e = cc

-- A verdict in the channel is about an open address.
pub verdict_opens :
    (s : State) (na : NamedAddressValue) (rest : List QualifiedAddress)
    → s.court ≡ named na ∷ rest
    → is_verdict na.quality ≡ true
    → Inv s
    → open_count (cached s.cache na.address) ≡ 1
unfolding qual addr
verdict_opens s na rest e v inv =
    ground (arith, inv.counted na.address, ap (verdict_tokens na.address) e)

-- A message that is no verdict opens no address, and a verdict closes its own.
slurp-counted :
    (room : ℕ) (s : State) (na : NamedAddressValue) (rest : List QualifiedAddress) (a : Text)
    → s.court ≡ named na ∷ rest
    → Inv s
    → main_tokens a s.main + tokens a s.jobs + verdict_tokens a rest
      ≡ open_count (cached (update room s.cache na).cache a)
unfolding qual
slurp-counted room s na rest a e inv =
    let known : All (IsKnown s.cache) (named na ∷ rest) =
      subst (All (IsKnown s.cache)) e inv.court_known in
    let counts : verdict_tokens a s.court ≡ verdict_tokens a (named na ∷ rest) =
      ap (verdict_tokens a) e in
    elim (Bool-cases (is_verdict na.quality)) [
      | inl v ↦ ground (
        arith,
        v,
        inv.counted a,
        counts,
        open-update_verdict room s.cache na a v (verdict_opens s na rest e v inv),
      )
      | inr v ↦ ground (
        arith,
        v,
        inv.counted a,
        counts,
        open-update_pending room s.cache na a v,
        (update-cached room s.cache na a).1,
        IsKnown-cached s.cache na known.0,
      )
    ]

pub slurp-Inv :
    (room : ℕ) (s : State) (na : NamedAddressValue) (rest : List QualifiedAddress)
    → s.court ≡ named na ∷ rest
    → Inv s
    → Inv (take_message room s na rest)
unfolding take_message
slurp-Inv room s na rest e inv =
    let known : All (IsKnown s.cache) (named na ∷ rest) =
      subst (All (IsKnown s.cache)) e inv.court_known in
    record {
      counted = λ a. slurp-counted room s na rest a e inv;
      main_known = IsMainKnown-update room s.cache na s.main inv.main_known;
      jobs_known = update-All-IsKnown room s.cache na s.jobs inv.jobs_known;
      court_known = update-All-IsKnown room s.cache na rest known.1;
      pending = inv.pending;
    }
