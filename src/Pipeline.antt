-- ===== src/Pipeline.antt =====
-- A Digger whose news channel is the input of a Verifier, as cmd/mobydig/digging.go connects them,
-- and a consumer that keeps the Verifier's news in a map.
use mobydig.Dig.Digger
use mobydig.Verifier.Run
use mobydig.Prelude.{
  All, List, Text, [], ap, arith, false, has, map, refl, some, text_discrete, true, ◌<◌, ◌∷◌, ◌≡◌,
  ◌≢◌,
}
use mobydig.Dig.AddrMap.View.{view}
use mobydig.Dig.Digger.{callback, dug, messages}
use mobydig.Dig.Digger.News.{Reach-count_names, count, count_names, hits}
use mobydig.Dig.Digger.Pending.{IsUnverified, Reach-IsUnverified}
use mobydig.DnsWorker.Resolve.{DnsEnv, resolve_name}
use mobydig.Ping.{Pinger}
use mobydig.Types.Addr.{NamedAddressValue}
use mobydig.Types.Quality.{Quality, is_verdict}
use mobydig.Verifier.Run.{ended}
use mobydig.Verifier.Run.Delivery.{client, has_pair}
use mobydig.Verifier.Run.Invariant.{IsPending}
use mobydig.Verifier.Run.Results.{Reach-verdict}

hits-eq-one : (n a : Text) → hits n a (dug n a) ≡ 1
unfolding dug
hits-eq-one n a = ground arith

count-dug :
    (n a : Text) (addrs : List Text) → has a addrs ≡ true → 0 < count n a (map (dug n) addrs)
unfolding has dug
count-dug n a [] h = cc
count-dug n a (x ∷ addrs) h = ground (arith, count-dug n a addrs)

count-messages :
    (env : Text → DnsEnv) (n a : Text)
    → has a (resolve_name (env n) n).0 ≡ true
    → 0 < count n a (messages env n)
unfolding callback
count-messages env n a h = count-dug n a _ h

count_names-pos :
    (fqdn : Text → Text) (env : Text → DnsEnv) (name a : Text) (names : List Text)
    → has name names ≡ true
    → 0 < count (fqdn name) a (messages env (fqdn name))
    → 0 < count_names fqdn env (fqdn name) a names
unfolding has
count_names-pos fqdn env name a [] h k = cc
count_names-pos fqdn env name a (x ∷ names) h k = elim (text_discrete x name) [
  | yes e ↦ omega (arith, ap (λ x. count (fqdn name) a (messages env (fqdn x))) e)
  | no ne ↦
      let later : has name names ≡ true = ground (arith, ne) in
      omega (arith, count_names-pos fqdn env name a names later k)
]

has_pair-count :
    (n a : Text) (nas : List NamedAddressValue) → 0 < count n a nas → has_pair n a nas ≡ true
unfolding has_pair
has_pair-count n a [] h = absurd (omega arith)
has_pair-count n a (na ∷ nas) h = ground (arith, has_pair-count n a nas)

pub IsUnverified-IsPending :
    (nas : List NamedAddressValue) → All IsUnverified nas → All IsPending nas
IsUnverified-IsPending [] h = tt
IsUnverified-IsPending (na ∷ nas) h = (rw h.0.0 refl, IsUnverified-IsPending nas h.1)

module _ {fqdn : Text → Text} {env : Text → DnsEnv} {p : Pinger} {names : List Text}
    {digger : Digger.State} {verifier : Run.State} (digging : Digger.Reach fqdn env names digger)
    (verifying : Run.Reach p digger.news verifier) where
  -- When a run of the digger has closed its news channel, and a run of `Verify` on these news has
  -- closed its own, neither of them cancelled, then a consumer that has kept the latter's news in a
  -- map has a verdict for every name that was dug and every address that it resolved to, neither of
  -- them empty.
  pub dug-verdict :
      (name a : Text)
      → digger.closed ≡ true
      → digger.cancelled ≡ false
      → verifier.main ≡ ended
      → verifier.cancelled ≡ false
      → has name names ≡ true
      → has a (resolve_name (env (fqdn name)) (fqdn name)).0 ≡ true
      → fqdn name ≢ []
      → a ≢ []
      → (q : Quality) × (is_verdict q ≡ true) × (view (client verifier) (fqdn name) a ≡ some q)
  dug-verdict name a shut digging_on over verifying_on asked resolved hn ha =
      let passed : 0 < count (fqdn name) a digger.news = omega (
        arith,
        Reach-count_names fqdn env (fqdn name) a digging shut digging_on,
        count_names-pos fqdn env name a names asked (count-messages env (fqdn name) a resolved),
      ) in
      let (q, final, _, told) =
        Reach-verdict (IsUnverified-IsPending _ (Reach-IsUnverified digging)) (fqdn name) a
          verifying verifying_on over hn ha (has_pair-count (fqdn name) a digger.news passed) in
      (q, final, told)
