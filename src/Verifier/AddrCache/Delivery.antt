-- ===== src/Verifier/AddrCache/Delivery.antt =====
-- No consumer misses a quality: the cache against the map of named addresses that the news make.
-- `entry` is what the cache holds for an address, `v` the quality that the consumer's map has for
-- a name and that address.
use mobydig.Prelude.{
  Bool-cases, Option, Text, [], ap, arith, false, has, has-snoc, if◌then◌else◌, inl, inr, ite,
  length, length-append, none, some, subst, text_discrete, true, ℕ, ◌+◌, ◌<◌, ◌∷◌, ◌≡◌, ◌≢◌, ◌≤◌,
  ◌⊎◌,
}
use mobydig.Dig.AddrMap.{NamedAddressesMap}
use mobydig.Dig.AddrMap.Tracking.{updates}
use mobydig.Dig.AddrMap.View.{report, view}
use mobydig.Ping.{new}
use mobydig.Prelude.Dict.{lookup, lookup-insert}
use mobydig.Types.Addr.{NamedAddressValue, named_with_new_quality}
use mobydig.Types.Quality.{Quality, is_verdict, qual_le, raised, rank}
use mobydig.Verifier.AddrCache.{
  NamedAddressCache, QualityUpdateConsumers, Updated, add_consumer, register, update, update_absent,
  update_newer, update_stale,
}
use mobydig.Verifier.AddrCache.Invariant.{register-q, update_cases}
use mobydig.Verifier.AddrCache.Notice.{view-notify, view-send}

-- What the consumer knows is never ahead of the cache, and it is up to date for every name that is
-- registered with the address.
abbrev pub InStep : Text → Option QualityUpdateConsumers → Option Quality → Type 0
InStep n none v = v ≡ none
InStep n (some qc) v =
    (rank (raised v qc.q) ≤ rank qc.q) × (has n qc.consumers ≡ true → v ≡ some qc.q)

-- The consumer knows the quality of the address under this name, and will learn of any change: the
-- name is registered, or the quality is a verdict.
abbrev pub Served : Text → Option QualityUpdateConsumers → Option Quality → Type 0
Served n none v = ⊥
Served n (some qc) v = (v ≡ some qc.q) × ((has n qc.consumers ≡ true) ⊎ (is_verdict qc.q ≡ true))

-- A report in the order that a verification gives: a verdict is not overruled, and comes under a
-- name that is registered.
abbrev pub IsOrderly : NamedAddressValue → Option QualityUpdateConsumers → Type 0
IsOrderly na none = Unit
IsOrderly na (some qc) =
    qual_le na.quality qc.q ≡ false
    → (is_verdict qc.q ≡ false) × (is_verdict na.quality ≡ true → has na.fqdn qc.consumers ≡ true)

-- How many sends an `Update` makes at most.
abbrev pub wanted : Option QualityUpdateConsumers → ℕ
wanted none = 1
wanted (some qc) = length qc.consumers + 1

length-register :
    (na : NamedAddressValue) (qc : QualityUpdateConsumers)
    → length (register na qc).1 ≤ length qc.consumers + 1
unfolding register
length-register na qc = ground (arith, length-append qc.consumers (na.fqdn ∷ []))

-- Who is notified of a newer quality, and who is registered after it.
pub register_consumers :
    (na : NamedAddressValue) (qc : QualityUpdateConsumers) (n : Text)
    → let joined = ite (text_discrete na.fqdn n) true (has n qc.consumers) in
      (has n (register na qc).1 ≡ (if is_verdict na.quality then has n qc.consumers else joined))
      × (has n (register na qc).0.consumers ≡ (if is_verdict na.quality then false else joined))
unfolding register has
register_consumers na qc n = ground (arith, has-snoc n na.fqdn qc.consumers)

module _ (room : ℕ) (c : NamedAddressCache) (na : NamedAddressValue) (m : NamedAddressesMap)
    (n a : Text) (hn : n ≢ []) (ha : a ≢ []) where
  -- What holds of one name and one address after an `Update`.
  abbrev Delivers : Updated → Type 0
  Delivers u =
      (InStep n (lookup a c) (view m n a)
        → InStep n (lookup a u.cache) (view (updates m u.news) n a))
      × (InStep n (lookup a c) (view m n a)
          → Served n (lookup a c) (view m n a) ⊎ ((na.fqdn ≡ n) × (na.address ≡ a))
          → Served n (lookup a u.cache) (view (updates m u.news) n a))

  update_absent-Delivers :
      0 < room → lookup na.address c ≡ none → Delivers (update_absent room c na)
  unfolding update_absent report has
  update_absent-Delivers r e = ground (
    arith,
    e,
    view-send m n a hn ha room na r,
    lookup-insert na.address a (record { q = na.quality; err = none; consumers = na.fqdn ∷ [] }) c,
  )

  module _ (qc : QualityUpdateConsumers) (e : lookup na.address c ≡ some qc) where
    update_stale-Delivers :
        0 < room → qual_le na.quality qc.q ≡ true → Delivers (update_stale room c na qc)
    unfolding update_stale report updates
    update_stale-Delivers r le = elim (Bool-cases (has na.fqdn qc.consumers)) [
      | inl known ↦ rw (known, updates) (λ s. s, λ s d. ground (arith, e))
      | inr new ↦
          rw (new, update_stale)
            (ground (
              arith,
              e,
              view-send m n a hn ha room (named_with_new_quality na qc.q qc.err) r,
              lookup-insert na.address a (add_consumer na.fqdn qc) c,
              has-snoc n na.fqdn qc.consumers,
            ))
    ]

    update_newer-Delivers :
        length qc.consumers < room
        → qual_le na.quality qc.q ≡ false
        → IsOrderly na (some qc)
        → Delivers (update_newer room c na qc)
    unfolding update_newer
    update_newer-Delivers r gt o =
        let (told, kept) = register_consumers na qc n in
        ground (
          arith,
          e,
          told,
          kept,
          register-q na qc,
          view-notify m n a hn ha room na (register na qc).1 (omega (arith, length-register na qc)),
          lookup-insert na.address a (register na qc).0 c,
        )

update-Delivers :
    (room : ℕ) (c : NamedAddressCache) (na : NamedAddressValue) (m : NamedAddressesMap) (n a : Text)
    (hn : n ≢ []) (ha : a ≢ [])
    → wanted (lookup na.address c) ≤ room
    → IsOrderly na (lookup na.address c)
    → Delivers room c na m n a hn ha (update room c na)
update-Delivers room c na m n a hn ha r o =
    update_cases (Delivers room c na m n a hn ha) room c na
      (λ e. update_absent-Delivers room c na m n a hn ha (omega (arith, ap wanted e)) e)
      (λ qc e le. update_stale-Delivers room c na m n a hn ha qc e (omega (arith, ap wanted e)) le)
      (λ qc e gt.
        update_newer-Delivers room c na m n a hn ha qc e (omega (arith, ap wanted e)) gt
          (subst (IsOrderly na) e o))

module _ (room : ℕ) (c : NamedAddressCache) (na : NamedAddressValue) (m : NamedAddressesMap)
    (n a : Text) (hn : n ≢ []) (ha : a ≢ []) (roomy : wanted (lookup na.address c) ≤ room)
    (orderly : IsOrderly na (lookup na.address c))
    (in_step : InStep n (lookup a c) (view m n a)) where
  -- For a non-empty name and a non-empty address: where the channel takes all that is sent, an
  -- orderly `Update` of any named address keeps a consumer that is in step with the cache about
  -- them in step with it.
  pub update-InStep :
      let u = update room c na in InStep n (lookup a u.cache) (view (updates m u.news) n a)
  update-InStep = (update-Delivers room c na m n a hn ha roomy orderly).0 in_step

  -- For a non-empty name and a non-empty address: where the channel takes all that is sent, the
  -- `Update` is orderly, and a consumer is in step with the cache about them, it then knows the
  -- quality of the address under the name if the call was made for them, or if it knew it before.
  pub update-Served :
      Served n (lookup a c) (view m n a) ⊎ ((na.fqdn ≡ n) × (na.address ≡ a))
      → let u = update room c na in Served n (lookup a u.cache) (view (updates m u.news) n a)
  update-Served asked = (update-Delivers room c na m n a hn ha roomy orderly).1 in_step asked
