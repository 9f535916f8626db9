-- ===== src/Verifier/AddrCache/Sources.antt =====
-- What an Update of verifier/addrcache.go sends and keeps is made of what it has been given.
use mobydig.Prelude.{All, All-snoc, Bool-cases, List, Text, [], has, inl, inr, suc, zero, ℕ, ◌∷◌}
use mobydig.Prelude.Dict.{Entries, Entries-insert, Entries-lookup}
use mobydig.Types.Addr.{NamedAddressValue, named_with_new_quality}
use mobydig.Types.Quality.{Quality, is_verdict}
use mobydig.Verifier.AddrCache.{
  NamedAddressCache, QualityUpdateConsumers, Updated, add_consumer, notify, register, send, update,
  update_absent, update_newer, update_stale,
}
use mobydig.Verifier.AddrCache.Invariant.{update_cases}

module _ {κ ξ} (P : Text → Text → Type κ) (R : Text → Quality → Type ξ) where
  -- What is known of a name with an address, and of an address with a quality.
  abbrev pub IsSourced : NamedAddressValue → Type (κ ⊔ ξ)
  IsSourced na = P na.fqdn na.address × R na.address na.quality

  abbrev pub IsEntrySourced : Text → QualityUpdateConsumers → Type (κ ⊔ ξ)
  IsEntrySourced a qc = R a qc.q × All (λ n. P n a) qc.consumers

  abbrev IsUpdateSourced : Updated → Type (κ ⊔ ξ)
  IsUpdateSourced u = Entries IsEntrySourced u.cache × All IsSourced u.news

  send-All : (room : ℕ) (na : NamedAddressValue) → IsSourced na → All IsSourced (send room na)
  unfolding send
  send-All zero na h = tt
  send-All (suc room) na h = (h, tt)

  notify-All :
      (room : ℕ) (na : NamedAddressValue) (consumers : List Text)
      → R na.address na.quality
      → All (λ n. P n na.address) consumers
      → All IsSourced (notify room na consumers)
  unfolding notify
  notify-All zero na [] h all = tt
  notify-All (suc room) na [] h all = tt
  notify-All zero na (n ∷ consumers) h all = tt
  notify-All (suc room) na (n ∷ consumers) h all =
      ((all.0, h), notify-All room na consumers h all.1)

  register-All :
      (na : NamedAddressValue) (qc : QualityUpdateConsumers)
      → IsSourced na
      → IsEntrySourced na.address qc
      → IsEntrySourced na.address (register na qc).0 × All (λ n. P n na.address) (register na qc).1
  unfolding register add_consumer
  register-All na qc h e = elim (Bool-cases (is_verdict na.quality)) [
    | inl v ↦ rw v ((h.1, tt), e.1)
    | inr v ↦ elim (Bool-cases (has na.fqdn qc.consumers)) [
      | inl k ↦ rw (v, k) ((h.1, e.1), e.1)
      | inr k ↦
          let all = All-snoc (λ n. P n na.address) qc.consumers na.fqdn e.1 h.0 in
          rw (v, k) ((h.1, all), all)
    ]
  ]

  module _ (room : ℕ) (c : NamedAddressCache) (na : NamedAddressValue)
      (cache : Entries IsEntrySourced c) (h : IsSourced na) where
    update_stale-IsUpdateSourced :
        (qc : QualityUpdateConsumers)
        → IsEntrySourced na.address qc
        → IsUpdateSourced (update_stale room c na qc)
    unfolding update_stale add_consumer named_with_new_quality
    update_stale-IsUpdateSourced qc e = elim (Bool-cases (has na.fqdn qc.consumers)) [
      | inl k ↦ rw k (cache, tt)
      | inr k ↦ rw k (
        Entries-insert IsEntrySourced na.address _ c
            (e.0, All-snoc (λ n. P n na.address) qc.consumers na.fqdn e.1 h.0) cache,
        send-All room _ (h.0, e.0),
      )
    ]

    update_newer-IsUpdateSourced :
        (qc : QualityUpdateConsumers)
        → IsEntrySourced na.address qc
        → IsUpdateSourced (update_newer room c na qc)
    unfolding update_newer
    update_newer-IsUpdateSourced qc e =
        let (entry, consumers) = register-All na qc h e in
        (
          Entries-insert IsEntrySourced na.address _ c entry cache,
          notify-All room na (register na qc).1 h.1 consumers,
        )

    pub update-IsUpdateSourced : IsUpdateSourced (update room c na)
    unfolding update_absent
    update-IsUpdateSourced =
        update_cases IsUpdateSourced room c na
          (λ _. (
            Entries-insert IsEntrySourced na.address _ c (h.1, (h.0, tt)) cache,
            send-All room na h,
          ))
          (λ qc e _.
            update_stale-IsUpdateSourced qc (Entries-lookup IsEntrySourced na.address qc c cache e))
          (λ qc e _.
            update_newer-IsUpdateSourced qc (Entries-lookup IsEntrySourced na.address qc c cache e))
