-- ===== src/Verifier/AddrCache/Invariant.antt =====
-- The shape of the cache, and the qualities that it holds.
use mobydig.Prelude.{
  Bool-cases, Distinct, Distinct-snoc, Option, Option-cases, Text, [], arith, false, has, inl, inr,
  ite, none, refl, some, text_discrete, true, ℕ, ◌↔◌, ◌∷◌, ◌≡◌,
}
use mobydig.Prelude.Dict.{
  Distinct-insert, Entries, Entries-insert, Entries-lookup, insert, keys, lookup, lookup-insert,
}
use mobydig.Types.Addr.{NamedAddressValue}
use mobydig.Types.Quality.{Quality, qual_le, raised}
use mobydig.Verifier.AddrCache.{
  NamedAddressCache, QualityUpdateConsumers, Updated, add_consumer, new_named_address_cache,
  register, update, update_absent, update_newer, update_stale,
}

-- The first parts say that the consumers of an address are distinct. The last says that no error is
-- stored: no statement of `Update` assigns the field `err` of an entry.
abbrev pub IsValidEntry : Text → QualityUpdateConsumers → Type 0
IsValidEntry a qc = Distinct qc.consumers × (qc.err ≡ none)

record IsValidCache (c : NamedAddressCache) : Type 0 where
  addresses : Distinct (keys c)
  entries : Entries IsValidEntry c

new-IsValidCache : IsValidCache new_named_address_cache
unfolding new_named_address_cache
new-IsValidCache = record { addresses = tt; entries = tt }

-- The three branches of `Update`, each with what it has found.
pub update_cases {ℓ} :
    (P : Updated → Type ℓ) (room : ℕ) (c : NamedAddressCache) (na : NamedAddressValue)
    → (lookup na.address c ≡ none → P (update_absent room c na))
    → ((qc : QualityUpdateConsumers)
        → lookup na.address c ≡ some qc
        → qual_le na.quality qc.q ≡ true
        → P (update_stale room c na qc))
    → ((qc : QualityUpdateConsumers)
        → lookup na.address c ≡ some qc
        → qual_le na.quality qc.q ≡ false
        → P (update_newer room c na qc))
    → P (update room c na)
unfolding update
update_cases P room c na absent stale newer = elim (Option-cases (lookup na.address c)) [
  | inl e ↦ rw (e, update) (absent e)
  | inr (qc, e) ↦ elim (Bool-cases (qual_le na.quality qc.q)) [
    | inl le ↦ rw (e, update, le) (stale qc e le)
    | inr gt ↦ rw (e, update, gt) (newer qc e gt)
  ]
]

insert-IsValidCache :
    (c : NamedAddressCache) (a : Text) (qc : QualityUpdateConsumers)
    → IsValidCache c
    → IsValidEntry a qc
    → IsValidCache (insert a qc c)
insert-IsValidCache c a qc v e = record {
  addresses = Distinct-insert a qc c v.addresses;
  entries = Entries-insert IsValidEntry a qc c e v.entries;
}

-- Registration, on either branch, keeps the consumers distinct.
register-IsValidEntry :
    (na : NamedAddressValue) (qc : QualityUpdateConsumers)
    → IsValidEntry na.address qc
    → IsValidEntry na.address (register na qc).0
unfolding register
register-IsValidEntry na qc e = ground (arith, Distinct-snoc na.fqdn qc.consumers)

update_newer-IsValidCache :
    (room : ℕ) (c : NamedAddressCache) (na : NamedAddressValue) (qc : QualityUpdateConsumers)
    → IsValidCache c
    → IsValidEntry na.address qc
    → IsValidCache (update_newer room c na qc).cache
unfolding update_newer
update_newer-IsValidCache room c na qc v e =
    insert-IsValidCache c na.address _ v (register-IsValidEntry na qc e)

update_stale-IsValidCache :
    (room : ℕ) (c : NamedAddressCache) (na : NamedAddressValue) (qc : QualityUpdateConsumers)
    → IsValidCache c
    → IsValidEntry na.address qc
    → IsValidCache (update_stale room c na qc).cache
unfolding update_stale
update_stale-IsValidCache room c na qc v e = elim (Bool-cases (has na.fqdn qc.consumers)) [
  | inl h ↦ rw h v
  | inr h ↦
      rw h (insert-IsValidCache c na.address _ v (Distinct-snoc na.fqdn qc.consumers h e.0, e.1))
]

-- Every `Update` keeps the cache valid, also one that the end of the context cuts short.
update-IsValidCache :
    (room : ℕ) (c : NamedAddressCache) (na : NamedAddressValue)
    → IsValidCache c
    → IsValidCache (update room c na).cache
unfolding update_absent has
update-IsValidCache room c na v =
    update_cases (λ u. IsValidCache u.cache) room c na
      (λ _. insert-IsValidCache c na.address _ v ((refl, tt), refl))
      (λ qc e _.
        update_stale-IsValidCache room c na qc v
          (Entries-lookup IsValidEntry na.address qc c v.entries e))
      (λ qc e _.
        update_newer-IsValidCache room c na qc v
          (Entries-lookup IsValidEntry na.address qc c v.entries e))

-- The quality that the cache holds for an address.
unfoldable pub cached : NamedAddressCache → Text → Option Quality
cached c a = elim (lookup a c) [ some qc ↦ some qc.q | none ↦ none ]

cached-insert :
    (a b : Text) (qc : QualityUpdateConsumers) (c : NamedAddressCache)
    → cached (insert b qc c) a ≡ ite (text_discrete b a) (some qc.q) (cached c a)
unfolding cached
cached-insert a b qc c = ground (arith, lookup-insert b a qc c)

pub register-q :
    (na : NamedAddressValue) (qc : QualityUpdateConsumers) → (register na qc).0.q ≡ na.quality
unfolding register
register-q na qc = ground arith

-- The cache after `Update`, at another address or at the same.
abbrev Raises : NamedAddressCache → NamedAddressValue → Text → Option Quality → Type 0
Raises c na a q =
    q ≡ ite (text_discrete na.address a) (some (raised (cached c a) na.quality)) (cached c a)

module _ (room : ℕ) (c : NamedAddressCache) (na : NamedAddressValue) (a : Text) where
  update_absent-Raises :
      lookup na.address c ≡ none → Raises c na a (cached (update_absent room c na).cache a)
  unfolding update_absent cached
  update_absent-Raises e = ground (
    arith,
    e,
    lookup-insert na.address a (record { q = na.quality; err = none; consumers = na.fqdn ∷ [] }) c,
  )

  module _ (qc : QualityUpdateConsumers) (e : lookup na.address c ≡ some qc) where
    update_stale-Raises :
        qual_le na.quality qc.q ≡ true → Raises c na a (cached (update_stale room c na qc).cache a)
    unfolding update_stale cached
    update_stale-Raises le =
        ground (arith, e, le, lookup-insert na.address a (add_consumer na.fqdn qc) c)

    update_newer-Raises :
        qual_le na.quality qc.q ≡ false → Raises c na a (cached (update_newer room c na qc).cache a)
    unfolding update_newer cached
    update_newer-Raises gt =
        ground (arith, e, gt, register-q na qc, lookup-insert na.address a (register na qc).0 c)

update-is_new :
    (room : ℕ) (c : NamedAddressCache) (na : NamedAddressValue)
    → ((update room c na).is_new ≡ true) ↔ (cached c na.address ≡ none)
unfolding update_absent update_stale update_newer cached
update-is_new room c na =
    update_cases (λ u. (u.is_new ≡ true) ↔ (cached c na.address ≡ none)) room c na
      (λ e. ground (arith, e)) (λ qc e _. ground (arith, e)) (λ qc e _. ground (arith, e))

-- `Update` raises the quality held for the address to that of the named address, or adds the
-- address with it, and leaves every other address as it was; it reports a new address exactly if
-- the cache did not have it. Both also where the context ends in the middle.
pub update-cached :
    (room : ℕ) (c : NamedAddressCache) (na : NamedAddressValue) (a : Text)
    → let u = update room c na in
      (cached u.cache a
        ≡ ite (text_discrete na.address a) (some (raised (cached c a) na.quality)) (cached c a))
      × ((u.is_new ≡ true) ↔ (cached c na.address ≡ none))
update-cached room c na a = (
  update_cases (λ u. Raises c na a (cached u.cache a)) room c na (update_absent-Raises room c na a)
      (update_stale-Raises room c na a) (update_newer-Raises room c na a),
  update-is_new room c na,
)
