-- ===== src/Verifier/AddrCache.antt =====
-- verifier/addrcache.go. `Update` holds the mutex from its first statement to its return, so a call
-- is one step. Each `select` of the source sends to the news channel or finds the context ended;
-- an ended context stays ended, so the choices of one call are given by one number, `room`: how
-- many sends the channel takes before a `select` goes the other way. Where the context does not
-- end, `room` is at least the number of sends.
pub mod Invariant
pub mod Notice
pub mod Delivery
pub mod Sources
use mobydig.Prelude.{
  Bool, List, Text, [], false, has, if◌then◌else◌, none, some, suc, true, zero, ℕ, ◌++◌, ◌∷◌,
}
use mobydig.Prelude.Dict.{insert, lookup}
use mobydig.Types.Addr.{Error, NamedAddressValue, named_with_new_quality}
use mobydig.Types.Quality.{Quality, is_verdict, qual_le}

pub record QualityUpdateConsumers : Type 0 where
  pub q : Quality
  pub err : Error
  pub consumers : List Text

-- The field `m` of `NamedAddressCache`.
abbrev pub NamedAddressCache : Type 0
NamedAddressCache = List (Text × QualityUpdateConsumers)

unfoldable pub new_named_address_cache : NamedAddressCache
new_named_address_cache = []

-- What a call leaves: the cache, what it sent on the news channel, and its result.
pub record Updated : Type 0 where
  pub cache : NamedAddressCache
  pub news : List NamedAddressValue
  pub is_new : Bool

-- `select { case news <- na: case <-ctx.Done(): }`
unfoldable pub send : ℕ → NamedAddressValue → List NamedAddressValue
send zero na = []
send (suc room) na = na ∷ []

-- The loop that notifies the consumers, which returns where the context has ended.
unfoldable pub notify : ℕ → NamedAddressValue → List Text → List NamedAddressValue
notify room templ [] = []
notify zero templ (consumer ∷ consumers) = []
notify (suc room) templ (consumer ∷ consumers) =
    record templ { fqdn = consumer } ∷ notify room templ consumers

-- An address that the cache does not have.
unfoldable pub update_absent : ℕ → NamedAddressCache → NamedAddressValue → Updated
unfolding send
update_absent room c na = record {
  cache = insert na.address (record { q = na.quality; err = none; consumers = na.fqdn ∷ [] }) c;
  news = send room na;
  is_new = true;
}

-- `qc.consumers = append(qc.consumers, fqdn)`
unfoldable pub add_consumer : Text → QualityUpdateConsumers → QualityUpdateConsumers
add_consumer fqdn qc = record qc { consumers = qc.consumers ++ fqdn ∷ [] }

-- `namaddr.Qual() <= qc.q`
unfoldable pub update_stale :
    ℕ → NamedAddressCache → NamedAddressValue → QualityUpdateConsumers → Updated
unfolding send add_consumer named_with_new_quality has
update_stale room c na qc =
    if has na.fqdn qc.consumers then record { cache = c; news = []; is_new = false } else record {
      cache = insert na.address (add_consumer na.fqdn qc) c;
      news = send room (named_with_new_quality na qc.q qc.err);
      is_new = false;
    }

-- The consumers that a newer quality leaves registered, and those to notify of it.
unfoldable pub register :
    NamedAddressValue → QualityUpdateConsumers → QualityUpdateConsumers × List Text
unfolding add_consumer has
register na qc =
    if is_verdict na.quality
    then (record qc { q = na.quality; consumers = [] }, qc.consumers)
    else let qc' = (if has na.fqdn qc.consumers then qc else add_consumer na.fqdn qc) in
      (record qc' { q = na.quality }, qc'.consumers)

-- `namaddr.Qual() > qc.q`
unfoldable pub update_newer :
    ℕ → NamedAddressCache → NamedAddressValue → QualityUpdateConsumers → Updated
unfolding register notify
update_newer room c na qc =
    let (qc', consumers) = register na qc in
    record { cache = insert na.address qc' c; news = notify room na consumers; is_new = false }

unfoldable pub update : ℕ → NamedAddressCache → NamedAddressValue → Updated
unfolding update_absent update_stale update_newer
update room c na = elim (lookup na.address c) [
  | none ↦ update_absent room c na
  | some qc ↦
      if qual_le na.quality qc.q then update_stale room c na qc else update_newer room c na qc
]
