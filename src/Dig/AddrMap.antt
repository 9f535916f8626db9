-- ===== src/Dig/AddrMap.antt =====
-- dig/addrmap.go. The Go map is an association list in the order of first insertion; the order in
-- which `Get` walks a Go map is not determined, so only what does not depend on it means anything.
-- A method runs under the mutex from its first read to its return, so it is one step here.
pub mod View
pub mod Contents
pub mod Highest
pub mod Invariant
pub mod Tracking
pub mod Abstract
pub mod Sources
use mathlib.Core.Option
use mobydig.Prelude.{
  List, Option, Text, [], if◌then◌else◌, ite, map, none, some, text_discrete, ◌++◌, ◌∷◌,
}
use mobydig.Prelude.Dict.{insert, lookup}
use mobydig.Types.Addr.{Error, NamedAddressValue, QualifiedAddressValue}
use mobydig.Types.Quality.{qual_gt}

pub record NamedAddressSet : Type 0 where
  pub fqdn : Text
  pub addresses : List QualifiedAddressValue

-- The field `m` of `NamedAddressesMap`.
abbrev pub NamedAddressesMap : Type 0
NamedAddressesMap = List (Text × List QualifiedAddressValue)

unfoldable pub new_named_addresses_map : NamedAddressesMap
new_named_addresses_map = []

unfoldable pub get : NamedAddressesMap → List NamedAddressSet
get m = map (λ (e : Text × List QualifiedAddressValue). record { fqdn = e.0; addresses = e.1 }) m

-- The assignment in the loop of `Update`.
unfoldable pub raise : QualifiedAddressValue → QualifiedAddressValue → QualifiedAddressValue
raise v a = if qual_gt v.quality a.quality then record a { quality = v.quality } else a

-- The loop of `Update`: the slice after the write to the first element with the address of `v`, or
-- `none` where no element has it.
unfoldable pub scan :
    QualifiedAddressValue → List QualifiedAddressValue → Option (List QualifiedAddressValue)
unfolding raise
scan v [] = none
scan v (a ∷ rest) =
    ite (text_discrete a.address v.address) (some (raise v a ∷ rest))
      (Option.map (◌∷◌ a) (scan v rest))

-- `Update` for a name that is known, with the addresses stored for it.
unfoldable pub update_known :
    NamedAddressesMap → NamedAddressValue → List QualifiedAddressValue → NamedAddressesMap
unfolding scan
update_known m na qualaddr = ite (text_discrete na.address []) m (elim (scan na.qa qualaddr) [
  | some written ↦ insert na.fqdn written m
  | none ↦ insert na.fqdn (qualaddr ++ na.qa ∷ []) m
])

-- `Update` for a name that is not known.
unfoldable pub update_unknown : NamedAddressesMap → NamedAddressValue → NamedAddressesMap
update_unknown m na = insert na.fqdn (ite (text_discrete na.address []) [] (na.qa ∷ [])) m

-- `Update`; `none` is the nil interface.
unfoldable pub update : NamedAddressesMap → Option NamedAddressValue → NamedAddressesMap
unfolding update_known update_unknown
update m none = m
update m (some na) = ite (text_discrete na.fqdn []) m (elim (lookup na.fqdn m) [
  | some qualaddr ↦ update_known m na qualaddr
  | none ↦ update_unknown m na
])

-- What the `select` of `Track` finds ready: an element of the channel, its closing, or the end of
-- the context with its error.
pub data Event : Type 0 where
  received : Option NamedAddressValue → Event
  closed : Event
  done : Text → Event

-- Where `Track` stands when the events have been used up.
pub data Tracked : Type 0 where
  waiting : NamedAddressesMap → Tracked
  returned : NamedAddressesMap → Error → Tracked

unfoldable pub track : NamedAddressesMap → List Event → Tracked
track m [] = waiting m
track m (received na ∷ events) = track (update m na) events
track m (closed ∷ events) = returned m none
track m (done err ∷ events) = returned m (some err)
