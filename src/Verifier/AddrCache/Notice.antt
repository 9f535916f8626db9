-- ===== src/Verifier/AddrCache/Notice.antt =====
-- What the news of one `Update` tells a consumer that keeps them in a `NamedAddressesMap`.
use mobydig.Prelude.{
  List, Text, [], arith, has, if◌then◌else◌, ite, length, refl, some, suc, text_discrete, zero, ℕ,
  ◌<◌, ◌∷◌, ◌≡◌, ◌≢◌, ◌≤◌,
}
use mobydig.Dig.AddrMap.{NamedAddressesMap, update}
use mobydig.Dig.AddrMap.Tracking.{updates}
use mobydig.Dig.AddrMap.View.{report, view, view-update-report}
use mobydig.Types.Addr.{NamedAddressValue}
use mobydig.Types.Quality.{raised}
use mobydig.Verifier.AddrCache.{notify, send}

module _ (m : NamedAddressesMap) (n a : Text) (hn : n ≢ []) (ha : a ≢ []) where
  -- The news of one sent address.
  pub view-send :
      (room : ℕ) (na : NamedAddressValue)
      → 0 < room
      → view (updates m (send room na)) n a ≡ report n a (view m n a) na
  unfolding send updates
  view-send zero na h = absurd (omega arith)
  view-send (suc room) na h = view-update-report m na n a hn ha

-- The notification loop, where the channel takes all it sends: the consumers on the list learn of
-- the quality of the address, and nothing else is said.
pub view-notify :
    (m : NamedAddressesMap) (n a : Text) (hn : n ≢ []) (ha : a ≢ []) (room : ℕ)
    (na : NamedAddressValue) (consumers : List Text)
    → length consumers ≤ room
    → view (updates m (notify room na consumers)) n a ≡ (
        if has n consumers
        then ite (text_discrete na.address a) (some (raised (view m n a) na.quality)) (view m n a)
        else view m n a)
unfolding notify updates has report
view-notify m n a hn ha room na [] h = refl
view-notify m n a hn ha zero na (x ∷ xs) h = absurd (omega arith)
view-notify m n a hn ha (suc room) na (x ∷ xs) h = ground (
  arith,
  view-notify (update m (some (record na { fqdn = x }))) n a hn ha room na xs (omega arith),
  view-update-report m (record na { fqdn = x }) n a hn ha,
)
