-- ===== src/Dig/AddrMap/Tracking.antt =====
-- `Track`: when it returns, with what, and which map it leaves.
use mathlib.Core.List.{Perm, Permᴰ, foldl}
use mathlib.Core.Logic.{∥∥₁_elim}
use mobydig.Prelude.{List, Option, Text, [], ap, none, refl, some, sym, ◌++◌, ◌∙◌, ◌∷◌, ◌≡◌, ◌≢◌}
use mobydig.Dig.AddrMap.{
  Event, NamedAddressesMap, Tracked, closed, done, received, returned, track, update, waiting,
}
use mobydig.Dig.AddrMap.Invariant.{IsValid, update-IsValid}
use mobydig.Dig.AddrMap.View.{report, report_comm, view, view-update-report}
use mobydig.Types.Addr.{NamedAddressValue}
use mobydig.Types.Quality.{Quality}

-- The map after reports in this order.
unfoldable pub updates : NamedAddressesMap → List NamedAddressValue → NamedAddressesMap
updates m [] = m
updates m (na ∷ news) = updates (update m (some na)) news

-- The elements as `Track` receives them.
abbrev receipts : List NamedAddressValue → List Event
receipts [] = []
receipts (na ∷ news) = received (some na) ∷ receipts news

abbrev pub outcome : NamedAddressesMap → Event → List Event → Tracked
outcome m (received na) rest = track (update m na) rest
outcome m closed rest = returned m none
outcome m (done e) rest = returned m (some e)

-- `Track` works off what it receives, one `Update` each and in order, and then turns to the next
-- event: it returns nil if that is the closing of the channel, and the context's error if that is
-- the end of the context.
track-receipts :
    (m : NamedAddressesMap) (news : List NamedAddressValue) (e : Event) (rest : List Event)
    → (track m (receipts news) ≡ waiting (updates m news))
      × (track m (receipts news ++ e ∷ rest) ≡ outcome (updates m news) e rest)
unfolding track updates
track-receipts m [] (received na) rest = (refl, refl)
track-receipts m [] closed rest = (refl, refl)
track-receipts m [] (done x) rest = (refl, refl)
track-receipts m (na ∷ news) e rest = track-receipts (update m (some na)) news e rest

pub updates-append :
    (m : NamedAddressesMap) (xs ys : List NamedAddressValue)
    → updates m (xs ++ ys) ≡ updates (updates m xs) ys
unfolding updates
updates-append m [] ys = refl
updates-append m (x ∷ xs) ys = updates-append (update m (some x)) xs ys

pub updates-IsValid :
    (m : NamedAddressesMap) (news : List NamedAddressValue) → IsValid m → IsValid (updates m news)
unfolding updates
updates-IsValid m [] v = v
updates-IsValid m (na ∷ news) v =
    updates-IsValid (update m (some na)) news (update-IsValid m (some na) v)

pub Option_Quality-set : IsSet (Option Quality)
Option_Quality-set = hlevel

module _ (n a : Text) (hn : n ≢ []) (ha : a ≢ []) where
  pub view-updates :
      (m : NamedAddressesMap) (news : List NamedAddressValue)
      → view (updates m news) n a ≡ foldl (report n a) (view m n a) news
  unfolding updates
  view-updates m [] = refl
  view-updates m (na ∷ news) =
      view-updates (update m (some na)) news
      ∙ ap (λ q. foldl (report n a) q news) (view-update-report m na n a hn ha)

  foldl-perm :
      {xs ys : List NamedAddressValue} (q : Option Quality)
      → Permᴰ xs ys
      → foldl (report n a) q xs ≡ foldl (report n a) q ys
  foldl-perm q Permᴰ.nil = refl
  foldl-perm q (Permᴰ.cons e p) = rw e (foldl-perm _ p)
  foldl-perm q (Permᴰ.swap {l = l} e d) =
      rw (e, d) (ap (λ r. foldl (report n a) r l) (report_comm n a q _ _))
  foldl-perm q (Permᴰ.trans p r) = foldl-perm q p ∙ foldl-perm q r

  pub view-updates-perm :
      (m : NamedAddressesMap) {xs ys : List NamedAddressValue}
      → Perm xs ys
      → view (updates m xs) n a ≡ view (updates m ys) n a
  view-updates-perm m {xs} {ys} p =
      view-updates m xs
      ∙ ∥∥₁_elim p (Option_Quality-set _ _) (foldl-perm (view m n a))
      ∙ sym (view-updates m ys)
