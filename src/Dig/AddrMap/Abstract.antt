-- ===== src/Dig/AddrMap/Abstract.antt =====
-- The abstract state of a NamedAddressesMap: a map up to what it says of names and addresses, so that
-- the order of its entries, and of the addresses of an entry, is forgotten.
use mathlib.Core.List.{Perm}
use mathlib.Core.List.Perm
use mathlib.Core.Quot
use mathlib.Core.Quot.{Quot, Quot-set}
use mobydig.Prelude.{List, Option, Text, [], ap, arith, refl, some, sym, ◌↔◌, ◌∙◌, ◌∷◌, ◌≡◌, ◌≢◌}
use mobydig.Dig.AddrMap.{NamedAddressesMap, update}
use mobydig.Dig.AddrMap.Tracking.{Option_Quality-set, updates, view-updates-perm}
use mobydig.Dig.AddrMap.View.{report, view, view-update-report}
use mobydig.Types.Addr.{NamedAddressValue}
use mobydig.Types.Quality.{Quality}

-- Two maps say the same of every name and address.
abbrev pub Agree : NamedAddressesMap → NamedAddressesMap → Type 0
Agree m k = (n a : Text) → n ≢ [] → a ≢ [] → view m n a ≡ view k n a

abbrev pub MapState : Type 0
MapState = Quot Agree

abbrev pub state_of : NamedAddressesMap → MapState
state_of m = Quot.mk m

-- What a state says of a name and an address that are not empty.
says : (n a : Text) → n ≢ [] → a ≢ [] → MapState → Option Quality
says n a hn ha = Quot.lift Option_Quality-set (λ m. view m n a) (λ m k h. h n a hn ha)

-- Maps with one state agree, and the other way round.
pub state_of-Agree : (m k : NamedAddressesMap) → (state_of m ≡ state_of k) ↔ Agree m k
unfolding says
state_of-Agree m k = (λ e n a hn ha. ap (says n a hn ha) e, λ h. Quot.sound h)

pub Agree-update :
    (m k : NamedAddressesMap) (na : NamedAddressValue)
    → Agree m k
    → Agree (update m (some na)) (update k (some na))
Agree-update m k na h n a hn ha =
    view-update-report m na n a hn ha
    ∙ ap (λ q. report n a q na) (h n a hn ha)
    ∙ sym (view-update-report k na n a hn ha)

-- `Update`, on states.
unfoldable pub tell : NamedAddressValue → MapState → MapState
tell na =
    Quot.lift Quot-set (λ m. state_of (update m (some na)))
      (λ m k h. Quot.sound (Agree-update m k na h))

says-tell :
    (na : NamedAddressValue) (n a : Text) (hn : n ≢ []) (ha : a ≢ []) (s : MapState)
    → says n a hn ha (tell na s) ≡ report n a (says n a hn ha s) na
unfolding says tell
says-tell na n a hn ha =
    Quot.ind (λ s. Option_Quality-set _ _) (λ m. view-update-report m na n a hn ha)

report_twice :
    (n a : Text) (q : Option Quality) (na : NamedAddressValue)
    → report n a (report n a q na) na ≡ report n a q na
unfolding report
report_twice n a q na = ground arith

-- Two updates may change places, and one may be repeated.
tell_comm : (x y : NamedAddressValue) (s : MapState) → tell x (tell y s) ≡ tell y (tell x s)
unfolding tell updates
tell_comm x y =
    Quot.ind (λ s. Quot-set _ _)
      (λ m. Quot.sound (λ n a hn ha. view-updates-perm n a hn ha m (Perm.swap x y [])))

tell_twice : (x : NamedAddressValue) (s : MapState) → tell x (tell x s) ≡ tell x s
unfolding tell
tell_twice x =
    Quot.ind (λ s. Quot-set _ _)
      (λ m. Quot.sound (λ n a hn ha.
        view-update-report (update m (some x)) x n a hn ha
        ∙ ap (λ q. report n a q x) (view-update-report m x n a hn ha)
        ∙ report_twice n a (view m n a) x
        ∙ sym (view-update-report m x n a hn ha)))

tell_all : List NamedAddressValue → MapState → MapState
unfolding tell
tell_all [] s = s
tell_all (na ∷ news) s = tell_all news (tell na s)

-- A list of updates of a map is the list of updates of its state.
state_of-updates :
    (news : List NamedAddressValue) (m : NamedAddressesMap)
    → state_of (updates m news) ≡ tell_all news (state_of m)
unfolding updates tell_all
state_of-updates [] m = refl
state_of-updates (na ∷ news) m = state_of-updates news (update m (some na))

-- The order of updates is not seen in the state.
tell_all-perm :
    {xs ys : List NamedAddressValue} → Perm xs ys → (s : MapState) → tell_all xs s ≡ tell_all ys s
tell_all-perm {xs} {ys} p =
    Quot.ind (λ s. Quot-set _ _)
      (λ m.
        sym (state_of-updates xs m)
        ∙ Quot.sound (λ n a hn ha. view-updates-perm n a hn ha m p)
        ∙ state_of-updates ys m)
