-- ===== src/Dig/AddrMap/Highest.antt =====
-- The contents of the map after a list of updates, told without the order of the updates.
use mathlib.Core.List.{foldl}
use mobydig.Prelude.{
  All, Any, List, Option, Text, [], arith, inl, inr, ite, none, some, sym, text_discrete, ◌↔◌, ◌∙◌,
  ◌∷◌, ◌≡◌, ◌≢◌, ◌≤◌, ◌⊎◌,
}
use mobydig.Dig.AddrMap.{get, new_named_addresses_map}
use mobydig.Dig.AddrMap.Contents.{Lists, Lists-nonempty, get-Lists}
use mobydig.Dig.AddrMap.Tracking.{updates, updates-IsValid, view-updates}
use mobydig.Dig.AddrMap.View.{report, view}
use mobydig.Prelude.Dict.{lookup}
use mobydig.Types.Addr.{NamedAddressValue}
use mobydig.Types.Quality.{Quality, join, raised, rank}

-- The qualities reported for one name and address.
abbrev pub reported : Text → Text → List NamedAddressValue → List Quality
reported n a [] = []
reported n a (na ∷ news) =
    ite (text_discrete na.fqdn n)
      (ite (text_discrete na.address a) (na.quality ∷ reported n a news) (reported n a news))
      (reported n a news)

-- The highest of the qualities, in the order of the constants.
abbrev pub IsHighest : Quality → List Quality → Type 0
IsHighest q qs = Any (λ p. p ≡ q) qs × All (λ p. rank p ≤ rank q) qs

IsHighest-join :
    (q p r : Quality) (qs : List Quality) → IsHighest q (join p r ∷ qs) ↔ IsHighest q (p ∷ r ∷ qs)
IsHighest-join q p r qs = ground arith

report-cases :
    (n a : Text) (o : Option Quality) (na : NamedAddressValue) (news : List NamedAddressValue)
    → ((report n a o na ≡ some (raised o na.quality))
        × (reported n a (na ∷ news) ≡ na.quality ∷ reported n a news))
      ⊎ ((report n a o na ≡ o) × (reported n a (na ∷ news) ≡ reported n a news))
unfolding report
report-cases n a o na news = elim (text_discrete na.fqdn n) [
  | yes e ↦ elim (text_discrete na.address a) [
    | yes f ↦ inl (ground (arith, e, f), ground (arith, e, f))
    | no nf ↦ inr (ground (arith, e, nf), ground (arith, e, nf))
  ]
  | no ne ↦ inr (ground (arith, ne), ground (arith, ne))
]

-- What is stored for the name and the address after the updates, on top of a quality or of nothing.
foldl-some :
    (n a : Text) (p q : Quality) (news : List NamedAddressValue)
    → (foldl (report n a) (some p) news ≡ some q) ↔ IsHighest q (p ∷ reported n a news)
foldl-some n a p q [] = ground arith
foldl-some n a p q (na ∷ news) = elim (report-cases n a (some p) na news) [
  | inl (e, f) ↦
      let below : IsHighest q (join p na.quality ∷ reported n a news)
          ↔ IsHighest q (p ∷ na.quality ∷ reported n a news) =
        IsHighest-join q p na.quality (reported n a news) in
      rw (e, f)
        (
          λ h. below.0 ((foldl-some n a (join p na.quality) q news).0 h),
          λ h. (foldl-some n a (join p na.quality) q news).1 (below.1 h),
        )
  | inr (e, f) ↦ rw (e, f) (foldl-some n a p q news)
]

foldl-none :
    (n a : Text) (q : Quality) (news : List NamedAddressValue)
    → (foldl (report n a) none news ≡ some q) ↔ IsHighest q (reported n a news)
foldl-none n a q [] = ground arith
foldl-none n a q (na ∷ news) = elim (report-cases n a none na news) [
  | inl (e, f) ↦ rw (e, f) (foldl-some n a na.quality q news)
  | inr (e, f) ↦ rw (e, f) (foldl-none n a q news)
]

pub get-updates :
    (news : List NamedAddressValue) (n a : Text) (q : Quality)
    → Lists n a q (get (updates new_named_addresses_map news))
      ↔ ((n ≢ []) × (a ≢ []) × IsHighest q (reported n a news))
unfolding new_named_addresses_map view lookup
get-updates news n a q =
    let valid = updates-IsValid [] news (record { names = tt; entries = tt }) in
    let listed = get-Lists n a q (updates [] news) valid in
    (
      λ h.
          let (hn, ha) = Lists-nonempty n a q (updates [] news) valid.entries h in
          (hn, ha, (foldl-none n a q news).0 (sym (view-updates n a hn ha [] news) ∙ listed.0 h)),
      λ (hn, ha, h). listed.1 (view-updates n a hn ha [] news ∙ (foldl-none n a q news).1 h),
    )
