-- ===== src/Dig/AddrMap/View.antt =====
-- What a map of named addresses says of a name and an address, and what `Update` does to it.
use mobydig.Prelude.{
  List, Option, Option-cases, Text, [], arith, inl, inr, ite, none, refl, some, text_discrete, ◌++◌,
  ◌∷◌, ◌≡◌, ◌≢◌,
}
use mobydig.Dig.AddrMap.{NamedAddressesMap, scan, update, update_known, update_unknown}
use mobydig.Prelude.Dict.{insert, lookup, lookup-insert}
use mobydig.Types.Addr.{NamedAddressValue, QualifiedAddressValue}
use mobydig.Types.Quality.{Quality, raised}

unfoldable pub quality_at : Text → List QualifiedAddressValue → Option Quality
quality_at a [] = none
quality_at a (v ∷ vs) = ite (text_discrete v.address a) (some v.quality) (quality_at a vs)

-- The quality that the map stores for an address of a name.
unfoldable pub view : NamedAddressesMap → Text → Text → Option Quality
unfolding quality_at
view m n a = elim (lookup n m) [ some vs ↦ quality_at a vs | none ↦ none ]

quality_at-append :
    (a : Text) (v : QualifiedAddressValue) (vs : List QualifiedAddressValue)
    → quality_at a (vs ++ v ∷ []) ≡ elim (quality_at a vs) [
      | some q ↦ some q
      | none ↦ ite (text_discrete v.address a) (some v.quality) none
    ]
unfolding quality_at
quality_at-append a v [] = refl
quality_at-append a v (w ∷ vs) = ground (arith, quality_at-append a v vs)

-- The loop finds the address exactly if the list has it, and then raises its quality alone.
scan-none :
    (v : QualifiedAddressValue) (vs : List QualifiedAddressValue)
    → scan v vs ≡ none
    → quality_at v.address vs ≡ none
unfolding scan quality_at
scan-none v [] h = refl
scan-none v (w ∷ vs) h = ground (arith, scan-none v vs)

scan-some :
    (v : QualifiedAddressValue) (a : Text) (vs ws : List QualifiedAddressValue)
    → scan v vs ≡ some ws
    → quality_at a ws
      ≡ ite
          (text_discrete v.address a)
          (some (raised (quality_at v.address vs) v.quality))
          (quality_at a vs)
unfolding scan quality_at
scan-some v a [] ws h = cc
scan-some v a (w ∷ vs) ws h = elim (Option-cases (scan v vs)) [
  | inl e ↦ ground (arith, e)
  | inr (us, e) ↦ ground (arith, scan-some v a vs us e)
]

module _ (m : NamedAddressesMap) (na : NamedAddressValue) (n a : Text) (asked : a ≢ []) where
  view-insert :
      (k : Text) (vs : List QualifiedAddressValue)
      → view (insert k vs m) n a ≡ ite (text_discrete k n) (quality_at a vs) (view m n a)
  unfolding view
  view-insert k vs = ground (arith, lookup-insert k n vs m)

  view-update_known :
      (vs : List QualifiedAddressValue)
      → lookup na.fqdn m ≡ some vs
      → view (update_known m na vs) n a
        ≡ ite
            (text_discrete na.fqdn n)
            (ite (text_discrete na.address a) (some (raised (view m n a) na.quality)) (view m n a))
            (view m n a)
  unfolding update_known view
  view-update_known vs h = elim (Option-cases (scan na.qa vs)) [
    | inl e ↦ ground (
      arith,
      h,
      e,
      view-insert na.fqdn (vs ++ na.qa ∷ []),
      quality_at-append a na.qa vs,
      scan-none na.qa vs,
    )
    | inr (ws, e) ↦ ground (arith, h, e, view-insert na.fqdn ws, scan-some na.qa a vs ws e)
  ]

  -- `Update` with a named address raises the quality stored for that name and address to the
  -- quality reported, or stores it, and leaves every other name and address as it was.
  pub view-update :
      na.fqdn ≢ []
      → view (update m (some na)) n a
        ≡ ite
            (text_discrete na.fqdn n)
            (ite (text_discrete na.address a) (some (raised (view m n a) na.quality)) (view m n a))
            (view m n a)
  unfolding update update_unknown view quality_at
  view-update nonempty = elim (Option-cases (lookup na.fqdn m)) [
    | inl e ↦ ground (arith, e, view-insert na.fqdn [], view-insert na.fqdn (na.qa ∷ []))
    | inr (vs, e) ↦ ground (arith, e, view-update_known vs e)
  ]

-- The quality of one name and address after a report of any name and address.
unfoldable pub report : Text → Text → Option Quality → NamedAddressValue → Option Quality
report n a q na =
    ite (text_discrete na.fqdn n) (ite (text_discrete na.address a) (some (raised q na.quality)) q)
      q

pub view-update-report :
    (m : NamedAddressesMap) (na : NamedAddressValue) (n a : Text)
    → n ≢ []
    → a ≢ []
    → view (update m (some na)) n a ≡ report n a (view m n a) na
unfolding report update
view-update-report m na n a hn ha = elim (text_discrete na.fqdn []) [
  | yes p ↦ ground arith
  | no p ↦ view-update m na n a ha p
]

-- Two reports may change places.
pub report_comm :
    (n a : Text) (q : Option Quality) (x y : NamedAddressValue)
    → report n a (report n a q x) y ≡ report n a (report n a q y) x
unfolding report
report_comm n a q x y = ground arith
