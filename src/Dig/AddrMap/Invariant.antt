-- ===== src/Dig/AddrMap/Invariant.antt =====
-- The shape that `Update` keeps: each name once and none empty, and for each name each address once
-- and none empty.
use mobydig.Prelude.{
  Distinct, Distinct-snoc, List, Option, Option-cases, Text, [], arith, false, has, if_neg, if_pos,
  inl, inr, none, refl, some, text_discrete, ◌++◌, ◌∷◌, ◌≡◌, ◌≢◌,
}
use mobydig.Dig.AddrMap.{NamedAddressesMap, scan, update, update_known, update_unknown}
use mobydig.Prelude.Dict.{
  Distinct-insert, Entries, Entries-insert, Entries-lookup, insert, keys, lookup,
}
use mobydig.Types.Addr.{NamedAddressValue, QualifiedAddressValue}

abbrev pub addresses_of : List QualifiedAddressValue → List Text
addresses_of [] = []
addresses_of (v ∷ vs) = v.address ∷ addresses_of vs

abbrev pub AllNonempty : List Text → Type 0
AllNonempty [] = Unit
AllNonempty (x ∷ xs) = (x ≢ []) × AllNonempty xs

abbrev pub IsValidEntry : Text → List QualifiedAddressValue → Type 0
IsValidEntry n vs = (n ≢ []) × Distinct (addresses_of vs) × AllNonempty (addresses_of vs)

pub record IsValid (m : NamedAddressesMap) : Type 0 where
  pub names : Distinct (keys m)
  pub entries : Entries IsValidEntry m

addresses_of-snoc :
    (v : QualifiedAddressValue) (vs : List QualifiedAddressValue)
    → addresses_of (vs ++ v ∷ []) ≡ addresses_of vs ++ v.address ∷ []
addresses_of-snoc v [] = refl
addresses_of-snoc v (w ∷ vs) = cc (addresses_of-snoc v vs)

AllNonempty-snoc :
    (x : Text) (xs : List Text) → x ≢ [] → AllNonempty xs → AllNonempty (xs ++ x ∷ [])
AllNonempty-snoc x [] h all = (h, tt)
AllNonempty-snoc x (y ∷ xs) h all = (all.0, AllNonempty-snoc x xs h all.1)

-- The write of the loop changes no address.
scan-addresses :
    (v : QualifiedAddressValue) (vs ws : List QualifiedAddressValue)
    → scan v vs ≡ some ws
    → addresses_of ws ≡ addresses_of vs
unfolding scan
scan-addresses v [] ws h = cc
scan-addresses v (w ∷ vs) ws h = elim (Option-cases (scan v vs)) [
  | inl e ↦ ground (arith, e)
  | inr (us, e) ↦ ground (arith, e, scan-addresses v vs us e)
]

scan-absent :
    (v : QualifiedAddressValue) (vs : List QualifiedAddressValue)
    → scan v vs ≡ none
    → has v.address (addresses_of vs) ≡ false
unfolding scan has
scan-absent v [] h = refl
scan-absent v (w ∷ vs) h = ground (arith, scan-absent v vs)

insert-IsValid :
    (m : NamedAddressesMap) (k : Text) (vs : List QualifiedAddressValue)
    → IsValid m
    → IsValidEntry k vs
    → IsValid (insert k vs m)
insert-IsValid m k vs v e = record {
  names = Distinct-insert k vs m v.names;
  entries = Entries-insert IsValidEntry k vs m e v.entries;
}

update_known-IsValid :
    (m : NamedAddressesMap) (na : NamedAddressValue) (vs : List QualifiedAddressValue)
    → IsValid m
    → IsValidEntry na.fqdn vs
    → IsValid (update_known m na vs)
unfolding update_known
update_known-IsValid m na vs v e = elim (text_discrete na.address []) [
  | yes p ↦ rw (if_pos _ p) v
  | no p ↦ rw (if_neg _ p) (elim (Option-cases (scan na.qa vs)) [
    | inl q ↦ rw q (
        insert-IsValid m na.fqdn _ v (
          e.0,
          rw (addresses_of-snoc na.qa vs) (Distinct-snoc na.address _ (scan-absent na.qa vs q) e.1),
          rw (addresses_of-snoc na.qa vs) (AllNonempty-snoc na.address _ p e.2),
        ))
    | inr (ws, q) ↦ rw q (
        insert-IsValid m na.fqdn ws v
          (e.0, rw (scan-addresses na.qa vs ws q) e.1, rw (scan-addresses na.qa vs ws q) e.2))
  ])
]

update_unknown-IsValid :
    (m : NamedAddressesMap) (na : NamedAddressValue)
    → IsValid m
    → na.fqdn ≢ []
    → IsValid (update_unknown m na)
unfolding update_unknown has
update_unknown-IsValid m na v h = elim (text_discrete na.address []) [
  | yes p ↦ rw (if_pos _ p) (insert-IsValid m na.fqdn [] v (h, tt, tt))
  | no p ↦ rw (if_neg _ p) (insert-IsValid m na.fqdn (na.qa ∷ []) v (h, (refl, tt), (p, tt)))
]

-- Every `Update`, of anything, keeps the map valid.
pub update-IsValid :
    (m : NamedAddressesMap) (na : Option NamedAddressValue) → IsValid m → IsValid (update m na)
unfolding update
update-IsValid m none v = v
update-IsValid m (some na) v = elim (text_discrete na.fqdn []) [
  | yes p ↦ rw (if_pos _ p) v
  | no p ↦ rw (if_neg _ p) (elim (Option-cases (lookup na.fqdn m)) [
    | inl q ↦ rw q (update_unknown-IsValid m na v p)
    | inr (vs, q) ↦
        rw q (update_known-IsValid m na vs v (Entries-lookup IsValidEntry na.fqdn vs m v.entries q))
  ])
]
