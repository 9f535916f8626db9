-- ===== src/Dig/AddrMap/Sources.antt =====
-- What the map of dig/addrmap.go holds and hands out comes from its updates.
use mobydig.Prelude.{
  All, All-snoc, Bool-cases, List, Option-cases, Text, [], arith, if_neg, if_pos, inl, inr, some,
  subst, sym, text_discrete, ◌∷◌, ◌≡◌, ◌≢◌,
}
use mobydig.Dig.AddrMap.{
  NamedAddressSet, NamedAddressesMap, get, raise, scan, update, update_known, update_unknown,
}
use mobydig.Prelude.Dict.{Entries, Entries-insert, Entries-lookup, lookup}
use mobydig.Types.Addr.{NamedAddressValue, QualifiedAddressValue}
use mobydig.Types.Quality.{Quality, qual_gt}

module _ (P : Text → Text → Type 0) (R : Text → Quality → Type 0) where
  -- An address that is known for the name, with a quality that is known for it.
  abbrev IsAddressOf : Text → QualifiedAddressValue → Type 0
  IsAddressOf n v = P n v.address × (v.address ≢ []) × R v.address v.quality

  abbrev pub IsEntryOf : Text → List QualifiedAddressValue → Type 0
  IsEntryOf n vs = ((a : Text) × P n a) × All (IsAddressOf n) vs

  abbrev pub IsSetOf : NamedAddressSet → Type 0
  IsSetOf set = IsEntryOf set.fqdn set.addresses

  raise-IsAddressOf :
      (n : Text) (v w : QualifiedAddressValue)
      → w.address ≡ v.address
      → R v.address v.quality
      → IsAddressOf n w
      → IsAddressOf n (raise v w)
  unfolding raise
  raise-IsAddressOf n v w same r h = elim (Bool-cases (qual_gt v.quality w.quality)) [
    | inl e ↦ rw e (h.0, h.1, subst (λ a. R a v.quality) (sym same) r)
    | inr e ↦ rw e h
  ]

  scan-IsAddressOf :
      (n : Text) (v : QualifiedAddressValue) (vs written : List QualifiedAddressValue)
      → R v.address v.quality
      → All (IsAddressOf n) vs
      → scan v vs ≡ some written
      → All (IsAddressOf n) written
  unfolding scan
  scan-IsAddressOf n v [] written r h e = cc
  scan-IsAddressOf n v (w ∷ vs) written r (now, later) e =
      elim (text_discrete w.address v.address) [
        | yes p ↦
            let same : raise v w ∷ vs ≡ written = ground (arith, p, e) in
            subst (All (IsAddressOf n)) same (raise-IsAddressOf n v w p r now, later)
        | no p ↦ elim (Option-cases (scan v vs)) [
          | inl f ↦ absurd (ground (arith, p, e, f))
          | inr (us, f) ↦
              let same : w ∷ us ≡ written = ground (arith, p, e, f) in
              subst (All (IsAddressOf n)) same (now, scan-IsAddressOf n v vs us r later f)
        ]
      ]

  module _ (m : NamedAddressesMap) (na : NamedAddressValue) (p : P na.fqdn na.address)
      (r : R na.address na.quality) (h : Entries IsEntryOf m) where
    known-Entries :
        (vs : List QualifiedAddressValue)
        → IsEntryOf na.fqdn vs
        → Entries IsEntryOf (update_known m na vs)
    unfolding update_known
    known-Entries vs e = elim (text_discrete na.address []) [
      | yes q ↦ rw (if_pos _ q) h
      | no q ↦ rw (if_neg _ q) (elim (Option-cases (scan na.qa vs)) [
        | inl f ↦ rw f (
            Entries-insert IsEntryOf na.fqdn _ m
              (e.0, All-snoc (IsAddressOf na.fqdn) vs na.qa e.1 (p, q, r)) h)
        | inr (written, f) ↦ rw f (
            Entries-insert IsEntryOf na.fqdn _ m
              (e.0, scan-IsAddressOf na.fqdn na.qa vs written r e.1 f) h)
      ])
    ]

    unknown-Entries : Entries IsEntryOf (update_unknown m na)
    unfolding update_unknown
    unknown-Entries = elim (text_discrete na.address []) [
      | yes q ↦ rw (if_pos _ q) (Entries-insert IsEntryOf na.fqdn [] m ((na.address, p), tt) h)
      | no q ↦
          rw (if_neg _ q)
            (Entries-insert IsEntryOf na.fqdn (na.qa ∷ []) m ((na.address, p), ((p, q, r), tt)) h)
    ]

    pub update-Entries : Entries IsEntryOf (update m (some na))
    unfolding update
    update-Entries = elim (text_discrete na.fqdn []) [
      | yes q ↦ rw (if_pos _ q) h
      | no q ↦ rw (if_neg _ q) (elim (Option-cases (lookup na.fqdn m)) [
        | inl e ↦ rw e unknown-Entries
        | inr (vs, e) ↦ rw e (known-Entries vs (Entries-lookup IsEntryOf na.fqdn vs m h e))
      ])
    ]

  pub get-All : (m : NamedAddressesMap) → Entries IsEntryOf m → All IsSetOf (get m)
  unfolding get
  get-All [] h = tt
  get-All ((n, vs) ∷ m) (now, later) = (now, get-All m later)
