-- ===== src/Messymoby/Loop.antt =====
-- The loops of RemoveDuplicateTestNetworks that remove.
use mobydig.Prelude.{
  All, Bool, Bool-cases, Distinct, List, Text, [], arith, false, has, has-append, if◌then◌else◌,
  inl, inr, none, not, refl, some, text_discrete, true, ◌&&◌, ◌++◌, ◌||◌, ◌∙◌, ◌∷◌, ◌≡◌, ◌≢◌,
}
use mobydig.Messymoby.{
  NetworkResource, after_networks, duplicates_loop, is_labelled, is_one, is_predefined,
  remove_networks,
}
use mobydig.Messymoby.Maps.{LeadsTo, slice_at}
use mobydig.Prelude.Dict.{Entries, keys, lookup}

-- The network of the id has the label.
abbrev pub labelled_at : (labelname : Text) → List (Text × NetworkResource) → Text → Bool
labelled_at labelname netrscs x = elim (lookup x netrscs) [
  | some net ↦ is_labelled labelname net.labels
  | none ↦ false
]

-- The names whose networks are left alone.
abbrev pub is_kept : Text → List Text → Bool
is_kept netname net_ids = is_one net_ids || is_predefined netname

module _ (labelname : Text) (netrscs : List (Text × NetworkResource)) where
  remove_networks-has :
      (name : Text) (net_ids : List Text)
      → All (LeadsTo netrscs name) net_ids
      → (removed : List Text) × (remove_networks labelname netrscs net_ids ≡ some removed)
        × ((x : Text) → has x removed ≡ (has x net_ids && labelled_at labelname netrscs x))
  unfolding remove_networks has
  remove_networks-has name [] h = ([], refl, λ x. refl)
  remove_networks-has name (i ∷ net_ids) ((net, e, f), h) =
      let (rest, g, counted) = remove_networks-has name net_ids h in
      (
        (if is_labelled labelname net.labels then i ∷ rest else rest),
        rw (remove_networks, e, g) refl,
        λ x. elim (text_discrete i x) [
          | yes same ↦ ground (arith, e, counted x, same)
          | no unlike ↦ ground (arith, counted x, unlike)
        ],
      )

  -- Whether an id is removed, entry by entry.
  abbrev pub in_loop : Text → List (Text × List Text) → Bool
  in_loop x [] = false
  in_loop x ((netname, net_ids) ∷ netnames) =
      (not (is_kept netname net_ids) && (has x net_ids && labelled_at labelname netrscs x))
      || in_loop x netnames

  pub duplicates_loop-has :
      (netnames : List (Text × List Text))
      → Entries (λ name. All (LeadsTo netrscs name)) netnames
      → (removed : List Text) × (duplicates_loop labelname netrscs netnames ≡ some removed)
        × ((x : Text) → has x removed ≡ in_loop x netnames)
  unfolding duplicates_loop has
  duplicates_loop-has [] h = ([], refl, λ x. refl)
  duplicates_loop-has ((netname, net_ids) ∷ netnames) (p, h) =
      let (rest, g, counted) = duplicates_loop-has netnames h in
      let (here, e, told) = remove_networks-has netname net_ids p in
      elim (Bool-cases (is_kept netname net_ids)) [
        | inl k ↦ (rest, rw (k, g) refl, λ x. rw k (counted x))
        | inr k ↦ (
          here ++ rest,
          rw (k, e, g) (unfold after_networks in refl),
          λ x. has-append x here rest ∙ rw k (ground (arith, told x, counted x)),
        )
      ]

  -- An id that leads to a network of this name is in no entry of another name.
  LeadsTo-name :
      (x name : Text) (net : NetworkResource) (net_ids : List Text)
      → lookup x netrscs ≡ some net
      → All (LeadsTo netrscs name) net_ids
      → has x net_ids ≡ true
      → name ≡ net.name
  unfolding has
  LeadsTo-name x name net [] e h p = cc
  LeadsTo-name x name net (i ∷ net_ids) e ((k, f, g), h) p = elim (text_discrete i x) [
    | yes same ↦ cc (same, e, f, g)
    | no unlike ↦ LeadsTo-name x name net net_ids e h (ground (arith, unlike, p))
  ]

  in_loop-absent :
      (x : Text) (net : NetworkResource) (netnames : List (Text × List Text))
      → lookup x netrscs ≡ some net
      → Entries (λ name. All (LeadsTo netrscs name)) netnames
      → has net.name (keys netnames) ≡ false
      → in_loop x netnames ≡ false
  unfolding has
  in_loop-absent x net [] e h p = refl
  in_loop-absent x net ((name, net_ids) ∷ netnames) e (q, h) p =
      ground (arith, LeadsTo-name x name net net_ids e q, in_loop-absent x net netnames e h, p)

  -- One entry decides.
  pub in_loop-slice_at :
      (x : Text) (net : NetworkResource) (netnames : List (Text × List Text))
      → lookup x netrscs ≡ some net
      → Distinct (keys netnames)
      → Entries (λ name. All (LeadsTo netrscs name)) netnames
      → in_loop x netnames ≡ (
          not (is_kept net.name (slice_at net.name netnames))
          && (has x (slice_at net.name netnames) && is_labelled labelname net.labels))
  unfolding has lookup
  in_loop-slice_at x net [] e d h = ground arith
  in_loop-slice_at x net ((name, net_ids) ∷ netnames) e (unlike, d) (q, h) =
      elim (text_discrete name net.name) [
        | yes same ↦
            let absent : in_loop x netnames ≡ false =
              in_loop-absent x net netnames e h (rw (← same) unlike) in
            let found : slice_at net.name ((name, net_ids) ∷ netnames) ≡ net_ids =
              ground (arith, same) in
            rw (found, ← same) (ground (arith, absent, e))
        | no unequal ↦
            let later : slice_at net.name ((name, net_ids) ∷ netnames)
                ≡ slice_at net.name netnames =
              ground (arith, unequal) in
            let elsewhere : has x net_ids ≢ true =
              λ p. unequal (LeadsTo-name x name net net_ids e q p) in
            rw later (ground (arith, in_loop-slice_at x net netnames e d h, elsewhere))
      ]

  pub in_loop-missing :
      (x : Text) (netnames : List (Text × List Text))
      → lookup x netrscs ≡ none
      → in_loop x netnames ≡ false
  in_loop-missing x [] e = refl
  in_loop-missing x ((name, net_ids) ∷ netnames) e = ground (arith, e, in_loop-missing x netnames e)
