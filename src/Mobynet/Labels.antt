-- ===== src/Mobynet/Labels.antt =====
-- The labels of one network, against the answers of the client without the cache.
use mobydig.Prelude.{
  Distinct, List, Option, Option-cases, Text, [], ap, arith, has, inl, inr, none, refl, some,
  text_discrete, true, ◌++◌, ◌||◌, ◌∙◌, ◌∷◌, ◌≡◌, ◌≢◌, ◌⊎◌,
}
use mobydig.Dig.Networks.{Distinct-add_key, add_key, has-add_key}
use mobydig.Mobynet.{
  Answered, Cache, Client, ContainerJson, Endpoint, alias_loop, cntr_details, container_loop,
  failed, ok, panicked,
}
use mobydig.Prelude.Dict.{insert, lookup, lookup-insert}

-- What one container adds to the labels of a network.
unfoldable pub names_of : Client → (own net cntr : Text) → List Text
names_of moby own net cntr = elim (text_discrete cntr own) [
  | yes e ↦ []
  | no ne ↦ elim (moby.container_inspect cntr) [
    | failed e ↦ []
    | ok d ↦ elim (lookup net d.networks) [ none ↦ [] | some ep ↦ cntr ∷ ep.aliases ]
  ]
]

unfoldable pub names_on : Client → (own net : Text) → List Text → List Text
names_on moby own net [] = []
names_on moby own net (cntr ∷ cntrs) = names_of moby own net cntr ++ names_on moby own net cntrs

-- A container of the network, other than the center, whose details do not list the network.
abbrev pub IsStray : Client → (own net cntr : Text) → Type 0
IsStray moby own net cntr =
    (cntr ≢ own)
    × ((d : ContainerJson) × (moby.container_inspect cntr ≡ ok d) × (lookup net d.networks ≡ none))

abbrev pub HasStray : Client → (own net : Text) → List Text → Type 0
HasStray moby own net cntrs = (cntr : Text) × (has cntr cntrs ≡ true) × IsStray moby own net cntr

-- The cache holds what the client answers.
abbrev pub IsCache : Client → Cache → Type 0
IsCache moby cache =
    (name : Text) (d : ContainerJson)
    → lookup name cache ≡ some d
    → moby.container_inspect name ≡ ok d

-- The labels that a loop adds to those it has.
abbrev pub AddsTo : List Text → List Text → List Text → Type 0
AddsTo added names names' =
    (Distinct names → Distinct names') × ((x : Text) → has x names' ≡ (has x names || has x added))

pub alias_loop-AddsTo :
    (aliases names : List Text) → AddsTo aliases names (alias_loop aliases names)
unfolding alias_loop has
alias_loop-AddsTo [] names = (λ d. d, λ x. ground arith)
alias_loop-AddsTo (alias ∷ aliases) names =
    let (distinct, added) = alias_loop-AddsTo aliases (add_key alias names) in
    (
      λ d. distinct (Distinct-add_key alias names d),
      λ x. added x ∙ ground (arith, has-add_key x alias names),
    )

insert-IsCache :
    (moby : Client) (cache : Cache) (name : Text) (d : ContainerJson)
    → moby.container_inspect name ≡ ok d
    → IsCache moby cache
    → IsCache moby (insert name d cache)
insert-IsCache moby cache name d e h k d' l = elim (text_discrete name k) [
  | yes same ↦
      let found : ◌≡◌ {A = Option ContainerJson} (some d) (some d') =
        ground (arith, lookup-insert name k d cache, same, l) in
      cc (e, ap moby.container_inspect same, found)
  | no ne ↦ h k d' (ground (arith, lookup-insert name k d cache, ne, l))
]

pub Answered-cases :
    {A : Type 0} (r : Answered A) → ((a : A) × (r ≡ ok a)) ⊎ ((e : Text) × (r ≡ failed e))
Answered-cases (ok a) = inl (a, refl)
Answered-cases (failed e) = inr (e, refl)

-- What the details are, whether they come from the cache or not.
pub cntr_details-cases :
    (moby : Client) (cache : Cache) (name : Text)
    → IsCache moby cache
    → ((e : Text) × (cntr_details moby cache name ≡ failed e)
        × (moby.container_inspect name ≡ failed e))
      ⊎ ((d : ContainerJson) × (cache' : Cache) × (cntr_details moby cache name ≡ ok (d, cache'))
          × (moby.container_inspect name ≡ ok d)
          × IsCache moby cache')
unfolding cntr_details
cntr_details-cases moby cache name h = elim (Option-cases (lookup name cache)) [
  | inr (d, l) ↦ inr (d, cache, rw (l, cntr_details) refl, h name d l, h)
  | inl l ↦ elim (Answered-cases (moby.container_inspect name)) [
    | inl (d, e) ↦ inr (
      d,
      insert name d cache,
      rw (l, cntr_details, e) refl,
      e,
      insert-IsCache moby cache name d e h,
    )
    | inr (x, e) ↦ inl (x, rw (l, cntr_details, e) refl, e)
  ]
]

module _ (moby : Client) (own net cntr : Text) where
  pub names_of-own : cntr ≡ own → names_of moby own net cntr ≡ []
  unfolding names_of
  names_of-own e = ground (arith, e)

  pub names_of-failed :
      (e : Text) → moby.container_inspect cntr ≡ failed e → names_of moby own net cntr ≡ []
  unfolding names_of
  names_of-failed e f = ground (arith, f)

  pub names_of-ok :
      (d : ContainerJson) (ep : Endpoint)
      → cntr ≢ own
      → moby.container_inspect cntr ≡ ok d
      → lookup net d.networks ≡ some ep
      → names_of moby own net cntr ≡ cntr ∷ ep.aliases
  unfolding names_of
  names_of-ok d ep ne e l = ground (arith, e, l, ne)

  module _ (cntrs : List Text) (cache : Cache) (names : List Text) where
    pub container_loop-own :
        cntr ≡ own
        → container_loop moby own net (cntr ∷ cntrs) cache names
          ≡ container_loop moby own net cntrs cache names
    unfolding container_loop
    container_loop-own e = ground (arith, e)

    pub container_loop-failed :
        (e : Text)
        → cntr ≢ own
        → cntr_details moby cache cntr ≡ failed e
        → container_loop moby own net (cntr ∷ cntrs) cache names
          ≡ container_loop moby own net cntrs cache names
    unfolding container_loop
    container_loop-failed e ne f = ground (arith, f, ne)

    pub container_loop-stray :
        (d : ContainerJson) (cache' : Cache)
        → cntr ≢ own
        → cntr_details moby cache cntr ≡ ok (d, cache')
        → lookup net d.networks ≡ none
        → container_loop moby own net (cntr ∷ cntrs) cache names ≡ panicked
    unfolding container_loop
    container_loop-stray d cache' ne f l = ground (arith, f, ne, l)

    pub container_loop-ok :
        (d : ContainerJson) (cache' : Cache) (ep : Endpoint)
        → cntr ≢ own
        → cntr_details moby cache cntr ≡ ok (d, cache')
        → lookup net d.networks ≡ some ep
        → container_loop moby own net (cntr ∷ cntrs) cache names
          ≡ container_loop moby own net cntrs cache' (alias_loop ep.aliases (add_key cntr names))
    unfolding container_loop
    container_loop-ok d cache' ep ne f l = ground (arith, f, ne, l)
