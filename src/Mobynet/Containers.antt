-- ===== src/Mobynet/Containers.antt =====
-- How the loop over the containers of a network ends.
use mobydig.Prelude.{
  List, Option-cases, Text, [], arith, has, has-append, inl, inr, refl, text_discrete, ◌++◌, ◌∙◌,
  ◌∷◌, ◌≡◌, ◌⊎◌,
}
use mobydig.Dig.Networks.{Distinct-add_key, add_key, has-add_key}
use mobydig.Mobynet.{Cache, Client, alias_loop, container_loop, panicked, returned}
use mobydig.Mobynet.Labels.{
  AddsTo, HasStray, IsCache, IsStray, alias_loop-AddsTo, cntr_details-cases, container_loop-failed,
  container_loop-ok, container_loop-own, container_loop-stray, names_of, names_of-failed,
  names_of-ok, names_of-own, names_on,
}
use mobydig.Prelude.Dict.{lookup}

-- With the labels of the network, or with a panic.
abbrev pub Collected : Client → (own net : Text) → List Text → Cache → List Text → Type 0
Collected moby own net cntrs cache names =
    ((names' : List Text) × (cache' : Cache) × (container_loop moby own net cntrs cache names
        ≡ returned (names', cache'))
      × AddsTo (names_on moby own net cntrs) names names'
      × IsCache moby cache')
    ⊎ ((container_loop moby own net cntrs cache names ≡ panicked) × HasStray moby own net cntrs)

AddsTo-cons :
    (cntr : Text) (aliases rest names names' : List Text)
    → AddsTo rest (alias_loop aliases (add_key cntr names)) names'
    → AddsTo ((cntr ∷ aliases) ++ rest) names names'
unfolding has
AddsTo-cons cntr aliases rest names names' (distinct', added') =
    let (distinct, added) = alias_loop-AddsTo aliases (add_key cntr names) in
    (
      λ d. distinct' (distinct (Distinct-add_key cntr names d)),
      λ x. added' x ∙ ground (arith, added x, has-add_key x cntr names, has-append x aliases rest),
    )

module _ (moby : Client) (own net : Text) where
  stray_later :
      (cntr : Text) (cntrs : List Text)
      → HasStray moby own net cntrs
      → HasStray moby own net (cntr ∷ cntrs)
  unfolding has
  stray_later cntr cntrs (c, inside, stray) = (c, ground (arith, inside), stray)

  stray_now :
      (cntr : Text) (cntrs : List Text)
      → IsStray moby own net cntr
      → HasStray moby own net (cntr ∷ cntrs)
  unfolding has
  stray_now cntr cntrs stray = (cntr, ground arith, stray)

  -- A container that adds nothing.
  skip :
      (cntr : Text) (cntrs : List Text) (cache : Cache) (names : List Text)
      → container_loop moby own net (cntr ∷ cntrs) cache names
        ≡ container_loop moby own net cntrs cache names
      → names_of moby own net cntr ≡ []
      → Collected moby own net cntrs cache names
      → Collected moby own net (cntr ∷ cntrs) cache names
  unfolding names_on
  skip cntr cntrs cache names e none_of (inl (names', cache', r, adds, valid)) =
      inl (names', cache', e ∙ r, rw none_of adds, valid)
  skip cntr cntrs cache names e none_of (inr (r, stray)) = inr (e ∙ r, stray_later cntr cntrs stray)

  -- A container that adds its name and its aliases.
  keep :
      (cntr : Text) (cntrs : List Text) (cache cache' : Cache) (aliases names : List Text)
      → container_loop moby own net (cntr ∷ cntrs) cache names
        ≡ container_loop moby own net cntrs cache' (alias_loop aliases (add_key cntr names))
      → names_of moby own net cntr ≡ cntr ∷ aliases
      → Collected moby own net cntrs cache' (alias_loop aliases (add_key cntr names))
      → Collected moby own net (cntr ∷ cntrs) cache names
  unfolding names_on
  keep cntr cntrs cache cache' aliases names e some_of (inl (names', last, r, adds, valid)) =
      inl (names', last, e ∙ r, rw some_of (AddsTo-cons cntr aliases _ names names' adds), valid)
  keep cntr cntrs cache cache' aliases names e some_of (inr (r, stray)) =
      inr (e ∙ r, stray_later cntr cntrs stray)

  pub container_loop-cases :
      (cntrs : List Text) (cache : Cache) (names : List Text)
      → IsCache moby cache
      → Collected moby own net cntrs cache names
  unfolding container_loop names_on has
  container_loop-cases [] cache names h = inl (names, cache, refl, (λ d. d, λ x. ground arith), h)
  container_loop-cases (cntr ∷ cntrs) cache names h = elim (text_discrete cntr own) [
    | yes e ↦
        skip cntr cntrs cache names (container_loop-own moby own net cntr cntrs cache names e)
          (names_of-own moby own net cntr e) (container_loop-cases cntrs cache names h)
    | no ne ↦ elim (cntr_details-cases moby cache cntr h) [
      | inl (e, f, g) ↦
          skip cntr cntrs cache names
            (container_loop-failed moby own net cntr cntrs cache names e ne f)
            (names_of-failed moby own net cntr e g) (container_loop-cases cntrs cache names h)
      | inr (d, cache', f, g, h') ↦ elim (Option-cases (lookup net d.networks)) [
        | inl l ↦ inr (
          container_loop-stray moby own net cntr cntrs cache names d cache' ne f l,
          stray_now cntr cntrs (ne, (d, g, l)),
        )
        | inr (ep, l) ↦
            keep cntr cntrs cache cache' ep.aliases names
              (container_loop-ok moby own net cntr cntrs cache names d cache' ep ne f l)
              (names_of-ok moby own net cntr d ep ne g l)
              (container_loop-cases cntrs cache' (alias_loop ep.aliases (add_key cntr names)) h')
      ]
    ]
  ]
