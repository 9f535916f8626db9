-- ===== src/Verifier/Run/Delivery.antt =====
-- What a run that is not cancelled delivers to a consumer that keeps the news in a map.
use mobydig.Prelude.{
  All, Bool, Bool-cases, List, Option-cases, Text, [], ap, arith, false, inl, inr, ite, refl, subst,
  sym, text_discrete, true, ℕ, ◌++◌, ◌∙◌, ◌∷◌, ◌≡◌, ◌≢◌, ◌≤◌, ◌⊎◌,
}
use mobydig.Dig.AddrMap.{NamedAddressesMap}
use mobydig.Dig.AddrMap.Tracking.{updates, updates-append}
use mobydig.Dig.AddrMap.View.{report, view, view-update-report}
use mobydig.Ping.{Pinger, new}
use mobydig.Prelude.Dict.{lookup}
use mobydig.Types.Addr.{NamedAddressValue, QualifiedAddress, named}
use mobydig.Types.Quality.{is_verdict}
use mobydig.Verifier.AddrCache.{NamedAddressCache, update}
use mobydig.Verifier.AddrCache.Delivery.{
  InStep, IsOrderly, Served, update-InStep, update-Served, wanted,
}
use mobydig.Verifier.AddrCache.Invariant.{cached}
use mobydig.Verifier.Run.{
  State, Step, abandon, cancel, decide, drained, drop, finish, finish_cancelled, init, leave, pass,
  pass_cancelled, send_verifying, slurp, slurp_cancelled, slurp_closed, stop, submit, take,
  take_address, take_message,
}
use mobydig.Verifier.Run.Invariant.{Inv, IsPending, named_of_as_named, verdict_opens}
use mobydig.Verifier.Run.Tokens.{IsKnown}

-- The map that a consumer has made of the news.
abbrev pub client : State → NamedAddressesMap
client s = updates [] s.news

-- Does the input hold the address under the name?
unfoldable pub has_pair : Text → Text → List NamedAddressValue → Bool
has_pair n a [] = false
has_pair n a (na ∷ input) =
    ite (text_discrete na.fqdn n) (ite (text_discrete na.address a) true (has_pair n a input))
      (has_pair n a input)

module _ (n a : Text) where
  pub record Delivered (s : State) : Type 0 where
    pub in_step : InStep n (lookup a s.cache) (view (client s) n a)
    pub served : (has_pair n a s.input ≡ true) ⊎ Served n (lookup a s.cache) (view (client s) n a)

  pub init-Delivered :
      (input : List NamedAddressValue) → has_pair n a input ≡ true → Delivered (init input)
  unfolding lookup view updates
  init-Delivered input h = record { in_step = refl; served = inl h }

-- What arrives from the input is no verdict, so it overrules none.
take-IsOrderly :
    (c : NamedAddressCache) (na : NamedAddressValue)
    → is_verdict na.quality ≡ false
    → IsOrderly na (lookup na.address c)
take-IsOrderly c na h = elim (Option-cases (lookup na.address c)) [
  | inl e ↦ rw e tt
  | inr (qc, e) ↦ rw e (λ gt. ground arith)
]

-- The first verdict on an address is the only one, and comes under a registered name.
slurp-IsOrderly :
    (s : State) (na : NamedAddressValue) (rest : List QualifiedAddress)
    → s.court ≡ named na ∷ rest
    → Inv s
    → IsOrderly na (lookup na.address s.cache)
unfolding cached
slurp-IsOrderly s na rest e inv =
    let known : All (IsKnown s.cache) (named na ∷ rest) =
      subst (All (IsKnown s.cache)) e inv.court_known in
    elim (Bool-cases (is_verdict na.quality)) [
      | inr v ↦ take-IsOrderly s.cache na v
      | inl v ↦ elim (Option-cases (lookup na.address s.cache)) [
        | inl l ↦ rw l tt
        | inr (qc, l) ↦
            let open_one = verdict_opens s na rest e v inv in
            rw l (λ gt. ground (arith, known.0, l, open_one))
      ]
    ]

module _ (n a : Text) (hn : n ≢ []) (ha : a ≢ []) where
  -- The news of a step, after all that was sent before.
  view-client :
      (old new : List NamedAddressValue)
      → view (updates [] (old ++ new)) n a ≡ view (updates (updates [] old) new) n a
  view-client old new = ap (λ m. view m n a) (updates-append [] old new)

  has_pair-cons :
      (na : NamedAddressValue) (input : List NamedAddressValue)
      → has_pair n a (na ∷ input) ≡ true
      → (has_pair n a input ≡ true) ⊎ ((na.fqdn ≡ n) × (na.address ≡ a))
  unfolding has_pair
  has_pair-cons na input h = ground arith

  take-Delivered :
      (room : ℕ) (s : State) (na : NamedAddressValue) (rest : List NamedAddressValue)
      → s.input ≡ na ∷ rest
      → wanted (lookup na.address s.cache) ≤ room
      → is_verdict na.quality ≡ false
      → Delivered n a s
      → Delivered n a (take_address room s na rest)
  unfolding take_address
  take-Delivered room s na rest e roomy h d =
      let o = take-IsOrderly s.cache na h in
      let serve = update-Served room s.cache na (client s) n a hn ha roomy o d.in_step in
      record {
        in_step =
            rw (view-client s.news (update room s.cache na).news)
              (update-InStep room s.cache na (client s) n a hn ha roomy o d.in_step);
        served = rw (view-client s.news (update room s.cache na).news) (elim d.served [
          | inl asked ↦ elim (has_pair-cons na rest (ap (has_pair n a) (sym e) ∙ asked)) [
            | inl later ↦ inl later
            | inr now ↦ inr (serve (inr now))
          ]
          | inr told ↦ inr (serve (inl told))
        ]);
      }

  slurp-Delivered :
      (room : ℕ) (s : State) (na : NamedAddressValue) (rest : List QualifiedAddress)
      → wanted (lookup na.address s.cache) ≤ room
      → IsOrderly na (lookup na.address s.cache)
      → Delivered n a s
      → Delivered n a (take_message room s na rest)
  unfolding take_message
  slurp-Delivered room s na rest roomy o d = record {
    in_step =
        rw (view-client s.news (update room s.cache na).news)
          (update-InStep room s.cache na (client s) n a hn ha roomy o d.in_step);
    served = rw (view-client s.news (update room s.cache na).news) (elim d.served [
      | inl asked ↦ inl asked
      | inr told ↦
          inr (update-Served room s.cache na (client s) n a hn ha roomy o d.in_step (inl told))
    ]);
  }

  view-update_undug :
      (m : NamedAddressesMap) (na : NamedAddressValue)
      → na.address ≡ []
      → view (updates m (na ∷ [])) n a ≡ view m n a
  unfolding updates report
  view-update_undug m na undug = ground (arith, view-update-report m na n a hn ha)

  -- An address that is passed on undug says nothing of any address.
  pass-Delivered :
      (s : State) (na : NamedAddressValue) (rest : List NamedAddressValue)
      → s.input ≡ na ∷ rest
      → na.address ≡ []
      → Delivered n a s
      → Delivered n a (record s { input = rest; news = s.news ++ na ∷ [] })
  pass-Delivered s na rest e undug d =
      let same : view (updates [] (s.news ++ na ∷ [])) n a ≡ view (client s) n a =
        view-client s.news (na ∷ []) ∙ view-update_undug (client s) na undug in
      record {
        in_step = rw same d.in_step;
        served = rw same (elim d.served [
          | inl asked ↦ elim (has_pair-cons na rest (ap (has_pair n a) (sym e) ∙ asked)) [
            | inl later ↦ inl later
            | inr now ↦ absurd (ha (sym now.1 ∙ undug))
          ]
          | inr told ↦ inr told
        ]);
      }

  idle-Delivered :
      {s t : State}
      → t.input ≡ s.input
      → t.cache ≡ s.cache
      → t.news ≡ s.news
      → Delivered n a s
      → Delivered n a t
  idle-Delivered i c w d = record { in_step = rw (c, w) d.in_step; served = rw (i, c, w) d.served }

  pub Step-Delivered :
      {p : Pinger} {s t : State}
      → Step p s t
      → t.cancelled ≡ false
      → Inv s
      → Delivered n a s
      → Delivered n a t
  unfolding take_address take_message
  Step-Delivered (cancel x) c inv d = cc
  Step-Delivered {s = s} (pass na rest m e undug) c inv d = pass-Delivered s na rest e undug d
  Step-Delivered (pass_cancelled na rest m e _ x) c inv d = cc
  Step-Delivered {s = s} (take room na rest m e _ r) c inv d =
      let p : All IsPending (na ∷ rest) = subst (All IsPending) e inv.pending in
      take-Delivered room s na rest e (r c) p.0 d
  Step-Delivered (drained m e) c inv d = idle-Delivered refl refl refl d
  Step-Delivered (leave m x) c inv d = cc
  Step-Delivered (send_verifying qa m) c inv d = idle-Delivered refl refl refl d
  Step-Delivered (abandon qa m x) c inv d = cc
  Step-Delivered (submit qa m) c inv d = idle-Delivered refl refl refl d
  Step-Delivered (decide env before qa after e) c inv d = idle-Delivered refl refl refl d
  Step-Delivered (drop before qa after e x) c inv d = cc
  Step-Delivered (stop m e) c inv d = idle-Delivered refl refl refl d
  Step-Delivered {s = s} (slurp room qa na rest l e k r) c inv d =
      slurp-Delivered room s na rest (r c)
        (slurp-IsOrderly s na rest (e ∙ ap (λ q. q ∷ rest) (named_of_as_named qa na k)) inv) d
  Step-Delivered (slurp_closed l e o) c inv d = idle-Delivered refl refl refl d
  Step-Delivered (slurp_cancelled l x) c inv d = cc
  Step-Delivered (finish m f) c inv d = idle-Delivered refl refl refl d
  Step-Delivered (finish_cancelled m x) c inv d = cc
