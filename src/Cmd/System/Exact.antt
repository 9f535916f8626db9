-- ===== src/Cmd/System/Exact.antt =====
-- DigAndReport as a whole: just what its last display shows.
use mobydig.Prelude.{
  All, All-remove, Any, List, Text, [], ap, arith, has, inl, inr, refl, some, subst, sym, true,
  ◌++◌, ◌↔◌, ◌∙◌, ◌∷◌, ◌≡◌, ◌≢◌,
}
use mobydig.Cmd.Report.Last.{Displayed-ShowsAll}
use mobydig.Cmd.System.{Runs, System}
use mobydig.Cmd.System.Refinement.{Runs-alone}
use mobydig.Cmd.System.Return.{Runs-ended}
use mobydig.Cmd.System.Soundness.{IsSetFound, system-IsSetFound, verdicts}
use mobydig.Dig.AddrMap.{NamedAddressSet, NamedAddressesMap, get}
use mobydig.Dig.AddrMap.Abstract.{Agree}
use mobydig.Dig.AddrMap.Contents.{HasAddress, Lists, Lists-nonempty, get-Lists}
use mobydig.Dig.AddrMap.Invariant.{IsValid}
use mobydig.Dig.AddrMap.View.{view}
use mobydig.Dig.Digger.Sources.{IsName}
use mobydig.Dig.Networks.{DockerNetwork, all_fqdns_on_attached_networks}
use mobydig.DnsWorker.Resolve.{DnsEnv, resolve_name}
use mobydig.Ping.{Pinger}
use mobydig.Pipeline.{dug-verdict}
use mobydig.Types.Addr.{QualifiedAddressValue}
use mobydig.Types.Quality.{Quality, is_verdict}
use mobydig.Verifier.Run.Delivery.{client}
use mobydig.Verifier.Run.Told.{IsJudged}

-- What is shown last.
abbrev pub last_display : List (List NamedAddressSet) → List NamedAddressSet
last_display [] = []
last_display (sets ∷ []) = sets
last_display (_ ∷ sets ∷ rest) = last_display (sets ∷ rest)

-- A name that is dug, completed by dns.Fqdn, and an address that it resolves to, neither empty.
abbrev pub IsResolved :
    (Text → Text) → (Text → DnsEnv) → (names : List Text) → (n a : Text) → Type 0
IsResolved fqdn env names n a =
    IsName fqdn env names n × (has a (resolve_name (env n) n).0 ≡ true) × (n ≢ []) × (a ≢ [])

-- The sets list the address for the name with one quality, which is a verdict, and in the list.
abbrev pub IsSettled : (js : List (Text × Quality)) → (n a : Text) → List NamedAddressSet → Type 0
IsSettled js n a sets =
    (q : Quality) × (is_verdict q ≡ true)
    × Any (λ j. j ≡ (a, q)) js
    × ((other_quality : Quality) → Lists n a other_quality sets ↔ (other_quality ≡ q))

last_display-snoc :
    (earlier : List (List NamedAddressSet)) (sets : List NamedAddressSet)
    → last_display (earlier ++ sets ∷ []) ≡ sets
last_display-snoc [] sets = refl
last_display-snoc (x ∷ []) sets = refl
last_display-snoc (x ∷ y ∷ earlier) sets = last_display-snoc (y ∷ earlier) sets

asked_name :
    (fqdn : Text → Text) (n : Text) (names : List Text)
    → Any (λ name. fqdn name ≡ n) names
    → (name : Text) × (has name names ≡ true) × (fqdn name ≡ n)
unfolding has
asked_name fqdn n [] h = absurd h
asked_name fqdn n (x ∷ names) (inl e) = (x, ground arith, e)
asked_name fqdn n (x ∷ names) (inr h) =
    let (name, member, e) = asked_name fqdn n names h in (name, ground (arith, member), e)

HasAddress-at :
    (P : QualifiedAddressValue → Type 0) (a : Text) (q : Quality) (vs : List QualifiedAddressValue)
    → All P vs
    → HasAddress a q vs
    → (v : QualifiedAddressValue) × P v × (v.address ≡ a) × (v.quality ≡ q)
HasAddress-at P a q [] all h = absurd h
HasAddress-at P a q (v ∷ vs) all (inl (e, f)) = (v, all.0, e, f)
HasAddress-at P a q (v ∷ vs) all (inr h) = HasAddress-at P a q vs all.1 h

module _ (fqdn : Text → Text) (env : Text → DnsEnv) (names : List Text) (js : List (Text × Quality))
    (n a : Text) (q : Quality) where
  Lists-found :
      (sets : List NamedAddressSet)
      → All (IsSetFound fqdn env names js) sets
      → Lists n a q sets
      → IsName fqdn env names n × (has a (resolve_name (env n) n).0 ≡ true) × IsJudged js a q
  Lists-found [] all h = absurd h
  Lists-found (set ∷ sets) all (inr h) = Lists-found sets all.1 h
  Lists-found (set ∷ sets) ((is_name, addresses), _) (inl (e, h)) =
      let (v, (resolved, judgement), same, alike) = HasAddress-at _ a q set.addresses addresses h in
      (
        subst (IsName fqdn env names) e is_name,
        subst (λ b. has b (resolve_name (env n) n).0 ≡ true) same
            (subst (λ m. has v.address (resolve_name (env m) m).0 ≡ true) e resolved),
        subst (IsJudged js a) alike (subst (λ b. IsJudged js b v.quality) same judgement),
      )

module _ {fqdn : Text → Text} {env : Text → DnsEnv} {p : Pinger} {ip : Text → Text}
    {nets : List DockerNetwork} {s : System} (r : Runs fqdn env p ip nets s)
    (done_all : s.display.finished ≡ true) (n a : Text) where
  abbrev names : List Text
  names = all_fqdns_on_attached_networks nets

  -- The map as it is shown last.
  last_map :
      (m : NamedAddressesMap) × IsValid m
      × Agree m (client s.verifier)
      × (last_display s.display.rendered ≡ get m)
      × All (IsSetFound fqdn env names (verdicts r)) (get m)
  last_map =
      let displaying = (Runs-alone r).2 in
      let (earlier, m, e, valid, agree) = Displayed-ShowsAll displaying done_all in
      let sound =
        All-remove (All (IsSetFound fqdn env names (verdicts r))) earlier (get m) []
          (subst (All (All (IsSetFound fqdn env names (verdicts r)))) e (system-IsSetFound r)) in
      (m, valid, agree, ap last_display e ∙ last_display-snoc earlier (get m), sound.0)

  verdict_told :
      IsResolved fqdn env names n a
      → (q : Quality) × (is_verdict q ≡ true) × (view (client s.verifier) n a ≡ some q)
  verdict_told (is_name, resolved, hn, ha) =
      let (digging, verifying_run, _, digging_on, verifying_on) = Runs-alone r in
      let (dug_all, joined, _) = Runs-ended r done_all in
      let (name, asked, same) = asked_name fqdn n names is_name in
      subst (λ m. (q : Quality) × (is_verdict q ≡ true) × (view (client s.verifier) m a ≡ some q))
        same
        (dug-verdict digging verifying_run name a dug_all.0 digging_on joined.0 verifying_on asked
          (subst (λ m. has a (resolve_name (env m) m).0 ≡ true) (sym same) resolved)
          (λ e. hn (sym same ∙ e)) ha)

  settled :
      IsResolved fqdn env names n a → IsSettled (verdicts r) n a (last_display s.display.rendered)
  settled h =
      let (m, valid, agree, e, sound) = last_map in
      let (q, final, told) = verdict_told h in
      let view_of : view m n a ≡ some q = agree n a h.2 h.3 ∙ told in
      let listed : Lists n a q (get m) = (get-Lists n a q m valid).1 view_of in
      let (_, _, judgement) = Lists-found fqdn env names (verdicts r) n a q (get m) sound listed in
      subst (IsSettled (verdicts r) n a) (sym e) (
        q,
        final,
        elim judgement [ inl open_quality ↦ cc | inr j ↦ j ],
        λ k. (
          λ lists. let viewed : view m n a ≡ some k = (get-Lists n a k m valid).0 lists in cc,
          λ same. subst (λ x. Lists n a x (get m)) (sym same) listed,
        ),
      )

  -- When DigAndReport has returned, however its goroutines have interleaved: the sets displayed last
  -- list an address for a name with just one quality, a verdict that a job of the Pinger has come to
  -- on the address, exactly if the name is one that AllFQDNsOnAttachedNetworks makes of the networks,
  -- completed by dns.Fqdn, the address is one that the name resolves to, and neither is empty.
  pub system-IsSettled :
      IsSettled (verdicts r) n a (last_display s.display.rendered) ↔ IsResolved fqdn env names n a
  system-IsSettled = (
    λ (q, _, _, lists).
        let (m, valid, agree, e, sound) = last_map in
        let listed : Lists n a q (get m) = subst (Lists n a q) e ((lists q).1 refl) in
        let (is_name, resolved, _) =
          Lists-found fqdn env names (verdicts r) n a q (get m) sound listed in
        let (hn, ha) = Lists-nonempty n a q m valid.entries listed in (is_name, resolved, hn, ha),
    settled,
  )
