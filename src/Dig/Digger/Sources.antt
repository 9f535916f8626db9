-- ===== src/Dig/Digger/Sources.antt =====
-- What a digger sends comes from the names that it is given and from what these resolve to.
use mobydig.Prelude.{
  All, All-insert, All-map, All-remove, All-snoc, Any, List, Option, Text, [], arith, has, inl, inr,
  map, none, refl, some, subst, true, ◌∷◌, ◌≡◌, ◌⊎◌,
}
use mobydig.Dig.Digger.{
  Reach, State, Step, announce, announcement, callback, cancel, dug, emit, emit_cancelled, give_up,
  messages, next, resolve, sent, start, stop_wait, submit,
}
use mobydig.DnsWorker.Resolve.{DnsEnv, resolve_name}
use mobydig.Types.Addr.{NamedAddressValue}

All-self :
    (fqdn : Text → Text) (names : List Text)
    → All (λ name. Any (λ other. fqdn other ≡ fqdn name) names) names
All-self fqdn [] = tt
All-self fqdn (x ∷ xs) = (inl refl, All-map (λ y h. inr h) xs (All-self fqdn xs))

module _ (fqdn : Text → Text) (env : Text → DnsEnv) (names : List Text) where
  -- One of the names, completed by dns.Fqdn.
  abbrev pub IsName : Text → Type 0
  IsName n = Any (λ name. fqdn name ≡ n) names

  -- No address, or one that the name resolves to.
  abbrev pub IsFound : Text → Text → Type 0
  IsFound n a = IsName n × ((a ≡ []) ⊎ (has a (resolve_name (env n) n).0 ≡ true))

  abbrev IsFoundIn : NamedAddressValue → Type 0
  IsFoundIn na = IsFound na.fqdn na.address

  abbrev IsAnnounced : Option Text → Type 0
  IsAnnounced none = Unit
  IsAnnounced (some n) = IsName n

  abbrev Founded : State → Type 0
  Founded s =
      All (λ name. IsName (fqdn name)) s.names
      × IsAnnounced s.announced
      × All IsName s.queued
      × All (All IsFoundIn) s.sending
      × All IsFoundIn s.news

  dug-IsFoundIn :
      (n : Text) (addrs : List Text)
      → IsName n
      → ((a : Text) → has a addrs ≡ true → has a (resolve_name (env n) n).0 ≡ true)
      → All IsFoundIn (map (dug n) addrs)
  unfolding dug has
  dug-IsFoundIn n [] h f = tt
  dug-IsFoundIn n (a ∷ addrs) h f =
      ((h, inr (f a (ground arith))), dug-IsFoundIn n addrs h (λ b k. f b (ground (arith, k))))

  messages-IsFoundIn : (n : Text) → IsName n → All IsFoundIn (messages env n)
  unfolding callback
  messages-IsFoundIn n h = dug-IsFoundIn n (resolve_name (env n) n).0 h (λ a k. k)

  Step-Founded : {s t : State} → Step fqdn env s t → Founded s → Founded t
  unfolding announcement
  Step-Founded (cancel x) h = h
  Step-Founded {s} (announce name rest i e) (left, announced, queued, sending, news) =
      let (now, later) = subst (All (λ name. IsName (fqdn name))) e left in
      (later, now, queued, sending, All-snoc IsFoundIn s.news _ news (now, inl refl))
  Step-Founded (give_up i x) (left, announced, queued, sending, news) =
      (tt, announced, queued, sending, news)
  Step-Founded {s} (submit name i) (left, announced, queued, sending, news) = (
    left,
    tt,
    All-snoc IsName s.queued name queued (subst IsAnnounced i announced),
    sending,
    news,
  )
  Step-Founded (resolve before name after e) (left, announced, queued, sending, news) =
      let (now, others) = All-remove IsName before name after (subst (All IsName) e queued) in
      (left, announced, others, (messages-IsFoundIn name now, sending), news)
  Step-Founded {s} (emit before na rest after e) (left, announced, queued, sending, news) =
      let (now, others) =
        All-remove (All IsFoundIn) before (na ∷ rest) after
          (subst (All (All IsFoundIn)) e sending) in
      (
        left,
        announced,
        queued,
        All-insert (All IsFoundIn) before rest after now.1 others,
        All-snoc IsFoundIn s.news na news now.0,
      )
  Step-Founded (emit_cancelled before nas after e x) (left, announced, queued, sending, news) =
      let (_, others) =
        All-remove (All IsFoundIn) before nas after (subst (All (All IsFoundIn)) e sending) in
      (left, announced, queued, others, news)
  Step-Founded (sent before after e) (left, announced, queued, sending, news) =
      let (_, others) =
        All-remove (All IsFoundIn) before [] after (subst (All (All IsFoundIn)) e sending) in
      (left, announced, queued, others, news)
  Step-Founded (stop_wait a b c d e) h = h

  Reach-Founded : {s : State} → Reach fqdn env names s → Founded s
  Reach-Founded start = (All-self fqdn names, tt, tt, tt, tt)
  Reach-Founded (next r st) = Step-Founded st (Reach-Founded r)

  -- Whatever a digger has sent so far, whether or not the context ends, is about one of the names
  -- that it was given, completed by dns.Fqdn, and has no address or one that the name resolves to.
  pub Reach-IsFound :
      {s : State} → Reach fqdn env names s → All (λ na. IsFound na.fqdn na.address) s.news
  Reach-IsFound r = (Reach-Founded r).4
