-- ===== src/Dig/Digger/Pending.antt =====
-- What the digger sends is still to be verified.
use mobydig.Prelude.{
  All, All-insert, All-remove, All-snoc, List, Text, [], map, none, refl, subst, ◌∷◌, ◌≡◌,
}
use mobydig.Dig.Digger.{
  Reach, State, Step, announce, announcement, callback, cancel, dug, emit, emit_cancelled, give_up,
  next, resolve, sent, start, stop_wait, submit,
}
use mobydig.DnsWorker.Resolve.{DnsEnv, resolve_name}
use mobydig.Types.Addr.{Error, NamedAddressValue}
use mobydig.Types.Quality.{unverified}

abbrev pub IsUnverified : NamedAddressValue → Type 0
IsUnverified na = (na.quality ≡ unverified) × (na.err ≡ none)

dug-IsUnverified : (name : Text) (addrs : List Text) → All IsUnverified (map (dug name) addrs)
unfolding dug
dug-IsUnverified name [] = tt
dug-IsUnverified name (x ∷ addrs) = ((refl, refl), dug-IsUnverified name addrs)

callback-IsUnverified : (name : Text) (r : List Text × Error) → All IsUnverified (callback name r)
unfolding callback
callback-IsUnverified name (addrs, err) = dug-IsUnverified name addrs

abbrev AllSent : State → Type 0
AllSent s = All IsUnverified s.news × All (All IsUnverified) s.sending

module _ {fqdn : Text → Text} {env : Text → DnsEnv} where
  Step-AllSent : {s t : State} → Step fqdn env s t → AllSent s → AllSent t
  unfolding announcement
  Step-AllSent (cancel x) h = h
  Step-AllSent {s} (announce name rest i e) (news, sending) =
      (All-snoc IsUnverified s.news _ news (refl, refl), sending)
  Step-AllSent (give_up i x) h = h
  Step-AllSent (submit name i) h = h
  Step-AllSent (resolve before name after e) (news, sending) =
      (news, (callback-IsUnverified name (resolve_name (env name) name), sending))
  Step-AllSent {s} (emit before na rest after e) (news, sending) =
      let (now, others) =
        All-remove (All IsUnverified) before (na ∷ rest) after
          (subst (All (All IsUnverified)) e sending) in
      (
        All-snoc IsUnverified s.news na news now.0,
        All-insert (All IsUnverified) before rest after now.1 others,
      )
  Step-AllSent (emit_cancelled before nas after e x) (news, sending) = (
    news,
    (All-remove (All IsUnverified) before nas after (subst (All (All IsUnverified)) e sending)).1,
  )
  Step-AllSent (sent before after e) (news, sending) = (
    news,
    (All-remove (All IsUnverified) before [] after (subst (All (All IsUnverified)) e sending)).1,
  )
  Step-AllSent (stop_wait _ _ _ _ _) h = h

  Reach-AllSent : {names : List Text} {s : State} → Reach fqdn env names s → AllSent s
  Reach-AllSent start = (tt, tt)
  Reach-AllSent (next r st) = Step-AllSent st (Reach-AllSent r)

  -- Whatever has been sent so far has the quality Unverified and no error, whether or not the
  -- context ends.
  pub Reach-IsUnverified :
      {names : List Text} {s : State} → Reach fqdn env names s → All IsUnverified s.news
  Reach-IsUnverified r = (Reach-AllSent r).0
