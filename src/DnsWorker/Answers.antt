-- ===== src/DnsWorker/Answers.antt =====
-- The outcome of a resolution, against the list of its replies.
use mathlib.Core.List.{append_assoc, append-nil}
use mobydig.Prelude.{
  Bool, List, Option-cases, Text, [], ap, false, if◌then◌else◌, inl, inr, none, refl, some, sym,
  true, ◌&&◌, ◌++◌, ◌∙◌, ◌∷◌, ◌≡◌, ◌⊎◌,
}
use mobydig.DnsWorker.Resolve.{
  Answer, DnsEnv, Found, QueryType, Reply, a_record, aaaa_record, answered, collect, failed,
  no_answers, other, query_loop, resolve_name, type_a, type_aaaa,
}
use mobydig.Types.Addr.{Error}

-- The addresses in an answer, in order.
unfoldable pub addresses_in : List Answer → List Text
addresses_in [] = []
addresses_in (a_record text ∷ rrs) = text ∷ addresses_in rrs
addresses_in (aaaa_record text ∷ rrs) = text ∷ addresses_in rrs
addresses_in (other ∷ rrs) = addresses_in rrs

-- A query that a context that has ended does not send fails too.
unfoldable pub reply_to : DnsEnv → Text → QueryType → Reply
reply_to env name t = elim (env.ended t) [
  | some e ↦ failed e
  | none ↦ env.exchange t (env.fqdn name)
]

-- The addresses of the replies before the first failure.
unfoldable pub gathered : List Reply → List Text
gathered [] = []
gathered (answered rrs ∷ replies) = addresses_in rrs ++ gathered replies
gathered (failed e ∷ replies) = []

unfoldable pub first_failed : List Reply → Error
first_failed [] = none
first_failed (answered rrs ∷ replies) = first_failed replies
first_failed (failed e ∷ replies) = some e

abbrev pub is_empty : List Text → Bool
is_empty [] = true
is_empty (x ∷ xs) = false

is_empty-append : (xs ys : List Text) → is_empty (xs ++ ys) ≡ (is_empty xs && is_empty ys)
is_empty-append [] ys = refl
is_empty-append (x ∷ xs) ys = refl

abbrev pub found : List Text → Found
found addrs = record { addrs = addrs; nada_nothing = is_empty addrs }

found-snoc :
    (text : Text) (addrs : List Text)
    → found (addrs ++ text ∷ []) ≡ record { addrs = addrs ++ text ∷ []; nada_nothing = false }
found-snoc text [] = refl
found-snoc text (x ∷ addrs) = refl

collect-found_one :
    (text : Text) (rrs : List Answer) (addrs : List Text)
    → collect rrs (found (addrs ++ text ∷ [])) ≡ found ((addrs ++ text ∷ []) ++ addresses_in rrs)
    → collect rrs (record { addrs = addrs ++ text ∷ []; nada_nothing = false })
      ≡ found (addrs ++ (text ∷ addresses_in rrs))
collect-found_one text rrs addrs h =
    ap (collect rrs) (sym (found-snoc text addrs))
    ∙ h
    ∙ ap found (append_assoc addrs (text ∷ []) (addresses_in rrs))

-- The flag says throughout whether no address has been found.
collect-found :
    (rrs : List Answer) (addrs : List Text)
    → collect rrs (found addrs) ≡ found (addrs ++ addresses_in rrs)
unfolding collect addresses_in
collect-found [] addrs = ap found (sym (append-nil addrs))
collect-found (a_record text ∷ rrs) addrs =
    collect-found_one text rrs addrs (collect-found rrs (addrs ++ text ∷ []))
collect-found (aaaa_record text ∷ rrs) addrs =
    collect-found_one text rrs addrs (collect-found rrs (addrs ++ text ∷ []))
collect-found (other ∷ rrs) addrs = collect-found rrs addrs

abbrev pub replies : DnsEnv → Text → List QueryType → List Reply
replies env name [] = []
replies env name (t ∷ ts) = reply_to env name t ∷ replies env name ts

Reply-cases :
    (r : Reply) → ((rrs : List Answer) × (r ≡ answered rrs)) ⊎ ((e : Text) × (r ≡ failed e))
Reply-cases (answered rrs) = inl (rrs, refl)
Reply-cases (failed e) = inr (e, refl)

abbrev after_reply : DnsEnv → Text → List QueryType → Found → Reply → Found × Error
after_reply env name ts f (answered rrs) = query_loop env name ts (collect rrs f)
after_reply env name ts f (failed e) = (f, some e)

query_loop-cons :
    (env : DnsEnv) (name : Text) (t : QueryType) (ts : List QueryType) (f : Found)
    → query_loop env name (t ∷ ts) f ≡ after_reply env name ts f (reply_to env name t)
unfolding query_loop reply_to
query_loop-cons env name t ts f = elim (Option-cases (env.ended t)) [
  | inl e ↦
      rw (e, query_loop, reply_to)
        (elim (Reply-cases (env.exchange t (env.fqdn name))) [
          | inl (rrs, r) ↦ rw (r, query_loop)
          | inr (x, r) ↦ rw (r, query_loop)
        ])
  | inr (x, e) ↦ rw (e, query_loop, reply_to)
]

query_loop-replies :
    (env : DnsEnv) (name : Text) (ts : List QueryType) (addrs : List Text)
    → query_loop env name ts (found addrs)
      ≡ (found (addrs ++ gathered (replies env name ts)), first_failed (replies env name ts))
unfolding gathered first_failed query_loop
query_loop-replies env name [] addrs = rw append-nil
query_loop-replies env name (t ∷ ts) addrs =
    query_loop-cons env name t ts (found addrs) ∙ elim (Reply-cases (reply_to env name t)) [
      | inl (rrs, r) ↦ rw (
        r,
        collect-found,
        query_loop-replies env name ts (addrs ++ addresses_in rrs),
        append_assoc,
      )
      | inr (x, r) ↦ rw (r, append-nil)
    ]

-- The callback is given the addresses of the answers, A before AAAA, up to the first query that
-- fails or is not sent, and the error of that query; if both are answered the error is nil exactly
-- if some address was found.
pub resolve_name_lem :
    (env : DnsEnv) (name : Text)
    → let rs = replies env name (type_a ∷ type_aaaa ∷ []) in
      ((resolve_name env name).0 ≡ gathered rs)
      × ((first_failed rs ≡ none)
            × ((resolve_name env name).1
                ≡ (if is_empty (gathered rs) then some (no_answers env name) else none))
          ⊎ ((e : Text) × (first_failed rs ≡ some e) × ((resolve_name env name).1 ≡ some e)))
unfolding resolve_name
resolve_name_lem env name =
    let ts : List QueryType = type_a ∷ type_aaaa ∷ [] in
    let rs = replies env name ts in
    rw (query_loop-replies env name ts []) (elim (Option-cases (first_failed rs)) [
      | inl e ↦ rw e (refl, inl (refl, refl))
      | inr (x, e) ↦ rw e (refl, inr (x, refl, refl))
    ])
