-- ===== src/DnsWorker/Resolve.antt =====
-- `ResolveName`: the task that it submits, up to its one call of the callback. The exchange with
-- the DNS server and the context answer as arguments; so do `dns.Fqdn`, and the `%q` of the message.
use mobydig.Prelude.{Bool, List, Text, [], codes, false, if◌then◌else◌, none, some, true, ◌++◌, ◌∷◌}
use mobydig.Types.Addr.{Error}

pub data QueryType : Type 0 where
  type_a type_aaaa : QueryType

-- A resource record of an answer, with the text of its address.
pub data Answer : Type 0 where
  a_record : Text → Answer
  aaaa_record : Text → Answer
  other : Answer

-- The outcome of one exchange.
pub data Reply : Type 0 where
  answered : List Answer → Reply
  failed : Text → Reply

-- What the code of other repositories answers to one task.
pub record DnsEnv : Type 0 where
  pub ended : QueryType → Error  -- `ctx.Err()` before the query, or nil for the default
  pub exchange : QueryType → Text → Reply
  pub fqdn : Text → Text
  pub quoted : Text → Text

-- The variables of the loop.
pub record Found : Type 0 where
  pub addrs : List Text
  pub nada_nothing : Bool

-- The loop over the records of an answer.
unfoldable pub collect : List Answer → Found → Found
collect [] f = f
collect (a_record text ∷ rrs) f =
    collect rrs (record { addrs = f.addrs ++ text ∷ []; nada_nothing = false })
collect (aaaa_record text ∷ rrs) f =
    collect rrs (record { addrs = f.addrs ++ text ∷ []; nada_nothing = false })
collect (other ∷ rrs) f = collect rrs f

-- The loop over the query types, and the error with which it returns, if it does.
unfoldable pub query_loop : DnsEnv → Text → List QueryType → Found → Found × Error
unfolding collect
query_loop env name [] f = (f, none)
query_loop env name (t ∷ ts) f = elim (env.ended t) [
  | some e ↦ (f, some e)
  | none ↦ elim (env.exchange t (env.fqdn name)) [
    | failed e ↦ (f, some e)
    | answered rrs ↦ query_loop env name ts (collect rrs f)
  ]
]

unfoldable pub no_answers : DnsEnv → Text → Text
no_answers env name =
    codes "ResolveName: query for " ++ (env.quoted name ++ codes " yields no answers")

-- The statement after the loop.
unfoldable pub conclude : DnsEnv → Text → Found × Error → List Text × Error
unfolding no_answers
conclude env name (f, some e) = (f.addrs, some e)
conclude env name (f, none) = (f.addrs, if f.nada_nothing then some (no_answers env name) else none)

-- What the callback is called with.
unfoldable pub resolve_name : DnsEnv → Text → List Text × Error
unfolding query_loop conclude
resolve_name env name =
    conclude env name
      (query_loop env name (type_a ∷ type_aaaa ∷ []) (record { addrs = []; nada_nothing = true }))
