-- ===== src/Tests/DnsWorker.antt =====
-- dnsworker/dnsworker.go: two connections and two tasks.
use mathlib.Core.Logic.{∥∥₁_elim}
use mathlib.Core.HLevel.{⊥_prop}
use mathlib.Core.List.{Mem, Nodup-cons, eq-or-mem_of_mem-cons, not-mem-nil, Perm, Nodup, Pairwise}
use mobydig.Prelude.{
  List, Text, [], arith, codes, if◌then◌else◌, inl, inr, none, refl, some, true, ℕ, ℕ_discrete, ◌+◌,
  ◌∷◌, ◌≡◌, ◌⊎◌,
}
use mobydig.DnsWorker.Answers.{first_failed, gathered, is_empty, replies, resolve_name_lem}
use mobydig.DnsWorker.Dial.{
  Conn, Dialled, IsOpened, apply_options, conn, dial_failed, in_network_namespace, new,
  new-IsOpened,
}
use mobydig.DnsWorker.Exclusive.{Reach-closed, Reach-held, held}
use mobydig.DnsWorker.Resolve.{
  DnsEnv, QueryType, Reply, a_record, answered, no_answers, other, resolve_name, type_a, type_aaaa,
}
use mobydig.DnsWorker.Tasks.{
  Pool, Reach, begin, end, give_back, grab, next, start, stop_wait, submit,
}
use mobydig.Tests.Samples.{foo, ten}

two_conns : ℕ → Dialled
two_conns i = conn (i + 3)

-- The third dial fails.
third_fails : ℕ → Dialled
third_fails i = elim (ℕ_discrete i 2) [
  | yes e ↦ dial_failed (codes "refused")
  | no ne ↦ conn (i + 3)
]

new_lem :
    new [] (λ _. none) two_conns 2 ≡ record { free = some (3 ∷ 4 ∷ []); err = none; closed = [] }
unfolding new two_conns
new_lem = refl

new-IsOpened_example :
    IsOpened
      (some (codes "/proc/1/ns/net"))
      (λ _. none)
      third_fails
      4
      (new (in_network_namespace (codes "/proc/1/ns/net") ∷ []) (λ _. none) third_fails 4)
unfolding apply_options in_network_namespace
new-IsOpened_example =
    new-IsOpened (in_network_namespace (codes "/proc/1/ns/net") ∷ []) (λ _. none) third_fails 4

abbrev conns : List Conn
conns = 3 ∷ 4 ∷ []

apart : ¬ ((◌≡◌ {A = Conn} 3 4) ⊎ Mem {A = Conn} 3 [])
apart (inl e) = omega (arith, e)
apart (inr m) = not-mem-nil m

conns-Nodup : Nodup conns
conns-Nodup =
    Nodup-cons.1 (
      λ m. ∥∥₁_elim (eq-or-mem_of_mem-cons m) ⊥_prop apart,
      Nodup-cons.1 (not-mem-nil, Pairwise.nil),
    )

record Stopped : Type 0 where
  last : Pool
  reach : Reach 2 conns last
  is_stopped : last.stopped ≡ true

-- Two tasks run at once, and the first to begin is the first to end.
whole_run : Stopped
unfolding grab give_back
whole_run =
    let r1 = next start (submit refl) in
    let r2 = next r1 (submit refl) in
    let r3 = next r2 (begin 1 refl refl (omega arith)) in
    let r4 = next r3 (begin 0 refl refl (omega arith)) in
    let r5 = next r4 (end (3 ∷ []) 4 [] refl) in
    let r6 = next r5 (end [] 3 [] refl) in
    record { last = _; reach = next r6 (stop_wait refl refl refl); is_stopped = refl }

Reach-held_example : Perm (held whole_run.last) conns × Nodup (held whole_run.last)
Reach-held_example = Reach-held (omega arith) whole_run.reach conns-Nodup

Reach-closed_example : (whole_run.last.free ≡ []) × Perm whole_run.last.closed conns
Reach-closed_example = Reach-closed (omega arith) whole_run.reach whole_run.is_stopped

-- An address for the first query, and none for the second.
abbrev one_address : DnsEnv
one_address = record {
  ended = λ _. none;
  exchange = λ t _. reply t;
  fqdn = λ name. name;
  quoted = λ name. name;
}
  where
    reply : QueryType → Reply
    reply type_a = answered (other ∷ a_record ten ∷ [])
    reply type_aaaa = answered []

resolve_name-one_address : resolve_name one_address foo ≡ (ten ∷ [], none)
unfolding resolve_name
resolve_name-one_address = refl

resolve_name_lem_example :
    let rs = replies one_address foo (type_a ∷ type_aaaa ∷ []) in
    ((resolve_name one_address foo).0 ≡ gathered rs)
    × ((first_failed rs ≡ none)
          × ((resolve_name one_address foo).1
              ≡ (if is_empty (gathered rs) then some (no_answers one_address foo) else none))
        ⊎ ((e : Text) × (first_failed rs ≡ some e) × ((resolve_name one_address foo).1 ≡ some e)))
resolve_name_lem_example = resolve_name_lem one_address foo
