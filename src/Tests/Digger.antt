-- ===== src/Tests/Digger.antt =====
-- dig/mobynet.go and dig/dig.go: two networks, and a run that digs one name for a verifier.
use mobydig.Dig.Digger
use mobydig.Dig.Digger.News
use mobydig.Verifier.Run
use mobydig.Prelude.{
  Distinct, List, Text, [], arith, codes, false, has, none, refl, text_discrete, true, ◌++◌, ◌∷◌,
  ◌≡◌,
}
use mobydig.Dig.Digger.{announcement, callback, dug}
use mobydig.Dig.Digger.Occurrences.{Reach-count, expected}
use mobydig.Dig.Networks.{
  DockerNetwork, all_fqdns_lem, all_fqdns_on_attached_networks, all_labels, dotted_names,
}
use mobydig.DnsWorker.Resolve.{
  DnsEnv, QueryType, Reply, a_record, answered, failed, resolve_name, type_a, type_aaaa,
}
use mobydig.Ping.{Pinger, Surroundings, announce, verdict}
use mobydig.Prelude.Dict.{insert, lookup}
use mobydig.Tests.Samples.{at, foo, ten, text-ne}
use mobydig.Types.Addr.{as_named, named, with_new_quality}
use mobydig.Types.Quality.{verified, verifying}
use mobydig.Verifier.AddrCache.{update}
use mobydig.Verifier.Run.{after_update, take_address, take_message}

-- A container on two networks, and one that is on the first only.
abbrev two_nets : List DockerNetwork
two_nets =
    record { label = codes "net_a"; labels = codes "foo" ∷ codes "bar" ∷ [] }
    ∷ record { label = codes "net_b"; labels = codes "foo" ∷ [] }
    ∷ []

all_fqdns-two_nets :
    all_fqdns_on_attached_networks two_nets
    ≡ codes "foo.net_a" ∷ codes "bar.net_a" ∷ codes "foo.net_b" ∷ codes "foo" ∷ codes "bar" ∷ []
unfolding all_fqdns_on_attached_networks text_discrete
all_fqdns-two_nets = refl

all_fqdns_lem_example :
    (flat : List Text) × (all_fqdns_on_attached_networks two_nets ≡ dotted_names two_nets ++ flat)
    × Distinct flat
    × ((x : Text) → has x flat ≡ has x (all_labels two_nets))
all_fqdns_lem_example = all_fqdns_lem two_nets

abbrev with_dot : Text → Text
with_dot name = name ++ codes "."

abbrev answers : QueryType → Reply
answers type_a = answered (a_record ten ∷ [])
answers type_aaaa = failed (codes "timeout")

-- Every name has one address, and the second query fails.
abbrev server : Text → DnsEnv
server _ = record {
  ended = λ _. none;
  exchange = λ t _. answers t;
  fqdn = λ name. name;
  quoted = λ name. name;
}

abbrev one_name : List Text
one_name = codes "foo" ∷ []

record Dug : Type 0 where
  last : Digger.State
  reach : Digger.Reach with_dot server one_name last
  is_closed : last.closed ≡ true
  uncancelled : last.cancelled ≡ false
  news_lem : last.news ≡ announcement foo ∷ dug foo ten ∷ []

digging : Dug
unfolding resolve_name callback
digging =
    let r1 = Digger.next Digger.start (Digger.announce (codes "foo") [] refl refl) in
    let r2 = Digger.next r1 (Digger.submit foo refl) in
    let r3 = Digger.next r2 (Digger.resolve [] foo [] refl) in
    let r4 = Digger.next r3 (Digger.emit [] (dug foo ten) [] [] refl) in
    let r5 = Digger.next r4 (Digger.sent [] [] refl) in
    record {
      last = _;
      reach = Digger.next r5 (Digger.stop_wait refl refl refl refl refl);
      is_closed = refl;
      uncancelled = refl;
      news_lem = refl;
    }

Reach-count_example :
    News.count foo ten digging.last.news ≡ expected with_dot server foo ten one_name
Reach-count_example =
    Reach-count with_dot server foo ten digging.reach digging.is_closed digging.uncancelled

abbrev answered_pings : Surroundings
answered_pings = record {
  ended_before = none;
  switch_error = λ _. none;
  run_error = λ _. none;
  ended_after = none;
  packets_recv = λ _. 3;
}

abbrev defaults : Pinger
defaults = record {
  count = 3;
  interval = 1000000000;
  threshold_percentage = 50;
  unprivileged = false;
  netns = none;
}

record Verified : Type 0 where
  last : Run.State
  reach : Run.Reach defaults digging.last.news last
  is_ended : last.main ≡ Run.ended
  uncancelled : last.cancelled ≡ false

-- The announcement is passed on, the address taken and pinged.
verification : Verified
unfolding digging take_address take_message update lookup insert text_discrete after_update announce
    with_new_quality as_named verdict has announcement dug resolve_name callback
verification =
    let qa = announce (named (dug foo ten)) in
    let r1 = Run.next Run.start (Run.pass (announcement foo) _ refl refl refl) in
    let r2 = Run.next r1 (Run.take 1 _ _ refl refl (text-ne _ _) (λ _. omega arith)) in
    let r3 = Run.next r2 (Run.send_verifying qa refl) in
    let r4 = Run.next r3 (Run.submit qa refl) in
    let r5 = Run.next r4 (Run.drained refl refl) in
    let r6 =
      Run.next r5 (Run.slurp 3 _ (at foo ten verifying) _ refl refl refl (λ _. omega arith)) in
    let r7 = Run.next r6 (Run.decide answered_pings [] qa [] refl) in
    let r8 =
      Run.next r7 (Run.slurp 3 _ (at foo ten verified) _ refl refl refl (λ _. omega arith)) in
    let r9 = Run.next r8 (Run.stop refl refl) in
    let r10 = Run.next r9 (Run.slurp_closed refl refl refl) in
    record {
      last = _;
      reach = Run.next r10 (Run.finish refl refl);
      is_ended = refl;
      uncancelled = refl;
    }
