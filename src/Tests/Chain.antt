-- ===== src/Tests/Chain.antt =====
-- One network with one container, from its discovery to the last display: runs of the digger, the
-- verifier and the display, one after the other.
use mobydig.Dig.Digger
use mobydig.Verifier.Run
use mobydig.Prelude.{
  Text, [], arith, codes, false, has, none, refl, text_discrete, true, ◌++◌, ◌∷◌, ◌≡◌,
}
use mobydig.Cmd.Report.{
  Display, Displayed, last_refresh, refresh, render_data, report_returns, switched_on, then_step,
  track_end, track_one,
}
use mobydig.Dig.Digger.{announcement, callback, dug}
use mobydig.Dig.Networks.{DockerNetwork, all_fqdns_on_attached_networks}
use mobydig.DnsWorker.Resolve.{
  DnsEnv, QueryType, Reply, a_record, answered, resolve_name, type_a, type_aaaa,
}
use mobydig.Ping.{Pinger, Surroundings, announce, verdict}
use mobydig.Prelude.Dict.{insert, lookup}
use mobydig.Tests.Samples.{at, foo, ten, text-ne}
use mobydig.Types.Addr.{as_named, named, with_new_quality}
use mobydig.Types.Quality.{verified, verifying}
use mobydig.Verifier.AddrCache.{update}
use mobydig.Verifier.Run.{after_update, take_address, take_message}

abbrev pub net_a : DockerNetwork
net_a = record { label = codes "net_a"; labels = codes "foo" ∷ [] }

abbrev pub with_dot : Text → Text
with_dot name = name ++ codes "."

abbrev pub answers : QueryType → Reply
answers type_a = answered (a_record ten ∷ [])
answers type_aaaa = answered []

-- Every name has one address.
abbrev pub server : Text → DnsEnv
server _ = record {
  ended = λ _. none;
  exchange = λ t _. answers t;
  fqdn = λ name. name;
  quoted = λ name. name;
}

abbrev pub foo_net : Text
foo_net = codes "foo.net_a."

pub record Dug : Type 0 where
  pub last : Digger.State
  pub reach : Digger.Reach with_dot server (all_fqdns_on_attached_networks (net_a ∷ [])) last
  pub is_closed : last.closed ≡ true
  pub uncancelled : last.cancelled ≡ false

-- The second name is resolved first.
unfoldable pub digging : Dug
unfolding resolve_name callback all_fqdns_on_attached_networks text_discrete
digging =
    let r1 = Digger.next Digger.start (Digger.announce (codes "foo.net_a") _ refl refl) in
    let r2 = Digger.next r1 (Digger.submit foo_net refl) in
    let r3 = Digger.next r2 (Digger.announce (codes "foo") [] refl refl) in
    let r4 = Digger.next r3 (Digger.submit foo refl) in
    let r5 = Digger.next r4 (Digger.resolve (foo_net ∷ []) foo [] refl) in
    let r6 = Digger.next r5 (Digger.resolve [] foo_net [] refl) in
    let r7 = Digger.next r6 (Digger.emit [] (dug foo_net ten) [] _ refl) in
    let r8 = Digger.next r7 (Digger.sent [] _ refl) in
    let r9 = Digger.next r8 (Digger.emit [] (dug foo ten) [] [] refl) in
    let r10 = Digger.next r9 (Digger.sent [] [] refl) in
    record {
      last = _;
      reach = Digger.next r10 (Digger.stop_wait refl refl refl refl refl);
      is_closed = refl;
      uncancelled = refl;
    }

abbrev pub answered_pings : Surroundings
answered_pings = record {
  ended_before = none;
  switch_error = λ _. none;
  run_error = λ _. none;
  ended_after = none;
  packets_recv = λ _. 3;
}

abbrev pub defaults : Pinger
defaults = record {
  count = 3;
  interval = 1000000000;
  threshold_percentage = 50;
  unprivileged = false;
  netns = none;
}

pub record Verified : Type 0 where
  pub last : Run.State
  pub reach : Run.Reach defaults digging.last.news last
  pub is_ended : last.main ≡ Run.ended
  pub uncancelled : last.cancelled ≡ false

unfoldable pub verification : Verified
unfolding digging take_address take_message update lookup insert text_discrete after_update announce
    with_new_quality as_named verdict has announcement dug resolve_name callback
    all_fqdns_on_attached_networks
verification =
    let qa = announce (named (dug foo_net ten)) in
    let r1 = Run.next Run.start (Run.pass (announcement foo_net) _ refl refl refl) in
    let r2 = Run.next r1 (Run.pass (announcement foo) _ refl refl refl) in
    let r3 = Run.next r2 (Run.take 1 _ _ refl refl (text-ne _ _) (λ _. omega arith)) in
    let r4 = Run.next r3 (Run.send_verifying qa refl) in
    let r5 = Run.next r4 (Run.submit qa refl) in
    let r6 = Run.next r5 (Run.take 2 _ _ refl refl (text-ne _ _) (λ _. omega arith)) in
    let r7 = Run.next r6 (Run.drained refl refl) in
    let r8 =
      Run.next r7 (Run.slurp 3 _ (at foo_net ten verifying) _ refl refl refl (λ _. omega arith)) in
    let r9 = Run.next r8 (Run.decide answered_pings [] qa [] refl) in
    let r10 =
      Run.next r9 (Run.slurp 3 _ (at foo_net ten verified) _ refl refl refl (λ _. omega arith)) in
    let r11 = Run.next r10 (Run.stop refl refl) in
    let r12 = Run.next r11 (Run.slurp_closed refl refl refl) in
    record {
      last = _;
      reach = Run.next r12 (Run.finish refl refl);
      is_ended = refl;
      uncancelled = refl;
    }

abbrev pub plain_ip : Text → Text
plain_ip a = a

pub record Shown : Type 0 where
  pub last : Display
  pub displayed : Displayed plain_ip verification.last.news last
  pub is_finished : last.finished ≡ true

-- The display is refreshed in the middle.
unfoldable pub display : Shown
unfolding verification digging take_address take_message update lookup insert text_discrete
    after_update announce with_new_quality as_named verdict has announcement dug resolve_name
    callback all_fqdns_on_attached_networks render_data
display =
    let r1 = then_step switched_on (track_one _ _ refl refl) in
    let r2 = then_step r1 (track_one _ _ refl refl) in
    let r3 = then_step r2 (track_one _ _ refl refl) in
    let r4 = then_step r3 (refresh refl) in
    let r5 = then_step r4 (track_one _ _ refl refl) in
    let r6 = then_step r5 (track_one _ _ refl refl) in
    let r7 = then_step r6 (track_one _ _ refl refl) in
    let r8 = then_step r7 (track_one _ _ refl refl) in
    let r9 = then_step r8 (track_one _ _ refl refl) in
    let r10 = then_step r9 (track_end refl refl) in
    let r11 = then_step r10 (last_refresh refl refl) in
    record { last = _; displayed = then_step r11 (report_returns refl refl); is_finished = refl }
