-- ===== src/Tests/Report.antt =====
-- cmd/mobydig/digging.go, at these runs.
use mobydig.Prelude.{
  Text, [], codes, has, inl, none, refl, some, text_discrete, ℕ_discrete, ◌++◌, ◌∷◌, ◌≡◌,
}
use mobydig.Cmd.Report.{prepare, ready, refused_with}
use mobydig.Cmd.Report.Last.{Displayed-ShowsHighest, ShowsHighest}
use mobydig.Cmd.Report.Whole.{IsLabelOn}
use mobydig.DnsWorker.Dial.{Opened}
use mobydig.Mobynet.{Client, ContainerJson, discover_attached_names, ok, trim_slash}
use mobydig.Mobynet.Labels.{names_of, names_on}
use mobydig.Prelude.Dict.{lookup}
use mobydig.Tests.Chain.{display, net_a, verification}

Displayed-ShowsHighest_example : ShowsHighest verification.last.news display.last.rendered
Displayed-ShowsHighest_example = Displayed-ShowsHighest display.displayed display.is_finished

-- The center and one other container are on the network.
abbrev pub on_net_a : Text → ContainerJson
on_net_a name = record {
  name = codes "/" ++ name;
  pid = 4217;
  networks = (codes "net_a", record { network_id = codes "a"; aliases = [] }) ∷ [];
}

abbrev pub pair : Client
pair = record {
  container_inspect = λ name. ok (on_net_a name);
  network_inspect = λ _. ok (codes "center" ∷ codes "foo" ∷ []);
}

abbrev pub any_server : Text → Opened
any_server netnsref = record { free = some []; err = none; closed = [] }

pub pair-ready :
    prepare none pair any_server (codes "center") ≡ ready (net_a ∷ []) (codes "/proc/4217/ns/net")
unfolding prepare discover_attached_names text_discrete ℕ_discrete
pair-ready = refl

pub foo_on_net_a : IsLabelOn pair (on_net_a (codes "center")) (codes "foo") (codes "net_a")
unfolding names_of names_on trim_slash lookup has text_discrete ℕ_discrete
foo_on_net_a = inl (refl, (codes "center" ∷ codes "foo" ∷ [], refl, refl))

-- A client that knows the container itself alone.
abbrev lone : Client
lone = record {
  container_inspect = λ _. ok (record {
    name = codes "/center";
    pid = 4217;
    networks = (codes "net_a", record { network_id = codes "a"; aliases = [] }) ∷ [];
  });
  network_inspect = λ _. ok (codes "center" ∷ []);
}

abbrev no_server : Text → Opened
no_server netnsref = record { free = none; err = some (codes "refused"); closed = [] }

prepare_refused :
    prepare none lone no_server (codes "center")
    ≡ refused_with (codes "cannot dig address information: refused")
unfolding prepare discover_attached_names text_discrete
prepare_refused = refl
