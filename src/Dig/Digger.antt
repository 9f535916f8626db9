-- ===== src/Dig/Digger.antt =====
-- dig/dig.go, with the tasks of the DnsPool that it submits. `fqdn` stands for dns.Fqdn, and `env`
-- for what the DNS server, the context and the connections answer for a name; a name that is dug
-- twice is answered alike. A send that blocks is a step that has not happened yet.
pub mod News
pub mod Occurrences
pub mod Pending
pub mod Completion
pub mod Sources
use mobydig.DnsWorker.Dial
use mobydig.Prelude.{Bool, List, Option, Text, [], false, map, none, some, true, ℕ, ◌++◌, ◌∷◌, ◌≡◌}
use mobydig.Dig.Networks.{DockerNetwork, all_fqdns_on_attached_networks}
use mobydig.DnsWorker.Dial.{Dialled, Opened, in_network_namespace}
use mobydig.DnsWorker.Resolve.{DnsEnv, resolve_name}
use mobydig.Types.Addr.{Error, NamedAddressValue}
use mobydig.Types.Quality.{unverified}

pub record State : Type 0 where
  pub names : List Text  -- left to the loop of DigFQDNs
  pub announced : Option Text  -- between the send and the call of ResolveName
  pub queued : List Text  -- tasks of the pool that have not resolved their name
  pub sending : List (List NamedAddressValue)  -- what each callback has still to send
  pub news : List NamedAddressValue
  pub cancelled : Bool
  pub closed : Bool

abbrev pub init : List Text → State
init names = record {
  names = names;
  announced = none;
  queued = [];
  sending = [];
  news = [];
  cancelled = false;
  closed = false;
}

-- The connections that `New` has dnsworker make, in the network namespace that it is given. Its
-- error is that of dnsworker.
unfoldable pub open_workers :
    (Text → Error) → (ℕ → Dialled) → (size : ℕ) → (netnsref : Text) → Opened
open_workers switch_error dial size netnsref =
    Dial.new (in_network_namespace netnsref ∷ []) switch_error dial size

-- `&types.NamedAddressValue{FQDN: name}`
unfoldable pub announcement : Text → NamedAddressValue
announcement name = record {
  fqdn = name;
  qa = record { address = []; quality = unverified; err = none };
}

unfoldable pub dug : Text → Text → NamedAddressValue
dug name a = record { fqdn = name; qa = record { address = a; quality = unverified; err = none } }

-- What the callback of a name sends, whether or not it is given an error.
unfoldable pub callback : Text → List Text × Error → List NamedAddressValue
unfolding dug
callback name (addrs, err) = map (dug name) addrs

abbrev pub messages : (Text → DnsEnv) → Text → List NamedAddressValue
messages env name = callback name (resolve_name (env name) name)

pub data Step (fqdn : Text → Text) (env : Text → DnsEnv) (s : State) : State → Type 0 where
  cancel : s.cancelled ≡ false → Step fqdn env s (record s { cancelled = true })
  -- the loop of DigFQDNs
  announce :
      (name : Text) (rest : List Text)
      → s.announced ≡ none
      → s.names ≡ name ∷ rest
      → Step fqdn env s (record s {
        names = rest;
        announced = some (fqdn name);
        news = s.news ++ announcement (fqdn name) ∷ [];
      })
  give_up : s.announced ≡ none → s.cancelled ≡ true → Step fqdn env s (record s { names = [] })
  submit :
      (name : Text)
      → s.announced ≡ some name
      → Step fqdn env s (record s { announced = none; queued = s.queued ++ name ∷ [] })
  -- a task of the pool, and its callback
  resolve :
      (before : List Text) (name : Text) (after : List Text)
      → s.queued ≡ before ++ name ∷ after
      → Step fqdn env s
          (record s { queued = before ++ after; sending = messages env name ∷ s.sending })
  emit :
      (before : List (List NamedAddressValue)) (na : NamedAddressValue)
      (rest : List NamedAddressValue) (after : List (List NamedAddressValue))
      → s.sending ≡ before ++ (na ∷ rest) ∷ after
      → Step fqdn env s (record s { sending = before ++ rest ∷ after; news = s.news ++ na ∷ [] })
  emit_cancelled :
      (before : List (List NamedAddressValue)) (nas : List NamedAddressValue)
      (after : List (List NamedAddressValue))
      → s.sending ≡ before ++ nas ∷ after
      → s.cancelled ≡ true
      → Step fqdn env s (record s { sending = before ++ after })
  sent :
      (before after : List (List NamedAddressValue))
      → s.sending ≡ before ++ [] ∷ after
      → Step fqdn env s (record s { sending = before ++ after })
  -- `StopWait`, called when DigFQDNs has returned
  stop_wait :
      s.names ≡ []
      → s.announced ≡ none
      → s.queued ≡ []
      → s.sending ≡ []
      → s.closed ≡ false
      → Step fqdn env s (record s { closed = true })

pub data Reach (fqdn : Text → Text) (env : Text → DnsEnv) (names : List Text) : State → Type 0 where
  start : Reach fqdn env names (init names)
  next : {s t : State} → Reach fqdn env names s → Step fqdn env s t → Reach fqdn env names t

-- `DigNetworks`
abbrev pub DigNetworks : (Text → Text) → (Text → DnsEnv) → List DockerNetwork → State → Type 0
DigNetworks fqdn env nets = Reach fqdn env (all_fqdns_on_attached_networks nets)
