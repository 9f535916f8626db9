-- ===== src/Verifier/Run.antt =====
-- verifier/verifier.go, with the Pinger's channel and worker pool of ping/ping.go: the goroutine of
-- `Verify`, the goroutine that it starts, and the jobs of the pool, interleaved in any order.
-- A send that blocks is a step that has not happened yet, so the sizes of the channels have no part
-- here; nor has the size of the pool, since any job that was submitted may be the next to end.
-- An `Update` is one step, as the mutex makes it. The elements of the input channel are given
-- beforehand, and received at any time; the channel is closed after the last.
pub mod Tokens
pub mod Counting
pub mod Phases
pub mod Invariant
pub mod Preservation
pub mod Delivery
pub mod Results
pub mod Ending
pub mod Once
pub mod Cancel
pub mod Sources
pub mod Told
use mobydig.Prelude.{Bool, List, [], false, some, true, ℕ, ◌++◌, ◌∷◌, ◌≡◌, ◌≢◌, ◌≤◌}
use mobydig.Ping.{Pinger, Surroundings, announce, verdict}
use mobydig.Prelude.Dict.{lookup}
use mobydig.Types.Addr.{NamedAddressValue, QualifiedAddress, as_named, named}
use mobydig.Verifier.AddrCache.{NamedAddressCache, update}
use mobydig.Verifier.AddrCache.Delivery.{wanted}

-- Where the goroutine of `Verify` stands.
pub data Main : Type 0 where
  looping : Main  -- at the select of its loop
  validating : QualifiedAddress → Main  -- at the first select of `validate`
  submitting : QualifiedAddress → Main  -- before `p.workers.Submit`
  stopping : Main  -- in `v.pinger.StopWait`
  joining : Main  -- at the last select
  ended : Main  -- after `close(v.news)`

-- The goroutine that takes the Pinger's messages, until it closes `done`.
pub data Slurper : Type 0 where
  slurping finished : Slurper

pub record State : Type 0 where
  pub input : List NamedAddressValue
  pub cache : NamedAddressCache
  pub news : List NamedAddressValue  -- all that was sent, in order
  pub court : List QualifiedAddress  -- in the channel `courtTV`
  pub court_open : Bool
  pub jobs : List QualifiedAddress  -- submitted to the pool and not ended
  pub main : Main
  pub slurper : Slurper
  pub cancelled : Bool

-- `New`, and `Verify` up to its loop.
abbrev pub init : List NamedAddressValue → State
init input = record {
  input = input;
  cache = [];
  news = [];
  court = [];
  court_open = true;
  jobs = [];
  main = looping;
  slurper = slurping;
  cancelled = false;
}

-- A select with an ended context may take either branch; with another it sends.
abbrev pub HasRoom : ℕ → State → NamedAddressValue → Type 0
HasRoom room s na = s.cancelled ≡ false → wanted (lookup na.address s.cache) ≤ room

-- The loop goes on after an `Update`, with a validation if the address was new.
unfoldable pub after_update : Bool → NamedAddressValue → Main
after_update true na = validating (announce (named na))
after_update false na = looping

unfoldable pub take_address : ℕ → State → NamedAddressValue → List NamedAddressValue → State
unfolding after_update
take_address room s na rest =
    let u = update room s.cache na in
    record s {
      input = rest;
      cache = u.cache;
      news = s.news ++ u.news;
      main = after_update u.is_new na;
    }

unfoldable pub take_message : ℕ → State → NamedAddressValue → List QualifiedAddress → State
take_message room s na rest =
    let u = update room s.cache na in
    record s { court = rest; cache = u.cache; news = s.news ++ u.news }

pub data Step (p : Pinger) (s : State) : State → Type 0 where
  cancel : s.cancelled ≡ false → Step p s (record s { cancelled = true })
  -- the loop of `Verify`
  pass :
      (na : NamedAddressValue) (rest : List NamedAddressValue)
      → s.main ≡ looping
      → s.input ≡ na ∷ rest
      → na.address ≡ []
      → Step p s (record s { input = rest; news = s.news ++ na ∷ [] })
  pass_cancelled :
      (na : NamedAddressValue) (rest : List NamedAddressValue)
      → s.main ≡ looping
      → s.input ≡ na ∷ rest
      → na.address ≡ []
      → s.cancelled ≡ true
      → Step p s (record s { input = rest; main = stopping })
  take :
      (room : ℕ) (na : NamedAddressValue) (rest : List NamedAddressValue)
      → s.main ≡ looping
      → s.input ≡ na ∷ rest
      → na.address ≢ []
      → HasRoom room s na
      → Step p s (take_address room s na rest)
  drained : s.main ≡ looping → s.input ≡ [] → Step p s (record s { main = stopping })
  leave : s.main ≡ looping → s.cancelled ≡ true → Step p s (record s { main = stopping })
  -- `validate`
  send_verifying :
      (qa : QualifiedAddress)
      → s.main ≡ validating qa
      → Step p s (record s { court = s.court ++ qa ∷ []; main = submitting qa })
  abandon :
      (qa : QualifiedAddress)
      → s.main ≡ validating qa
      → s.cancelled ≡ true
      → Step p s (record s { main = looping })
  submit :
      (qa : QualifiedAddress)
      → s.main ≡ submitting qa
      → Step p s (record s { jobs = s.jobs ++ qa ∷ []; main = looping })
  -- the end of a job
  decide :
      (env : Surroundings) (before : List QualifiedAddress) (qa : QualifiedAddress)
      (after : List QualifiedAddress)
      → s.jobs ≡ before ++ qa ∷ after
      → Step p s (record s { jobs = before ++ after; court = s.court ++ verdict p env qa ∷ [] })
  drop :
      (before : List QualifiedAddress) (qa : QualifiedAddress) (after : List QualifiedAddress)
      → s.jobs ≡ before ++ qa ∷ after
      → s.cancelled ≡ true
      → Step p s (record s { jobs = before ++ after })
  -- `StopWait` of the Pinger, which closes the channel
  stop :
      s.main ≡ stopping → s.jobs ≡ [] → Step p s (record s { court_open = false; main = joining })
  -- the goroutine that takes the messages
  slurp :
      (room : ℕ) (qa : QualifiedAddress) (na : NamedAddressValue) (rest : List QualifiedAddress)
      → s.slurper ≡ slurping
      → s.court ≡ qa ∷ rest
      → as_named qa ≡ some na
      → HasRoom room s na
      → Step p s (take_message room s na rest)
  slurp_closed :
      s.slurper ≡ slurping
      → s.court ≡ []
      → s.court_open ≡ false
      → Step p s (record s { slurper = finished })
  slurp_cancelled :
      s.slurper ≡ slurping → s.cancelled ≡ true → Step p s (record s { slurper = finished })
  -- the last select, and `close(v.news)`
  finish : s.main ≡ joining → s.slurper ≡ finished → Step p s (record s { main = ended })
  finish_cancelled : s.main ≡ joining → s.cancelled ≡ true → Step p s (record s { main = ended })

pub data Reach (p : Pinger) (input : List NamedAddressValue) : State → Type 0 where
  start : Reach p input (init input)
  next : {s t : State} → Reach p input s → Step p s t → Reach p input t
