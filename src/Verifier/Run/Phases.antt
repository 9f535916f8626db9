-- ===== src/Verifier/Run/Phases.antt =====
-- The order in which a run that is not cancelled winds down.
use mobydig.Prelude.{Bool, List, [], append-ne-nil, arith, false, not, refl, true, ℕ, ◌≡◌, ◌≢◌}
use mobydig.Ping.{Pinger}
use mobydig.Types.Addr.{NamedAddressValue, QualifiedAddress}
use mobydig.Verifier.AddrCache.{update}
use mobydig.Verifier.Run.{
  Main, State, Step, abandon, after_update, cancel, decide, drained, drop, ended, finish,
  finish_cancelled, finished, init, joining, leave, looping, pass, pass_cancelled, send_verifying,
  slurp, slurp_cancelled, slurp_closed, slurping, stop, stopping, submit, take, take_address,
  take_message,
}

-- After StopWait of the Pinger.
abbrev pub is_after_stop : Main → Bool
is_after_stop joining = true
is_after_stop ended = true
is_after_stop _ = false

-- After the loop.
abbrev pub is_after_loop : Main → Bool
is_after_loop stopping = true
is_after_loop joining = true
is_after_loop ended = true
is_after_loop _ = false

pub record Phases (s : State) : Type 0 where
  pub closed : is_after_stop s.main ≡ not s.court_open
  pub pool_idle : is_after_stop s.main ≡ true → s.jobs ≡ []
  pub input_taken : is_after_loop s.main ≡ true → s.input ≡ []
  pub emptied : s.slurper ≡ finished → (s.court ≡ []) × (s.court_open ≡ false)
  pub joined : s.main ≡ ended → s.slurper ≡ finished

pub init-Phases : (input : List NamedAddressValue) → Phases (init input)
init-Phases input = ground arith

after_update-looping :
    (b : Bool) (na : NamedAddressValue) → is_after_loop (after_update b na) ≡ false
unfolding after_update
after_update-looping true na = refl
after_update-looping false na = refl

after_update-stop : (m : Main) → is_after_loop m ≡ false → (is_after_stop m ≡ false) × (m ≢ ended)
after_update-stop m h = ground arith

take-Phases :
    (room : ℕ) (s : State) (na : NamedAddressValue) (rest : List NamedAddressValue)
    → s.main ≡ looping
    → Phases s
    → Phases (take_address room s na rest)
unfolding take_address
take-Phases room s na rest m h =
    let b = (update room s.cache na).is_new in
    let loops = after_update-looping b na in
    ground (arith, loops, after_update-stop (after_update b na) loops)

slurp-Phases :
    (room : ℕ) (s : State) (na : NamedAddressValue) (rest : List QualifiedAddress)
    → s.slurper ≡ slurping
    → Phases s
    → Phases (take_message room s na rest)
unfolding take_message
slurp-Phases room s na rest l h = ground arith

-- Every step of a run that is not cancelled keeps the order.
pub Step-Phases :
    {p : Pinger} {s t : State} → Step p s t → t.cancelled ≡ false → Phases s → Phases t
Step-Phases (cancel x) c h = cc
Step-Phases {s = s} (pass na rest m e _) c h = ground (arith, h.closed)
Step-Phases (pass_cancelled na rest m e _ d) c h = cc
Step-Phases {s = s} (take room na rest m e _ _) c h = take-Phases room s na rest m h
Step-Phases {s = s} (drained m e) c h = ground arith
Step-Phases (leave m d) c h = cc
Step-Phases {s = s} (send_verifying qa m) c h = ground arith
Step-Phases (abandon qa m d) c h = cc
Step-Phases {s = s} (submit qa m) c h = ground arith
Step-Phases {p} {s = s} (decide env before qa after e) c h =
    ground (arith, append-ne-nil before qa after)
Step-Phases (drop before qa after e d) c h = cc
Step-Phases {s = s} (stop m e) c h = ground arith
Step-Phases {s = s} (slurp room qa na rest l e n _) c h = slurp-Phases room s na rest l h
Step-Phases {s = s} (slurp_closed l e o) c h = ground arith
Step-Phases (slurp_cancelled _ d) c h = cc
Step-Phases {s = s} (finish m f) c h = ground arith
Step-Phases (finish_cancelled m d) c h = cc
