-- ===== src/Cmd/Flags.antt =====
-- The flags of cmd/mobydig/cmdroot.go, and PersistentPreRunE, which checks them.

use mobydig.Prelude.{
  Bool, List, Text, [], ap, arith, codes, false, if◌then◌else◌, inl, inr, length, ltb, max, none,
  some, ℕ, ◌*◌, ◌||◌, ◌↔◌, ◌∙◌, ◌∷◌, ◌≡◌, ◌≤◌,
}
use mobydig.Dig.Digger.{open_workers}
use mobydig.DnsWorker.Dial.{
  Conn, Dialled, DnsPoolOption, in_network_namespace, made, new, new-IsOpened,
}
use mobydig.DnsWorker.Exclusive.{Reach-calm}
use mobydig.DnsWorker.Tasks.{Pool, Reach}
use mobydig.Types.Addr.{Error}

pub record Flags : Type 0 where
  pub debug : Bool
  pub indentation : ℕ
  pub spinner_interval : ℕ  -- nanoseconds; a negative duration is refused as a short one is
  pub worker_number : ℕ

-- The values where no flag is given.
abbrev pub default_flags : Flags
default_flags = record {
  debug = false;
  indentation = 3;
  spinner_interval = 100 * 1000000;
  worker_number = 5;
}

unfoldable pub pre_run : Flags → Error
pre_run f =
    if ltb 80 f.indentation
    then some (codes "--indentation width out of range [0..80]")
    else if ltb f.worker_number 1 || ltb 10 f.worker_number
    then some (codes "--workers out of range [1..10]")
    else if ltb f.spinner_interval (10 * 1000000)
    then some (codes "--spinner must be at least 10ms")
    else none

abbrev pub InRange : Flags → Type 0
InRange f =
    (f.indentation ≤ 80)
    × (1 ≤ f.worker_number)
    × (f.worker_number ≤ 10)
    × (10000000 ≤ f.spinner_interval)

-- The check passes exactly if all values are in their ranges.
pub pre_run-InRange : (f : Flags) → (pre_run f ≡ none) ↔ InRange f
unfolding pre_run
pre_run-InRange f =
    (λ h. (ground arith, ground arith, ground arith, ground arith), λ h. ground (arith, h))

length_opened :
    (options : List DnsPoolOption) (switch_error : Text → Error) (dial : ℕ → Dialled) (size : ℕ)
    {conns : List Conn}
    → (new options switch_error dial size).free ≡ some conns
    → length conns ≡ size
length_opened options switch_error dial size made_all =
    elim (new-IsOpened options switch_error dial size) [
      | inl (free, enough, err, closing) ↦ ap length (cc (free, made_all)) ∙ enough
      | inr failures ↦ elim failures [
        | inl (e, f, free, err, closing) ↦ cc
        | inr (ns, e, f, g, free, err, closing) ↦ cc
      ]
    ]

-- If the flags pass the check, and the New of dig has had a pool of `worker_number` connections made,
-- then no task of the pool panics for want of a connection, in any interleaving. The worker pool runs
-- as many tasks at once as it was made for, but at least one.
pub pre_run-calm :
    (f : Flags) (netnsref : Text) (switch_error : Text → Error) (dial : ℕ → Dialled)
    (conns : List Conn) {p : Pool}
    → pre_run f ≡ none
    → (open_workers switch_error dial f.worker_number netnsref).free ≡ some conns
    → Reach (max 1 f.worker_number) conns p
    → p.panicked ≡ false
unfolding open_workers
pre_run-calm f netnsref switch_error dial conns checked made reached =
    let range = (pre_run-InRange f).0 checked in
    let enough =
      length_opened (in_network_namespace netnsref ∷ []) switch_error dial f.worker_number made in
    Reach-calm (omega (arith, enough, range.1)) reached
