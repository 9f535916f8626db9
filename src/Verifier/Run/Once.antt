-- ===== src/Verifier/Run/Once.antt =====
-- How often an address is validated.
use mobydig.Prelude.{List, Option, Text, ap, arith, if◌then◌else◌, none, some, ℕ, ◌+◌, ◌≡◌, ◌≤◌}
use mobydig.Ping.{Pinger}
use mobydig.Prelude.Dict.{lookup}
use mobydig.Types.Addr.{NamedAddressValue, addr, named}
use mobydig.Types.Quality.{Quality}
use mobydig.Verifier.AddrCache.{NamedAddressCache, update}
use mobydig.Verifier.AddrCache.Invariant.{cached, update-cached}
use mobydig.Verifier.Run.{
  Reach, State, Step, abandon, cancel, decide, drained, drop, finish, finish_cancelled, leave, next,
  pass, pass_cancelled, send_verifying, slurp, slurp_cancelled, slurp_closed, start, stop, submit,
  take, take_address, take_message,
}
use mobydig.Verifier.Run.Invariant.{after_update-tokens}
use mobydig.Verifier.Run.Tokens.{main_tokens, token}

-- The validations of an address that a step submits to the pool.
abbrev pub submits : Text → {p : Pinger} {s t : State} → Step p s t → ℕ
submits a (submit qa m) = token a qa
submits a _ = 0

abbrev pub validations :
    Text → {p : Pinger} {input : List NamedAddressValue} {s : State} → Reach p input s → ℕ
validations a start = 0
validations a (next r st) = validations a r + submits a st

-- One for an address that the cache has.
abbrev pub seen : Option Quality → ℕ
seen none = 0
seen (some q) = 1

seen-update :
    (room : ℕ) (c : NamedAddressCache) (na : NamedAddressValue) (a : Text)
    → seen (cached (update room c na).cache a)
      ≡ seen (cached c a) + (if (update room c na).is_new then token a (named na) else 0)
unfolding addr
seen-update room c na a = ground (arith, update-cached room c na a)

Step-validations :
    (a : Text) {p : Pinger} {s t : State} (st : Step p s t)
    → submits a st + main_tokens a t.main + seen (cached s.cache a)
      ≤ main_tokens a s.main + seen (cached t.cache a)
unfolding take_address take_message
Step-validations a {s = s} (take room na rest m e _ _) = omega (
  arith,
  ap (main_tokens a) m,
  seen-update room s.cache na a,
  after_update-tokens a (update room s.cache na).is_new na,
)
Step-validations a {s = s} (slurp room qa na rest l e k _) =
    omega (arith, seen-update room s.cache na a)
Step-validations a (pass na rest m e _) = omega arith
Step-validations a (pass_cancelled na rest m e _ c) = omega (arith, ap (main_tokens a) m)
Step-validations a (drained m e) = omega (arith, ap (main_tokens a) m)
Step-validations a (leave m c) = omega (arith, ap (main_tokens a) m)
Step-validations a (send_verifying qa m) = omega (arith, ap (main_tokens a) m)
Step-validations a (abandon qa m c) = omega (arith, ap (main_tokens a) m)
Step-validations a (submit qa m) = omega (arith, ap (main_tokens a) m)
Step-validations a (stop m e) = omega (arith, ap (main_tokens a) m)
Step-validations a (finish m f) = omega (arith, ap (main_tokens a) m)
Step-validations a (finish_cancelled m c) = omega (arith, ap (main_tokens a) m)
Step-validations a (cancel c) = omega arith
Step-validations a (decide env before qa after e) = omega arith
Step-validations a (drop before qa after e c) = omega arith
Step-validations a (slurp_closed l e o) = omega arith
Step-validations a (slurp_cancelled l c) = omega arith

Reach-validations-seen :
    (a : Text) {p : Pinger} {input : List NamedAddressValue} {s : State} (r : Reach p input s)
    → validations a r + main_tokens a s.main ≤ seen (cached s.cache a)
unfolding cached lookup
Reach-validations-seen a start = omega arith
Reach-validations-seen a (next r st) =
    omega (arith, Reach-validations-seen a r, Step-validations a st)

seen-le : (q : Option Quality) → seen q ≤ 1
seen-le none = omega arith
seen-le (some q) = omega arith

-- No address is submitted to the pool twice, in any run, however many names it has.
pub Reach-validations :
    (a : Text) {p : Pinger} {input : List NamedAddressValue} {s : State} (r : Reach p input s)
    → validations a r ≤ 1
Reach-validations a {s = s} r =
    omega (arith, Reach-validations-seen a r, seen-le (cached s.cache a))
