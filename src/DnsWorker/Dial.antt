-- ===== src/DnsWorker/Dial.antt =====
-- `New`: the connections of a pool, or an error and no connection left open.
use mathlib.Core.List.{append-nil, append_assoc}
use mobydig.Prelude.{
  List, Option, Option-cases, Text, [], ap, append-nil, append_assoc, arith, inl, inr, length, none,
  refl, some, suc, zero, ℕ, ◌++◌, ◌+◌, ◌∙◌, ◌∷◌, ◌≡◌, ◌⊎◌,
}
use mobydig.Types.Addr.{Error}

-- A connection, by a number.
abbrev pub Conn : Type 0
Conn = ℕ

-- The outcome of one `DialContext`.
pub data Dialled : Type 0 where
  conn : Conn → Dialled
  dial_failed : Text → Dialled

-- How `dial` returns: with the connections in `free`, or with an error after closing those.
pub data DialResult : Type 0 where
  complete : List Conn → DialResult
  refused : Text → List Conn → DialResult

-- The loop of `dial` with `left` rounds to go; `i` is its counter.
unfoldable pub dial_loop : (ℕ → Dialled) → (left i : ℕ) → List Conn → DialResult
dial_loop dial zero i free = complete free
dial_loop dial (suc left) i free = elim (dial i) [
  | conn c ↦ dial_loop dial left (i + 1) (free ++ c ∷ [])
  | dial_failed e ↦ refused e free
]

-- `New`: the pool's free connections or an error, and what it has closed. `switch_error` is the
-- error of `ops.Execute`, which then has not called `dial`.
pub record Opened : Type 0 where
  pub free : Option (List Conn)
  pub err : Error
  pub closed : List Conn

unfoldable pub opened : DialResult → Opened
opened (complete free) = record { free = some free; err = none; closed = [] }
opened (refused e free) = record { free = none; err = some e; closed = free }

-- `New` after its options, in a network namespace if there is one.
unfoldable pub open_in :
    (netns : Option Text) → (Text → Error) → (ℕ → Dialled) → (size : ℕ) → Opened
unfolding dial_loop opened
open_in none switch_error dial size = opened (dial_loop dial size 0 [])
open_in (some netnsref) switch_error dial size = elim (switch_error netnsref) [
  | some e ↦ record { free = none; err = some e; closed = [] }
  | none ↦ opened (dial_loop dial size 0 [])
]

-- What an option makes of the field `netns`.
abbrev pub DnsPoolOption : Type 0
DnsPoolOption = Option Text → Option Text

unfoldable pub in_network_namespace : Text → DnsPoolOption
in_network_namespace netnsref netns = some netnsref

-- The loop over the options.
unfoldable pub apply_options : List DnsPoolOption → Option Text → Option Text
apply_options [] netns = netns
apply_options (opt ∷ options) netns = apply_options options (opt netns)

unfoldable pub new :
    (options : List DnsPoolOption) → (Text → Error) → (ℕ → Dialled) → (size : ℕ) → Opened
unfolding apply_options open_in
new options switch_error dial size = open_in (apply_options options none) switch_error dial size

-- The connections that the first rounds make, up to the first that fails.
unfoldable pub made : (ℕ → Dialled) → (left i : ℕ) → List Conn
made dial zero i = []
made dial (suc left) i = elim (dial i) [ conn c ↦ c ∷ made dial left (i + 1) | dial_failed e ↦ [] ]

-- The first error of these rounds.
unfoldable pub first_failure : (ℕ → Dialled) → (left i : ℕ) → Error
first_failure dial zero i = none
first_failure dial (suc left) i = elim (dial i) [
  | conn c ↦ first_failure dial left (i + 1)
  | dial_failed e ↦ some e
]

abbrev result_of : Error → List Conn → DialResult
result_of none free = complete free
result_of (some e) free = refused e free

Dialled-cases : (d : Dialled) → ((c : Conn) × (d ≡ conn c)) ⊎ ((e : Text) × (d ≡ dial_failed e))
Dialled-cases (conn c) = inl (c, refl)
Dialled-cases (dial_failed e) = inr (e, refl)

dial_loop-made :
    (dial : ℕ → Dialled) (left i : ℕ) (free : List Conn)
    → dial_loop dial left i free ≡ result_of (first_failure dial left i) (free ++ made dial left i)
unfolding dial_loop made first_failure
dial_loop-made dial zero i free = rw append-nil
dial_loop-made dial (suc left) i free = elim (Dialled-cases (dial i)) [
  | inl (c, e) ↦
      rw (e, dial_loop, made, first_failure)
        (dial_loop-made dial left (i + 1) (free ++ c ∷ []) ∙ rw append_assoc)
  | inr (x, e) ↦ rw (e, dial_loop, made, first_failure, append-nil)
]

length-made :
    (dial : ℕ → Dialled) (left i : ℕ)
    → first_failure dial left i ≡ none
    → length (made dial left i) ≡ left
unfolding made first_failure
length-made dial zero i h = refl
length-made dial (suc left) i h = elim (Dialled-cases (dial i)) [
  | inl (c, e) ↦ rw (e, made) (ap suc (length-made dial left (i + 1) (ground (arith, e))))
  | inr (x, e) ↦ ground (arith, e)
]

-- The pool that `New` returns, or the reason why it returns none.
abbrev pub IsOpened : Option Text → (Text → Error) → (ℕ → Dialled) → ℕ → Opened → Type 0
IsOpened netns switch_error dial size r =
    ((r.free ≡ some (made dial size 0))
      × (length (made dial size 0) ≡ size)
      × (r.err ≡ none)
      × (r.closed ≡ []))
    ⊎ ((e : Text) × (first_failure dial size 0 ≡ some e)
        × (r.free ≡ none)
        × (r.err ≡ some e)
        × (r.closed ≡ made dial size 0))
    ⊎ ((netnsref e : Text) × (netns ≡ some netnsref)
        × (switch_error netnsref ≡ some e)
        × (r.free ≡ none)
        × (r.err ≡ some e)
        × (r.closed ≡ []))

opened-IsOpened :
    (netns : Option Text) (switch_error : Text → Error) (dial : ℕ → Dialled) (size : ℕ)
    → IsOpened netns switch_error dial size (opened (dial_loop dial size 0 []))
unfolding opened
opened-IsOpened netns switch_error dial size = elim (Option-cases (first_failure dial size 0)) [
  | inl e ↦ rw (dial_loop-made, e) (inl (refl, length-made dial size 0 e, refl, refl))
  | inr (x, e) ↦ rw (dial_loop-made, e) (inr (inl (x, refl, refl, refl, refl)))
]

open_in-IsOpened :
    (netns : Option Text) (switch_error : Text → Error) (dial : ℕ → Dialled) (size : ℕ)
    → IsOpened netns switch_error dial size (open_in netns switch_error dial size)
unfolding open_in
open_in-IsOpened none switch_error dial size = opened-IsOpened none switch_error dial size
open_in-IsOpened (some netnsref) switch_error dial size =
    elim (Option-cases (switch_error netnsref)) [
      | inl e ↦ rw (e, open_in) (opened-IsOpened (some netnsref) switch_error dial size)
      | inr (x, e) ↦ rw (e, open_in) (inr (inr (netnsref, x, refl, e, refl, refl, refl)))
    ]

-- `New` returns a pool with one connection for each round, and closes none, if every round could
-- dial; otherwise it returns the first error and has closed every connection made, or returns the
-- error of the switch into the namespace and has made none.
pub new-IsOpened :
    (options : List DnsPoolOption) (switch_error : Text → Error) (dial : ℕ → Dialled) (size : ℕ)
    → IsOpened
        (apply_options options none)
        switch_error
        dial
        size
        (new options switch_error dial size)
unfolding new
new-IsOpened options switch_error dial size =
    open_in-IsOpened (apply_options options none) switch_error dial size
