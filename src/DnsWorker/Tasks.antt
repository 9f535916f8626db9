-- ===== src/DnsWorker/Tasks.antt =====
-- `task`, `Submit` and `StopWait` of DnsPool. The steps of several tasks interleave in any order;
-- each critical section of the mutex is one step. Of the worker pool it is used that it runs at most
-- `limit` tasks at once, and that its StopWait returns when none is queued or running.
use mathlib.Core.Option
use mobydig.Prelude.{
  Bool, List, Option, [], false, length, none, some, suc, true, ℕ, ◌++◌, ◌+◌, ◌<◌, ◌∷◌, ◌≡◌,
}
use mobydig.DnsWorker.Dial.{Conn}

pub record Pool : Type 0 where
  pub free : List Conn
  pub queued : ℕ  -- tasks submitted and not begun
  pub running : List Conn  -- the connections of the tasks that run
  pub closed : List Conn
  pub panicked : Bool
  pub stopped : Bool

-- After `New`.
abbrev pub fresh : List Conn → Pool
fresh free = record {
  free = free;
  queued = 0;
  running = [];
  closed = [];
  panicked = false;
  stopped = false;
}

-- `conn := p.free[last]` and `p.free = p.free[:last]`, or nothing where there is no last.
unfoldable pub pop_last : List Conn → Option (List Conn × Conn)
pop_last [] = none
pop_last (c ∷ []) = some ([], c)
pop_last (c ∷ d ∷ cs) = Option.map (λ (r : List Conn × Conn). (c ∷ r.0, r.1)) (pop_last (d ∷ cs))

-- The first critical section of `task`, which panics where no connection is free.
unfoldable pub grab : Pool → Pool
unfolding pop_last
grab p = elim (pop_last p.free) [
  | none ↦ record p { panicked = true }
  | some (rest, c) ↦ record p { free = rest; running = c ∷ p.running }
]

-- The second: the connection goes back to the end of the free list.
unfoldable pub give_back : Pool → List Conn → Conn → List Conn → Pool
give_back p before c after = record p { free = p.free ++ c ∷ []; running = before ++ after }

pub data Step (limit : ℕ) (p : Pool) : Pool → Type 0 where
  submit : p.stopped ≡ false → Step limit p (record p { queued = p.queued + 1 })
  begin :
      (n : ℕ)
      → p.panicked ≡ false
      → p.queued ≡ suc n
      → length p.running < limit
      → Step limit p (grab (record p { queued = n }))
  end :
      (before : List Conn) (c : Conn) (after : List Conn)
      → p.running ≡ before ++ c ∷ after
      → Step limit p (give_back p before c after)
  stop_wait :
      p.queued ≡ 0
      → p.running ≡ []
      → p.stopped ≡ false
      → Step limit p (record p { closed = p.closed ++ p.free; free = []; stopped = true })

pub data Reach (limit : ℕ) (conns : List Conn) : Pool → Type 0 where
  start : Reach limit conns (fresh conns)
  next : {p q : Pool} → Reach limit conns p → Step limit p q → Reach limit conns q
