-- ===== src/DnsWorker/Exclusive.antt =====
-- No task is ever without a connection, and no two tasks have the same.
use mathlib.Core.List.Perm
use mathlib.Core.List.{Perm, Permᴰ, append-nil, append_assoc, perm_middle, Nodup}
use mathlib.Core.Logic.{∥∥₁_elim}
use native.Mathlib.Nat.{ℕ_set}
use mobydig.Prelude.{
  List, Option-cases, [], ap, append-ne-nil, arith, false, inl, inr, length, length-append, none,
  refl, some, subst, suc, sym, true, ℕ, ◌++◌, ◌<◌, ◌∙◌, ◌∷◌, ◌≡◌, ◌≢◌, ◌≤◌,
}
use mobydig.DnsWorker.Dial.{Conn}
use mobydig.DnsWorker.Tasks.{
  Pool, Reach, Step, begin, end, fresh, give_back, grab, next, pop_last, start, stop_wait, submit,
}

pop_last-append :
    (cs rest : List Conn) (c : Conn) → pop_last cs ≡ some (rest, c) → cs ≡ rest ++ c ∷ []
unfolding pop_last
pop_last-append [] rest c h = cc
pop_last-append (d ∷ []) rest c h = ground arith
pop_last-append (d ∷ e ∷ cs) rest c h = elim (Option-cases (pop_last (e ∷ cs))) [
  | inl last_none ↦ ground (arith, last_none)
  | inr (r, some_left) ↦ ground (arith, some_left, pop_last-append (e ∷ cs) r.0 r.1)
]

pop_last-eq-none : (cs : List Conn) → pop_last cs ≡ none → cs ≡ []
unfolding pop_last
pop_last-eq-none [] h = refl
pop_last-eq-none (d ∷ []) h = cc
pop_last-eq-none (d ∷ e ∷ cs) h = elim (Option-cases (pop_last (e ∷ cs))) [
  | inl last_none ↦ let r = pop_last-eq-none (e ∷ cs) last_none in cc
  | inr (r, some_left) ↦ ground (arith, some_left)
]

-- All connections, whether free, with a task, or closed.
abbrev pub held : Pool → List Conn
held p = p.free ++ (p.running ++ p.closed)

perm-length : {xs ys : List Conn} → Perm xs ys → length xs ≡ length ys
perm-length p = ∥∥₁_elim p (ℕ_set _ _) go
  where
    go : {xs ys : List Conn} → Permᴰ xs ys → length xs ≡ length ys
    go Permᴰ.nil = refl
    go (Permᴰ.cons e p) = ap suc (go p)
    go (Permᴰ.swap e d) = refl
    go (Permᴰ.trans p q) = go p ∙ go q

pub record Inv (conns : List Conn) (p : Pool) : Type 0 where
  pub owned : Perm (held p) conns
  pub calm : p.panicked ≡ false
  pub unclosed : p.stopped ≡ false → p.closed ≡ []
  pub settled : p.stopped ≡ true → (p.queued ≡ 0) × (p.running ≡ []) × (p.free ≡ [])

fresh-Inv : (conns : List Conn) → Inv conns (fresh conns)
fresh-Inv conns = record {
  owned = rw append-nil (Perm.refl conns);
  calm = refl;
  unclosed = λ _. refl;
  settled = λ h. cc;
}

module _ {conns : List Conn} (p : Pool) (inv : Inv conns p) where
  -- While fewer tasks run than there are connections, one is free.
  free_left : p.stopped ≡ false → length p.running < length conns → p.free ≢ []
  free_left going few e = absurd (
      omega (
        arith,
        perm-length inv.owned,
        length-append p.free (p.running ++ p.closed),
        length-append p.running p.closed,
        ap length e,
        ap length (inv.unclosed going),
      ))

  grabbed :
      (r : List Conn × Conn)
      → pop_last p.free ≡ some r
      → held p ≡ r.0 ++ (r.1 ∷ p.running ++ p.closed)
  grabbed r e = rw (pop_last-append p.free r.0 r.1 e, append_assoc)

  returned_perm :
      (before : List Conn) (c : Conn) (after : List Conn)
      → p.running ≡ before ++ c ∷ after
      → Perm (held (give_back p before c after)) (held p)
  unfolding give_back
  returned_perm before c after e =
      rw (e, append_assoc)
        (Perm.append_left p.free
          (Perm.append_right p.closed (Perm.symm (perm_middle before after))))

  grab-Inv :
      (n : ℕ)
      → p.queued ≡ suc n
      → length p.running < length conns
      → Inv conns (grab (record p { queued = n }))
  unfolding grab
  grab-Inv n q few =
      let going : p.stopped ≡ false = ground (arith, inv.settled) in
      elim (Option-cases (pop_last p.free)) [
        | inl e ↦ absurd (free_left going few (pop_last-eq-none p.free e))
        | inr (r, e) ↦
            rw (e, grab)
              (record {
                owned = subst (λ cs. Perm cs conns) (grabbed r e) inv.owned;
                calm = inv.calm;
                unclosed = inv.unclosed;
                settled = λ h. cc;
              })
      ]

  give_back-Inv :
      (before : List Conn) (c : Conn) (after : List Conn)
      → p.running ≡ before ++ c ∷ after
      → Inv conns (give_back p before c after)
  unfolding give_back
  give_back-Inv before c after e = record {
    owned = Perm.trans (returned_perm before c after e) inv.owned;
    calm = inv.calm;
    unclosed = inv.unclosed;
    settled = λ h. absurd (append-ne-nil before c after (sym e ∙ (inv.settled h).1));
  }

  stop_wait-Inv :
      p.queued ≡ 0
      → p.running ≡ []
      → p.stopped ≡ false
      → Inv conns (record p { closed = p.closed ++ p.free; free = []; stopped = true })
  stop_wait-Inv q r going = record {
    owned = subst (λ cs. Perm cs conns) (rw (r, inv.unclosed going) (append-nil p.free)) inv.owned;
    calm = inv.calm;
    unclosed = λ h. cc;
    settled = λ _. (q, r, refl);
  }

Step-Inv :
    {limit : ℕ} {conns : List Conn} {p q : Pool}
    → limit ≤ length conns
    → Step limit p q
    → Inv conns p
    → Inv conns q
Step-Inv few (submit going) inv = record {
  owned = inv.owned;
  calm = inv.calm;
  unclosed = inv.unclosed;
  settled = λ h. cc;
}
Step-Inv {p = p} few (begin n calm q lt) inv = grab-Inv p inv n q (omega arith)
Step-Inv {p = p} few (end before c after e) inv = give_back-Inv p inv before c after e
Step-Inv {p = p} few (stop_wait q r going) inv = stop_wait-Inv p inv q r going

module _ {limit : ℕ} {conns : List Conn} (few : limit ≤ length conns) where
  Reach-Inv : {p : Pool} → Reach limit conns p → Inv conns p
  Reach-Inv start = fresh-Inv conns
  Reach-Inv (next r st) = Step-Inv few st (Reach-Inv r)

  -- If the worker pool runs no more tasks at once than there are connections, no task panics for
  -- want of a connection, in any interleaving.
  pub Reach-calm : {p : Pool} → Reach limit conns p → p.panicked ≡ false
  Reach-calm r = (Reach-Inv r).calm

  -- Then the free connections, those of the running tasks and the closed ones are together the
  -- connections of the pool; so, where these are distinct, no connection is with two tasks, and none
  -- is free or closed while a task has it.
  pub Reach-held :
      {p : Pool} → Reach limit conns p → Nodup conns → Perm (held p) conns × Nodup (held p)
  Reach-held r distinct =
      let owned = (Reach-Inv r).owned in (owned, Perm.nodup (Perm.symm owned) distinct)

  -- After StopWait every connection of the pool has been closed, each once, and none is left free.
  pub Reach-closed :
      {p : Pool} → Reach limit conns p → p.stopped ≡ true → (p.free ≡ []) × Perm p.closed conns
  Reach-closed {p} r after =
      let (_, idle, taken) = (Reach-Inv r).settled after in
      (taken, subst (λ cs. Perm cs conns) (rw (taken, idle) refl) (Reach-Inv r).owned)
