-- ===== src/Dig/Digger/News.antt =====
-- What the news of a digger holds when it has been closed.
use mobydig.Prelude.{
  List, Option, Text, [], ap, append-ne-nil, arith, false, inl, inr, ite, none, refl, some, sym,
  text_discrete, true, ℕ, ◌++◌, ◌+◌, ◌∙◌, ◌∷◌, ◌≡◌, ◌≤◌, ◌⊎◌,
}
use mobydig.Dig.Digger.{
  Reach, State, Step, announce, announcement, cancel, emit, emit_cancelled, give_up, messages, next,
  resolve, sent, start, stop_wait, submit,
}
use mobydig.DnsWorker.Resolve.{DnsEnv}
use mobydig.Types.Addr.{NamedAddressValue}

-- How often a list holds an address under a name.
abbrev pub hits : Text → Text → NamedAddressValue → ℕ
hits n a na = ite (text_discrete na.fqdn n) (ite (text_discrete na.address a) 1 0) 0

abbrev pub count : Text → Text → List NamedAddressValue → ℕ
count n a [] = 0
count n a (na ∷ nas) = hits n a na + count n a nas

abbrev pub count_all : Text → Text → List (List NamedAddressValue) → ℕ
count_all n a [] = 0
count_all n a (nas ∷ rest) = count n a nas + count_all n a rest

-- An ended context stays ended.
pub Step-uncancelled :
    {fqdn : Text → Text} {env : Text → DnsEnv} {s t : State}
    → Step fqdn env s t
    → t.cancelled ≡ false
    → s.cancelled ≡ false
Step-uncancelled (cancel x) c = cc
Step-uncancelled _ c = c

-- Once the news channel has been closed, nothing is left that could send.
abbrev pub IsIdle : State → Type 0
IsIdle s = (s.names ≡ []) × (s.announced ≡ none) × (s.queued ≡ []) × (s.sending ≡ [])

Step-closed :
    {fqdn : Text → Text} {env : Text → DnsEnv} {s t : State}
    → Step fqdn env s t
    → (s.closed ≡ true → IsIdle s)
    → t.closed ≡ true
    → IsIdle t
Step-closed (cancel x) h c = h c
Step-closed (announce name rest i e) h c = ground (arith, h c)
Step-closed (give_up i x) h c = (refl, (h c).1, (h c).2, (h c).3)
Step-closed (submit name i) h c = ground (arith, h c)
Step-closed (resolve before name after e) h c =
    absurd (append-ne-nil before name after (sym e ∙ (h c).2))
Step-closed (emit before na rest after e) h c =
    absurd (append-ne-nil before (na ∷ rest) after (sym e ∙ (h c).3))
Step-closed (emit_cancelled before nas after e x) h c =
    absurd (append-ne-nil before nas after (sym e ∙ (h c).3))
Step-closed (sent before after e) h c = absurd (append-ne-nil before [] after (sym e ∙ (h c).3))
Step-closed (stop_wait a b c d e) h _ = (a, b, c, d)

pub Reach-closed-IsIdle :
    {fqdn : Text → Text} {env : Text → DnsEnv} {names : List Text} {s : State}
    → Reach fqdn env names s
    → s.closed ≡ true
    → IsIdle s
Reach-closed-IsIdle start c = cc
Reach-closed-IsIdle (next r st) c = Step-closed st (Reach-closed-IsIdle r) c

count-append :
    (n a : Text) (xs ys : List NamedAddressValue)
    → count n a (xs ++ ys) ≡ count n a xs + count n a ys
count-append n a [] ys = omega arith
count-append n a (x ∷ xs) ys = omega (arith, count-append n a xs ys)

count_all-append :
    (n a : Text) (xs ys : List (List NamedAddressValue))
    → count_all n a (xs ++ ys) ≡ count_all n a xs + count_all n a ys
count_all-append n a [] ys = omega arith
count_all-append n a (x ∷ xs) ys = omega (arith, count_all-append n a xs ys)

module _ (fqdn : Text → Text) (env : Text → DnsEnv) (n a : Text) where
  -- What the names of the queue will still give.
  abbrev pub count_queued : List Text → ℕ
  count_queued [] = 0
  count_queued (name ∷ names) = count n a (messages env name) + count_queued names

  -- What a list of names gives: an announcement of each, and the addresses that it resolves to.
  abbrev pub count_names : List Text → ℕ
  count_names [] = 0
  count_names (name ∷ names) =
      hits n a (announcement (fqdn name)) + count n a (messages env (fqdn name)) + count_names names

  abbrev count_announced : Option Text → ℕ
  count_announced none = 0
  count_announced (some name) = count n a (messages env name)

  count_queued-append :
      (xs ys : List Text) → count_queued (xs ++ ys) ≡ count_queued xs + count_queued ys
  count_queued-append [] ys = omega arith
  count_queued-append (x ∷ xs) ys = omega (arith, count_queued-append xs ys)

  abbrev total : State → ℕ
  total s =
      count n a s.news
      + count_all n a s.sending
      + count_queued s.queued
      + count_announced s.announced
      + count_names s.names

  -- A step loses no message and makes up none, except that an ended context lets messages go.
  Step-total :
      {s t : State}
      → Step fqdn env s t
      → (total t ≡ total s) ⊎ (t.cancelled ≡ true) × (total t ≤ total s)
  Step-total (cancel x) = inl refl
  Step-total {s} (announce name rest i e) = inl (
      omega (
        arith,
        count-append n a s.news (announcement (fqdn name) ∷ []),
        ap count_names e,
        ap count_announced i,
      ))
  Step-total (give_up i x) = inr (x, omega arith)
  Step-total {s} (submit name i) =
      inl (omega (arith, ap count_announced i, count_queued-append s.queued (name ∷ [])))
  Step-total {s} (resolve before name after e) = inl (
      omega (
        arith,
        ap count_queued e,
        count_queued-append before (name ∷ after),
        count_queued-append before after,
      ))
  Step-total {s} (emit before na rest after e) = inl (
      omega (
        arith,
        ap (count_all n a) e,
        count-append n a s.news (na ∷ []),
        count_all-append n a before ((na ∷ rest) ∷ after),
        count_all-append n a before (rest ∷ after),
      ))
  Step-total {s} (emit_cancelled before nas after e x) = inr (
    x,
    omega (
      arith,
      ap (count_all n a) e,
      count_all-append n a before (nas ∷ after),
      count_all-append n a before after,
    ),
  )
  Step-total {s} (sent before after e) = inl (
      omega (
        arith,
        ap (count_all n a) e,
        count_all-append n a before ([] ∷ after),
        count_all-append n a before after,
      ))
  Step-total (stop_wait _ _ _ _ _) = inl refl

  Reach-total :
      {names : List Text} {s : State}
      → Reach fqdn env names s
      → (total s ≤ count_names names) × (s.cancelled ≡ false → total s ≡ count_names names)
  Reach-total start = (omega arith, λ _. omega arith)
  Reach-total (next r st) =
      let (at_most, exactly) = Reach-total r in
      elim (Step-total st) [
        | inl e ↦ (omega arith, λ c. e ∙ exactly (Step-uncancelled st c))
        | inr (x, l) ↦ (omega arith, λ c. cc)
      ]

  -- The digger sends no name and address more often than the names are announced and resolved to it,
  -- whether or not the context ends.
  Reach-count_le :
      {names : List Text} {s : State}
      → Reach fqdn env names s
      → count n a s.news ≤ count_names names
  Reach-count_le r = omega (arith, (Reach-total r).0)

  -- When StopWait has closed the news channel of a run that was not cancelled, all messages of the
  -- names have been sent.
  pub Reach-count_names :
      {names : List Text} {s : State}
      → Reach fqdn env names s
      → s.closed ≡ true
      → s.cancelled ≡ false
      → count n a s.news ≡ count_names names
  Reach-count_names {s = s} r shut c =
      let (names_left, none_announced, none_queued, none_sending) = Reach-closed-IsIdle r shut in
      omega (
        arith,
        (Reach-total r).1 c,
        ap count_names names_left,
        ap count_announced none_announced,
        ap count_queued none_queued,
        ap (count_all n a) none_sending,
      )
