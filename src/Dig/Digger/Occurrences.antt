-- ===== src/Dig/Digger/Occurrences.antt =====
-- What the names that a digger is given ask for, and what it has sent when it has closed its news.
use mobydig.Prelude.{
  List, Text, [], arith, false, ite, map, refl, text_discrete, true, ℕ, ◌+◌, ◌∙◌, ◌∷◌, ◌≡◌,
}
use mobydig.Dig.Digger.{Reach, State, announcement, callback, dug, messages}
use mobydig.Dig.Digger.News.{Reach-count_names, count, count_names}
use mobydig.DnsWorker.Resolve.{DnsEnv, resolve_name}

-- How often a list holds an address.
abbrev pub occurrences : Text → List Text → ℕ
occurrences a [] = 0
occurrences a (b ∷ addrs) = ite (text_discrete b a) 1 0 + occurrences a addrs

count-dug_of :
    (n a x : Text) (addrs : List Text)
    → count n a (map (dug x) addrs) ≡ ite (text_discrete x n) (occurrences a addrs) 0
unfolding dug
count-dug_of n a x [] = ground arith
count-dug_of n a x (b ∷ addrs) = ground (arith, count-dug_of n a x addrs)

count-messages_of :
    (env : Text → DnsEnv) (n a x : Text)
    → count n a (messages env x)
      ≡ ite (text_discrete x n) (occurrences a (resolve_name (env x) x).0) 0
unfolding callback
count-messages_of env n a x = count-dug_of n a x _

module _ (fqdn : Text → Text) (env : Text → DnsEnv) (n a : Text) where
  -- How often a list of names asks for a name and an address: once with the empty address for each
  -- time that the name is asked for, and then as often as it resolves to the address.
  abbrev pub expected : List Text → ℕ
  expected [] = 0
  expected (name ∷ names) =
      ite (text_discrete (fqdn name) n)
        (ite (text_discrete [] a) 1 0
          + occurrences a (resolve_name (env (fqdn name)) (fqdn name)).0)
        0
      + expected names

  count_names-expected : (names : List Text) → count_names fqdn env n a names ≡ expected names
  unfolding announcement
  count_names-expected [] = refl
  count_names-expected (name ∷ names) =
      ground (arith, count-messages_of env n a (fqdn name), count_names-expected names)

  -- When StopWait has closed the news channel of a run that was not cancelled, the news hold each
  -- name and address as often as the names that were dug give it: each of them, completed by
  -- dns.Fqdn, gives itself with the empty address once, and with each address as often as it
  -- resolves to it.
  pub Reach-count :
      {names : List Text} {s : State}
      → Reach fqdn env names s
      → s.closed ≡ true
      → s.cancelled ≡ false
      → count n a s.news ≡ expected names
  Reach-count {names = names} r shut c =
      Reach-count_names fqdn env n a r shut c ∙ count_names-expected names
