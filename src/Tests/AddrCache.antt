-- ===== src/Tests/AddrCache.antt =====
-- verifier/addrcache.go.
use mobydig.Prelude.{[], arith, has, inr, ite, none, refl, some, text_discrete, true, ◌↔◌, ◌∷◌, ◌≡◌}
use mobydig.Dig.AddrMap.{NamedAddressesMap}
use mobydig.Dig.AddrMap.Tracking.{updates}
use mobydig.Dig.AddrMap.View.{view}
use mobydig.Prelude.Dict.{insert, lookup}
use mobydig.Tests.Samples.{at, bar, foo, ten, text-ne}
use mobydig.Types.Quality.{raised, unverified, verified}
use mobydig.Verifier.AddrCache.{NamedAddressCache, update}
use mobydig.Verifier.AddrCache.Delivery.{Served, update-Served}
use mobydig.Verifier.AddrCache.Invariant.{cached, update-cached}

program : Unit {0}
unfolding update lookup insert text_discrete has cached view updates mobydig.Dig.AddrMap.update
program = tt

abbrev waiting_foo : NamedAddressCache
waiting_foo = (ten, record { q = unverified; err = none; consumers = foo ∷ [] }) ∷ []

first_sight : (update 1 [] (at foo ten unverified)).cache ≡ waiting_foo
unfolding program
first_sight = refl

second_name : (update 1 waiting_foo (at bar ten unverified)).news ≡ at bar ten unverified ∷ []
unfolding program
second_name = refl

update-cached_example :
    (cached (update 0 waiting_foo (at foo ten verified)).cache ten
      ≡ ite
          (text_discrete ten ten)
          (some (raised (cached waiting_foo ten) verified))
          (cached waiting_foo ten))
    × (((update 0 waiting_foo (at foo ten verified)).is_new ≡ true)
        ↔ (cached waiting_foo ten ≡ none))
update-cached_example = update-cached 0 waiting_foo (at foo ten verified) ten

-- What the consumer of the news has after the first sight.
abbrev known_foo : NamedAddressesMap
known_foo = updates [] (at foo ten unverified ∷ [])

-- A verdict on an address that is under verification for foo.
update-Served_example :
    Served foo
      (lookup ten (update 2 waiting_foo (at foo ten verified)).cache)
      (view (updates known_foo (update 2 waiting_foo (at foo ten verified)).news) foo ten)
unfolding lookup insert view has text_discrete updates mobydig.Dig.AddrMap.update
update-Served_example =
    update-Served 2 waiting_foo (at foo ten verified) known_foo foo ten (text-ne _ _) (text-ne _ _)
      (omega arith) (λ _. (refl, λ _. refl)) (omega arith, λ _. refl) (inr (refl, refl))
