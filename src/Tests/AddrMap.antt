-- ===== src/Tests/AddrMap.antt =====
-- dig/addrmap.go.
use mathlib.Core.List.Perm
use mobydig.Prelude.{[], none, refl, some, text_discrete, ◌∷◌, ◌≡◌}
use mobydig.Dig.AddrMap.{raise, update}
use mobydig.Dig.AddrMap.Invariant.{IsValid}
use mobydig.Dig.AddrMap.View.{view}
use mobydig.Prelude.Dict.{insert, lookup}
use mobydig.Tests.Samples.{at, foo, ten}
use mobydig.Types.Addr.{NamedAddressValue}
use mobydig.Types.Quality.{verified, verifying}

program : Unit {0}
unfolding update view lookup insert text_discrete raise
program = tt

abbrev verifying_foo : NamedAddressValue
verifying_foo = at foo ten verifying

abbrev verified_foo : NamedAddressValue
verified_foo = at foo ten verified

one_address :
    update (update [] (some verifying_foo)) (some verified_foo)
    ≡ (foo, record { address = ten; quality = verified; err = none } ∷ []) ∷ []
unfolding program
one_address = refl

empty-IsValid : IsValid []
empty-IsValid = record { names = tt; entries = tt }
