-- ===== src/Tests/Samples.antt =====
-- Names and addresses that the tests share.
use mobydig.Prelude.{Text, [], codes, none, ℕ, ◌∷◌, ◌≢◌}
use mobydig.Types.Addr.{NamedAddressValue}
use mobydig.Types.Quality.{Quality}

abbrev pub foo : Text
foo = codes "foo."

abbrev pub bar : Text
bar = codes "bar."

abbrev pub ten : Text
ten = codes "10.0.0.1"

abbrev pub at : Text → Text → Quality → NamedAddressValue
at n a q = record { fqdn = n; qa = record { address = a; quality = q; err = none } }

pub text-ne : (x : ℕ) (xs : Text) → ◌≢◌ {A = Text} (x ∷ xs) []
text-ne x xs e = cc
