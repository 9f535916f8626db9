-- ===== src/Types/Quality.antt =====
-- types/quality.go. `Quality` is an `int` with four constants; the program makes no other values of
-- it, so the fallback text `Quality(%d)` has no counterpart here. `rank` is the constant's number.
use mobydig.Prelude.{
  Bool, Option, Text, arith, codes, false, if◌then◌else◌, leb, ltb, none, not, some, true, ℕ, ◌↔◌,
  ◌≡◌, ◌⊎◌,
}

pub data Quality : Type 0 where
  unverified verifying invalid verified : Quality

-- The numbers that `iota` gives the constants.
abbrev pub rank : Quality → ℕ
rank unverified = 0
rank verifying = 1
rank invalid = 2
rank verified = 3

unfoldable pub to_text : Quality → Text
to_text unverified = codes "unverified"
to_text verifying = codes "verifying"
to_text verified = codes "verified"
to_text invalid = codes "invalid"

unfoldable pub is_pending : Quality → Bool
is_pending unverified = true
is_pending verified = true
is_pending _ = false

-- One of the two verdicts, the `default` of the switch in NamedAddressCache.Update.
abbrev pub is_verdict : Quality → Bool
is_verdict unverified = false
is_verdict verifying = false
is_verdict _ = true

-- `a <= b` and `a > b` on the underlying numbers.
abbrev pub qual_le : Quality → Quality → Bool
qual_le a b = leb (rank a) (rank b)

abbrev pub qual_gt : Quality → Quality → Bool
qual_gt a b = ltb (rank b) (rank a)

-- The later of two qualities, in the order of the constants.
abbrev pub join : Quality → Quality → Quality
join a b = if qual_gt b a then b else a

-- What is stored, raised to a quality that was reported.
abbrev pub raised : Option Quality → Quality → Quality
raised none q = q
raised (some p) q = join p q

-- The texts tell the qualities apart.
to_text-injective : (a b : Quality) → to_text a ≡ to_text b → a ≡ b
unfolding to_text
to_text-injective a b h = ground arith

-- `IsPending` says what its comment says, that there is no verdict yet, of two qualities only: it
-- is false of Verifying and true of Verified.
is_pending-verdict :
    (q : Quality) → (is_pending q ≡ not (is_verdict q)) ↔ ((q ≡ unverified) ⊎ (q ≡ invalid))
unfolding is_pending
is_pending-verdict q = ground arith
