-- ===== src/Mobynet/Digits.antt =====
-- The process id in the path of the network namespace.
use mobydig.Prelude.{
  Text, [], ap, arith, inl, inr, refl, suc, zero, ℕ, ◌%◌, ◌*◌, ◌+◌, ◌-◌, ◌/◌, ◌<◌, ◌∙◌, ◌∷◌, ◌≡◌,
  ◌⊎◌,
}
use mobydig.Mobynet.{digits}

-- The number that a text of decimal digits continues.
abbrev value : ℕ → Text → ℕ
value n [] = n
value n (c ∷ cs) = value (n * 10 + (c - 48)) cs

ℕ-cases : (n : ℕ) → (n ≡ 0) ⊎ ((m : ℕ) × (n ≡ suc m))
ℕ-cases zero = inl refl
ℕ-cases (suc m) = inr (m, refl)

digits-value_rest :
    (fuel n : ℕ) (rest : Text) → n < fuel → value 0 (digits fuel n rest) ≡ value n rest
unfolding digits
digits-value_rest zero n rest h = absurd (omega (arith, h))
digits-value_rest (suc fuel) n rest h = elim (ℕ-cases (n / 10)) [
  | inl e ↦ rw (e, digits) (ap (λ k. value k rest) (omega (arith, e)))
  | inr (m, e) ↦
      rw (e, digits)
        (digits-value_rest fuel (suc m) ((48 + n % 10) ∷ rest) (omega (arith, e, h))
          ∙ ap (λ k. value k rest) (omega (arith, e)))
]

-- The decimal text of a process id reads back as that id; the fuel is enough for all its digits.
value-digits : (pid : ℕ) → value 0 (digits (suc pid) pid []) ≡ pid
value-digits pid = digits-value_rest (suc pid) pid [] (omega arith)
