-- ===== src/Docs/Slug/Decimal.antt =====
-- The number that a decimal text stands for.
use mirocraft.Prelude.{
  ℕ, zero, suc, ◌+◌, ◌-◌, ◌*◌, ◌/◌, ◌%◌, ◌<◌, ◌≡◌, inl, inr, sym, ◌∙◌, ap, [], ◌∷◌, ltb, Text,
  decimal, decimal_from, Bool-cases, arith, ltb→lt, ltb-false→le,
}

value_from : ℕ → Text → ℕ
value_from acc [] = acc
value_from acc (d ∷ s) = value_from (acc * 10 + (d - b'0')) s

value_from-decimal_from :
    (f n : ℕ) (out : Text) → n < f → value_from 0 (decimal_from f n out) ≡ value_from n out
unfolding decimal_from value_from
value_from-decimal_from zero n out h = absurd (omega arith)
value_from-decimal_from (suc f) n out h = elim (Bool-cases (ltb n 10)) [
  | inl last ↦ rw last (ap (λ m. value_from m out) (omega (arith, ltb→lt n 10 last)))
  | inr more ↦
      rw
        (
          more,
          value_from-decimal_from f (n / 10) ((b'0' + n % 10) ∷ out)
              (omega (arith, ltb-false→le n 10 more)),
        )
        (ap (λ m. value_from m out) (omega arith))
]

pub decimal-injective : (m n : ℕ) → decimal m ≡ decimal n → m ≡ n
unfolding decimal value_from
decimal-injective m n e =
    sym (value_from-decimal_from (suc m) m [] (omega arith))
    ∙ ap (value_from 0) e
    ∙ value_from-decimal_from (suc n) n [] (omega arith)
