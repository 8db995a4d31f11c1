-- ===== src/Examples/Decimal.antt =====
-- Identifiers displayed in decimal.
use twilight_dispatch.Prelude.{
  ℕ, zero, suc, ◌+◌, ◌-◌, ◌*◌, ◌/◌, ◌%◌, ◌<◌, ◌≡◌, refl, ap, sym, ◌∙◌, false, ltb, Bool-cases, inl,
  inr, [], ◌∷◌, ◌++◌, arith, if◌then◌else◌,
}
use twilight_dispatch.Prelude.Text.{Text, contains, contains-append}
use twilight_dispatch.Constants.{Display}

abbrev pub decimal : ℕ → ℕ → Text
decimal zero n = []
decimal (suc fuel) n =
    let more = decimal fuel (n / 10) ++ (b'0' + n % 10) ∷ [] in
    if ltb n 10 then (b'0' + n % 10) ∷ [] else more

abbrev digits_value : ℕ → Text → ℕ
digits_value acc [] = acc
digits_value acc (c ∷ s) = digits_value (acc * 10 + c - b'0') s

digits_value-snoc :
    (acc d : ℕ) (s : Text) → digits_value acc (s ++ (b'0' + d) ∷ []) ≡ digits_value acc s * 10 + d
digits_value-snoc acc d [] = omega arith
digits_value-snoc acc d (c ∷ s) = digits_value-snoc (acc * 10 + c - b'0') d s

decimal_value : (fuel n : ℕ) → n < fuel → digits_value 0 (decimal fuel n) ≡ n
decimal_value zero n h = elim h [ ]
decimal_value (suc fuel) n h = elim (Bool-cases (ltb n 10)) [
  | inl small ↦ rw small (ground arith)
  | inr large ↦ rw large (
      digits_value-snoc 0 (n % 10) (decimal fuel (n / 10))
      ∙ ap (λ v. v * 10 + n % 10) (decimal_value fuel (n / 10) (ground arith))
      ∙ omega arith)
]

decimal_plain : (fuel n : ℕ) → contains b':' (decimal fuel n) ≡ false
unfolding contains
decimal_plain zero n = refl
decimal_plain (suc fuel) n = elim (Bool-cases (ltb n 10)) [
  | inl small ↦ rw small (ground arith)
  | inr large ↦ rw large (
      contains-append b':' (decimal fuel (n / 10)) ((b'0' + n % 10) ∷ [])
      ∙ ground (arith, decimal_plain fuel (n / 10)))
]

abbrev pub in_decimal : ℕ → Text
in_decimal n = decimal (suc n) n

pub in_decimal-plain : (n : ℕ) → contains b':' (in_decimal n) ≡ false
in_decimal-plain n = decimal_plain (suc n) n

pub in_decimal-inj : (m n : ℕ) → in_decimal m ≡ in_decimal n → m ≡ n
in_decimal-inj m n e =
    sym (decimal_value (suc m) m (omega arith))
    ∙ ap (digits_value 0) e
    ∙ decimal_value (suc n) n (omega arith)

abbrev pub decimal_display : Display
decimal_display = record {
  show = in_decimal;
  show_plain = in_decimal-plain;
  show_inj = in_decimal-inj;
}
