-- ===== src/Cluster/Parse.antt =====
-- `str::parse::<u64>` of the standard library: decimal digits, with a leading plus or none.
use twilight_dispatch.Prelude.{
  ℕ, ◌+◌, ◌-◌, ◌*◌, ◌^◌, ltb, ◌==◌, ◌||◌, Option, none, some, [], ◌∷◌, if◌then◌else◌,
}
use twilight_dispatch.Prelude.Text.{Text}

-- The digits of a number, from its value so far; one that leaves `u64` is refused.
unfoldable pub parse_digits : ℕ → Text → Option ℕ
parse_digits n [] = some n
parse_digits n (c ∷ rest) =
    let next = parse_digits (n * 10 + (c - b'0')) rest in
    if (ltb c b'0' || ltb b'9' c) || ltb (2 ^ 64 - 1) (n * 10 + (c - b'0')) then none else next

unfoldable pub parse_u64 : Text → Option ℕ
unfolding parse_digits
parse_u64 [] = none
parse_u64 (c ∷ []) = parse_digits 0 (c ∷ [])
parse_u64 (c ∷ d ∷ rest) =
    if c == b'+' then parse_digits 0 (d ∷ rest) else parse_digits 0 (c ∷ d ∷ rest)
