-- ===== src/Prelude/Text.antt =====
-- Texts as lists of code points: equality, literals, suffixes and `str::split` at one character.
use Prim.Native.Nat.{ℕ}
use Prim.Native.Char.{code}
use Prim.Native.String.{String}
use mathlib.Core.Path.{◌≡◌, refl, subst}
use mathlib.Core.Logic.{◌↔◌, inl, inr}
use mathlib.Core.Bool.{Bool, true, false, ◌&&◌, ◌||◌}
use mathlib.Core.List.{List, [], ◌∷◌, ◌++◌}
use native.Mathlib.Omega.{arith}
use twilight_dispatch.Prelude.Tests.{◌==◌, if◌then◌else◌, Bool-cases}
use twilight_dispatch.Prelude.Lists.{All}

abbrev pub Text : Type 0
Text = List ℕ

-- The code points of a literal.
abbrev pub lit : String → Text
lit String.[] = []
lit (String.◌∷◌ c s) = code c ∷ lit s

unfoldable pub text_eq : Text → Text → Bool
text_eq [] [] = true
text_eq (c ∷ s) (d ∷ t) = c == d && text_eq s t
text_eq _ _ = false

pub text_eq_refl : (s : Text) → text_eq s s ≡ true
unfolding text_eq
text_eq_refl [] = refl
text_eq_refl (c ∷ s) = ground (arith, text_eq_refl s)

text_eq_sound : (s t : Text) → text_eq s t ≡ true → s ≡ t
unfolding text_eq
text_eq_sound [] [] h = refl
text_eq_sound [] (d ∷ t) h = cc
text_eq_sound (c ∷ s) [] h = cc
text_eq_sound (c ∷ s) (d ∷ t) h = ground (arith, text_eq_sound s t)

pub text_eq_iff : (s t : Text) → (text_eq s t ≡ true) ↔ (s ≡ t)
text_eq_iff s t = (text_eq_sound s t, λ e. subst (λ u. text_eq s u ≡ true) e (text_eq_refl s))

pub text_eq_comm : (s t : Text) → text_eq s t ≡ text_eq t s
text_eq_comm s t = ground (arith, text_eq_iff s t, text_eq_iff t s)

-- `str::contains` of one character.
unfoldable pub contains : ℕ → Text → Bool
contains c [] = false
contains c (d ∷ s) = d == c || contains c s

pub contains-append : (c : ℕ) (s t : Text) → contains c (s ++ t) ≡ (contains c s || contains c t)
unfolding contains
contains-append c [] t = refl
contains-append c (d ∷ s) t = ground (arith, contains-append c s t)

-- `str::ends_with`.
unfoldable pub ends_with : Text → Text → Bool
ends_with suffix [] = text_eq suffix []
ends_with suffix (c ∷ s) = text_eq suffix (c ∷ s) || ends_with suffix s

ends_with_self : (suffix : Text) → ends_with suffix suffix ≡ true
unfolding ends_with
ends_with_self [] = text_eq_refl []
ends_with_self (c ∷ s) = ground (arith, text_eq_refl (c ∷ s))

pub ends_with-append : (suffix s : Text) → ends_with suffix (s ++ suffix) ≡ true
unfolding ends_with
ends_with-append suffix [] = ends_with_self suffix
ends_with-append suffix (c ∷ s) = ground (arith, ends_with-append suffix s)

abbrev add_to_head : ℕ → List Text → List Text
add_to_head c [] = (c ∷ []) ∷ []
add_to_head c (p ∷ ps) = (c ∷ p) ∷ ps

-- `s.split(c).collect()`: the pieces between the occurrences of `c`, at least one.
unfoldable pub split : ℕ → Text → List Text
split c [] = [] ∷ []
split c (d ∷ s) = let rest = split c s in if d == c then [] ∷ rest else add_to_head d rest

-- A text without the separator is one piece.
pub split_whole : (c : ℕ) (s : Text) → contains c s ≡ false → split c s ≡ s ∷ []
unfolding split contains
split_whole c [] h = refl
split_whole c (d ∷ s) h = ground (arith, split_whole c s)

-- A piece without the separator comes off the front.
pub split-append :
    (c : ℕ) (s t : Text) → contains c s ≡ false → split c (s ++ c ∷ t) ≡ s ∷ split c t
unfolding split contains
split-append c [] t h = ground arith
split-append c (d ∷ s) t h = ground (arith, split-append c s t)

-- No piece has the separator.
pub split_pieces : (c : ℕ) (s : Text) → All (λ p. contains c p ≡ false) (split c s)
unfolding split contains
split_pieces c [] = (refl, tt)
split_pieces c (d ∷ s) = add c d (split c s) (split_pieces c s)
  where
    add :
        (c d : ℕ) (ps : List Text)
        → All (λ p. contains c p ≡ false) ps
        → All (λ p. contains c p ≡ false) (if d == c then [] ∷ ps else add_to_head d ps)
    add c d [] h = elim (Bool-cases (d == c)) [
      | inl e ↦ rw e (refl, tt)
      | inr e ↦ rw e (ground arith, tt)
    ]
    add c d (p ∷ ps) h = elim (Bool-cases (d == c)) [
      | inl e ↦ rw e (refl, h)
      | inr e ↦ rw e (ground arith, h.1)
    ]
