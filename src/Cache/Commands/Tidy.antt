-- ===== src/Cache/Commands/Tidy.antt =====
-- src/cache.rs: what each Redis command does to the parts of consistency.
use twilight_dispatch.Prelude.{
  ◌≡◌, Option, none, Bool, true, false, not, ◌&&◌, ◌||◌, is_some, List, arith, inl, inr, Bool-cases,
  if◌then◌else◌,
}
use twilight_dispatch.Prelude.Text.{Text, text_eq}
use twilight_dispatch.Constants.{expiry_keys}
use twilight_dispatch.World.Laws.{member, writes, last_value}
use twilight_dispatch.Cache.Index.{stored_key}
use twilight_dispatch.Cache.Index.Places.{is_index}
use twilight_dispatch.Cache.Consistent.Keeps.{some-last_value}
use twilight_dispatch.Cache.Commands.Tasks.{IsPlace}

-- The parts of consistency that do not relate the values with the sets, for a description.
pub record Tidy (a : Text → Option Text) (b : Text → Text → Bool) (c : Text → Text → Option Text)
    : Type 0 where
  pub canonical : (m : Text) → is_some (a m) ≡ true → stored_key m ≡ m
  pub members_placed : (i m : Text) → b i m ≡ true → IsPlace m
  pub plain_expiries : (m : Text) → is_some (c expiry_keys m) ≡ true → is_index m ≡ false

module _ {a : Text → Option Text} {b : Text → Text → Bool} {f : Text → Text → Option Text} where
  pub write-Tidy :
      (pairs : List (Text × Text))
      → ((m : Text) → writes pairs m ≡ true → IsPlace m)
      → Tidy a b f
      → Tidy
          (λ k. last_value k pairs (a k))
          (λ i m. not (writes pairs i) && b i m)
          (λ h g. if writes pairs h then none else f h g)
  write-Tidy pairs p k = record {
    canonical = λ m h. elim (Bool-cases (writes pairs m)) [
      | inl e ↦ (p m e).0
      | inr e ↦ k.canonical m (ground (arith, some-last_value m pairs (a m)))
    ];
    members_placed = λ i m h. k.members_placed i m (ground arith);
    plain_expiries = λ m h. k.plain_expiries m (ground arith);
  }

  pub drop-Tidy :
      (keys : List Text)
      → Tidy a b f
      → Tidy
          (λ k. if member k keys then none else a k)
          (λ i m. not (member i keys) && b i m)
          (λ h g. if member h keys then none else f h g)
  drop-Tidy keys k = record {
    canonical = λ m h. k.canonical m (ground arith);
    members_placed = λ i m h. k.members_placed i m (ground arith);
    plain_expiries = λ m h. k.plain_expiries m (ground arith);
  }

  pub add-Tidy :
      (j : Text) (ms : List Text)
      → ((m : Text) → member m ms ≡ true → IsPlace m)
      → Tidy a b f
      → Tidy a (λ i m. (text_eq j i && member m ms) || b i m) f
  add-Tidy j ms p k = record {
    canonical = k.canonical;
    members_placed = λ i m h. elim (Bool-cases (member m ms)) [
      | inl e ↦ p m e
      | inr e ↦ k.members_placed i m (ground arith)
    ];
    plain_expiries = k.plain_expiries;
  }

  pub take-Tidy :
      (j : Text) (ms : List Text)
      → Tidy a b f
      → Tidy a (λ i m. not (text_eq j i && member m ms) && b i m) f
  take-Tidy j ms k = record {
    canonical = k.canonical;
    members_placed = λ i m h. k.members_placed i m (ground arith);
    plain_expiries = k.plain_expiries;
  }
