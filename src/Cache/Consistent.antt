-- ===== src/Cache/Consistent.antt =====
-- The state of the cache is consistent: what `set_all` and `del_all` keep between them.
pub mod Keeps
pub mod Actions
pub mod Expiry
use twilight_dispatch.Prelude.{◌≡◌, true, false, Option, ◌&&◌, Bool, is_some}
use twilight_dispatch.Prelude.Text.{Text}
use twilight_dispatch.Constants.{expiry_keys}
use twilight_dispatch.World.Laws.{Views, member}
use twilight_dispatch.Cache.Index.{stored_key}
use twilight_dispatch.Cache.Index.Covers.{index_sets}
use twilight_dispatch.Cache.Index.Places.{is_index}

-- Of a description of the database: every value stands at a canonical place that is no index set,
-- and is in each index set of its place; a set names canonical places only; no set and no expiry
-- names an index set.
pub record Consistent (a : Text → Option Text) (b : Text → Text → Bool)
    (c : Text → Text → Option Text) : Type 0 where
  pub canonical : (m : Text) → is_some (a m) ≡ true → stored_key m ≡ m
  pub indexed : (i m : Text) → is_some (a m) ≡ true → member i (index_sets m) ≡ true → b i m ≡ true
  pub canonical_members : (i m : Text) → b i m ≡ true → stored_key m ≡ m
  pub plain_members : (i m : Text) → b i m ≡ true → is_index m ≡ false
  pub plain_expiries : (m : Text) → is_some (c expiry_keys m) ≡ true → is_index m ≡ false

abbrev pub IsConsistent : {S : Type 0} → Views S → S → Type 0
IsConsistent v s = Consistent (v.value s) (v.has s) (v.field s)
