-- ===== src/Cache/Read/Effect.antt =====
-- src/cache.rs: what `get` returns.
use twilight_dispatch.Prelude.{◌≡◌, Option, none, Bool, arith}
use twilight_dispatch.Prelude.Text.{Text}
use twilight_dispatch.Models.{ok, Codec}
use twilight_dispatch.Exec.Rules.{Ensures, Ensures-bind, Ensures-lift, Ensures-assume}
use twilight_dispatch.World.{World}
use twilight_dispatch.World.Laws.{Lawful, Becomes}
use twilight_dispatch.World.Steps.{get-Ensures}
use twilight_dispatch.Cache.Read.{get, decode}

module _ (w : World) (l : Lawful w) (a : Text → Option Text) (b : Text → Text → Bool)
    (f : Text → Text → Option Text) {A : Type 0} (c : Codec A) where
  open l use {views}

  abbrev Here : w.State → Type 0
  Here s = Becomes views s a b f

  -- `get` returns what its codec reads in the value at the key.
  pub get_effect :
      (key : Text) (r : Option A)
      → decode c (a key) ≡ ok r
      → Ensures Here (get w c key) (λ r' s'. (r' ≡ r) × Here s')
  unfolding get
  get_effect key r e = Ensures-bind _ _ _ (get-Ensures w l a b f key) λ v.
      Ensures-assume _
        λ same. Ensures-lift (decode c v) (λ r' h s d. (ground (arith, same, e, h), d))

  pub get_absent :
      (key : Text) → a key ≡ none → Ensures Here (get w c key) (λ r s'. (r ≡ none) × Here s')
  unfolding decode
  get_absent key e = get_effect key none (rw e)
