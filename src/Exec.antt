-- ===== src/Exec.antt =====
-- Asynchronous functions that return `ApiResult`, run one after the other: an action takes the state
-- of the outside world and returns its result with the next state. What was done before an error
-- stays done, so the state comes back beside the error too.
pub mod Rules
use twilight_dispatch.Prelude.{List, [], ◌∷◌}
use twilight_dispatch.Models.{Result, ok, err, ApiError, ApiResult}

abbrev pub Exec : Type 0 → Type 0 → Type 0
Exec S A = S → ApiResult A × S

-- `map_err(ApiError::from)`: an error of another type becomes an `ApiError` by its `From`.
abbrev pub map_err : {E A : Type 0} → (E → ApiError) → Result E A → ApiResult A
map_err from (ok a) = ok a
map_err from (err e) = err (from e)

-- `Result::and_then`.
abbrev pub and_then : {A B : Type 0} → ApiResult A → (A → ApiResult B) → ApiResult B
and_then (ok a) f = f a
and_then (err e) f = err e

module _ {S A : Type 0} where
  unfoldable pub pure : A → Exec S A
  pure a s = (ok a, s)

  unfoldable pub lift : ApiResult A → Exec S A
  lift r s = (r, s)

  -- A fallible call of a library followed by `?`.
  unfoldable pub with_error : {E : Type 0} → (E → ApiError) → (S → Result E A × S) → Exec S A
  with_error from m s = let (r, s') = m s in (map_err from r, s')

  -- `match m.await { Ok(a) => f(a), Err(e) => g(e) }`: the error is a value.
  unfoldable pub attempt : Exec S A → Exec S (ApiResult A)
  attempt m s = let (r, s') = m s in (ok r, s')

module _ {S A B : Type 0} where
  abbrev continue : ApiResult A → (A → Exec S B) → Exec S B
  continue (ok a) f s = f a s
  continue (err e) f s = (err e, s)

  infixl 10 ◌>>=◌ ◌>>◌
  unfoldable pub ◌>>=◌ : Exec S A → (A → Exec S B) → Exec S B
  unfolding pure
  ◌>>=◌ m f s = let (r, s') = m s in continue r f s'

  abbrev pub ◌>>◌ : Exec S A → Exec S B → Exec S B
  m >> n = m >>= λ _. n

-- `for x in xs { body(x)?; }`
unfoldable pub for_each : {S A : Type 0} → List A → (A → Exec S (Unit {0})) → Exec S (Unit {0})
for_each [] body = pure tt
for_each (x ∷ xs) body = do body x; for_each xs body
