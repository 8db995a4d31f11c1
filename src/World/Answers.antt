-- ===== src/World/Answers.antt =====
-- A Redis that answers every command, and what then succeeds.
use twilight_dispatch.Prelude.{refl, ◌≡◌, List, [], ◌∷◌}
use twilight_dispatch.Prelude.Text.{Text}
use twilight_dispatch.Models.{Result, ok, err, ApiError, ApiResult}
use twilight_dispatch.Exec.Rules.{Ensures, Post}
use twilight_dispatch.Exec.{attempt, Exec, pure, lift, with_error, for_each, ◌>>=◌}
use twilight_dispatch.World.{World}

abbrev pub IsOk : {E A : Type 0} → Result E A → Type 0
IsOk (ok a) = Unit
IsOk (err e) = ⊥

-- Every command is answered with a success. MGET, MSET, DEL, HSET and HDEL are answered if they have a
-- key or a field at all. For SADD and SREM no member is asked for: the code collects no empty lists.
pub record Answers (w : World) : Type 0 where
  pub get_answers : (k : Text) (s : w.State) → IsOk (w.redis_get k s).0
  pub mget_answers : (k : Text) (ks : List Text) (s : w.State) → IsOk (w.redis_mget (k ∷ ks) s).0
  pub smembers_answers : (i : Text) (s : w.State) → IsOk (w.smembers i s).0
  pub hgetall_answers : (h : Text) (s : w.State) → IsOk (w.hgetall h s).0
  pub hset_multiple_answers :
      (h : Text) (kv : Text × Text) (kvs : List (Text × Text)) (s : w.State)
      → IsOk (w.hset_multiple h (kv ∷ kvs) s).0
  pub hdel_answers : (h f : Text) (fs : List Text) (s : w.State) → IsOk (w.hdel h (f ∷ fs) s).0
  pub set_multiple_answers :
      (kv : Text × Text) (kvs : List (Text × Text)) (s : w.State)
      → IsOk (w.set_multiple (kv ∷ kvs) s).0
  pub del_answers : (k : Text) (ks : List Text) (s : w.State) → IsOk (w.redis_del (k ∷ ks) s).0
  pub sadd_answers : (i : Text) (ms : List Text) (s : w.State) → IsOk (w.sadd i ms s).0
  pub srem_answers : (i : Text) (ms : List Text) (s : w.State) → IsOk (w.srem i ms s).0

-- The action succeeds from every state.
pub record Succeeds {S A : Type 0} (m : Exec S A) : Type 0 where
  pub run : (s : S) → IsOk (m s).0

module _ {S A : Type 0} where
  pub Succeeds-pure : (a : A) → Succeeds (pure {S = S} a)
  unfolding pure
  Succeeds-pure a = record { run = λ s. tt }

  pub Succeeds-with_error :
      {E : Type 0} (from : E → ApiError) (m : S → Result E A × S)
      → ((s : S) → IsOk (m s).0)
      → Succeeds (with_error from m)
  unfolding with_error
  Succeeds-with_error {E} from m h = record { run = λ s. go (m s).0 (m s).1 (h s) }
    where
      go : (r : Result E A) (s : S) → IsOk r → IsOk (with_error from (λ _. (r, s)) s).0
      go (ok a) s i = tt
      go (err e) s i = i

module _ {S A B : Type 0} where
  pub Succeeds-bind :
      (m : Exec S A) (f : A → Exec S B)
      → Succeeds m
      → ((a : A) → Succeeds (f a))
      → Succeeds (m >>= f)
  unfolding ◌>>=◌
  Succeeds-bind m f hm hf = record { run = λ s. go (m s).0 (m s).1 (hm.run s) }
    where
      go : (r : ApiResult A) (s : S) → IsOk r → IsOk (((λ _. (r, s)) >>= f) s).0
      go (ok a) s i = (hf a).run s
      go (err e) s i = absurd i

  pub Succeeds-bind_lift :
      (r : ApiResult A) (f : A → Exec S B) (a : A)
      → r ≡ ok a
      → Succeeds (f a)
      → Succeeds (lift r >>= f)
  unfolding ◌>>=◌ lift
  Succeeds-bind_lift r f a e h = rw e (record { run = h.run })

pub Succeeds-for_each :
    {S A : Type 0} (xs : List A) (body : A → Exec S (Unit {0}))
    → ((x : A) → Succeeds (body x))
    → Succeeds (for_each xs body)
unfolding for_each
Succeeds-for_each [] body h = Succeeds-pure tt
Succeeds-for_each (x ∷ xs) body h =
    Succeeds-bind (body x) (λ _. for_each xs body) (h x) (λ _. Succeeds-for_each xs body h)

-- What an action that succeeds guarantees is guaranteed where its error is a value.
pub Ensures-attempt_ok :
    {S A : Type 0} {P : S → Type 0} {Q : A → S → Type 0} (m : Exec S A)
    → Succeeds m
    → Ensures P m Q
    → Ensures P (attempt m) (λ r s. (a : A) × (r ≡ ok a) × Q a s)
unfolding attempt
Ensures-attempt_ok {S} {A} {P} {Q} m succeeds h = record {
  run = λ s p. go (m s).0 (m s).1 (succeeds.run s) (h.run s p);
}
  where
    go : (r : ApiResult A) (s : S) → IsOk r → Post Q (r, s) → (a : A) × (r ≡ ok a) × Q a s
    go (ok a) s i q = (a, refl, q)
    go (err e) s i q = absurd i

-- An action that succeeds keeps what it guarantees.
pub settled :
    {S : Type 0} (Q : S → Type 0) (r : ApiResult (Unit {0}) × S)
    → IsOk r.0
    → Post (λ _ s. Q s) r
    → (r.0 ≡ ok tt) × Q r.1
settled Q (ok tt, s) i q = (refl, q)
settled Q (err e, s) i q = absurd i
