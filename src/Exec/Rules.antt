-- ===== src/Exec/Rules.antt =====
-- What an action that succeeds guarantees: one rule for each way to build an action.
use twilight_dispatch.Prelude.{◌≡◌, refl, Bool, true, false, List, [], ◌∷◌, if◌then◌else◌}
use twilight_dispatch.Models.{Result, ok, err, ApiError, ApiResult}
use twilight_dispatch.Exec.{Exec, pure, lift, with_error, attempt, ◌>>=◌, for_each}

-- `Q` holds of a returned value and the state; an error says nothing.
abbrev After : {E S A : Type 0} → (A → S → Type 0) → Result E A → S → Type 0
After Q (ok a) s = Q a s
After Q (err e) s = Unit

-- A run that succeeds ends with `Q`.
abbrev pub Post : {E S A : Type 0} → (A → S → Type 0) → Result E A × S → Type 0
Post Q r = After Q r.0 r.1

pub Post-map :
    {E S A : Type 0} {Q Q' : A → S → Type 0} (r : Result E A × S)
    → ((a : A) (s : S) → Q a s → Q' a s)
    → Post Q r
    → Post Q' r
Post-map (ok a, s) h q = h a s q
Post-map (err e, s) h q = tt

-- To a property of the returned value, one of the state that holds on both outcomes is added.
pub Post-and :
    {E S A : Type 0} (Q : A → Type 0) (I : S → Type 0) (r : Result E A × S)
    → Post (λ a _. Q a) r
    → I r.1
    → Post (λ a s. Q a × I s) r
Post-and Q I (ok a, s) q i = (q, i)
Post-and Q I (err e, s) q i = tt

-- From a state with `P`, the action either fails or ends with `Q`.
pub record Ensures {S A : Type 0} (P : S → Type 0) (m : Exec S A) (Q : A → S → Type 0)
    : Type 0 where
  pub run : (s : S) → P s → Post Q (m s)

module _ {S A : Type 0} {P : S → Type 0} {Q : A → S → Type 0} where
  pub Ensures-pure : (a : A) → ((s : S) → P s → Q a s) → Ensures P (pure a) Q
  unfolding pure
  Ensures-pure a h = record { run = h }

  pub Ensures-lift :
      (r : ApiResult A) → ((a : A) → r ≡ ok a → (s : S) → P s → Q a s) → Ensures P (lift r) Q
  unfolding lift
  Ensures-lift (ok a) h = record { run = h a refl }
  Ensures-lift (err e) h = record { run = λ s p. tt }

  pub Ensures-if :
      (b : Bool) (m n : Exec S A)
      → (b ≡ true → Ensures P m Q)
      → (b ≡ false → Ensures P n Q)
      → Ensures P (if b then m else n) Q
  Ensures-if true m n hm hn = hm refl
  Ensures-if false m n hm hn = hn refl

  -- A stronger start and a weaker end.
  pub Ensures-weaken :
      {P' : S → Type 0} {Q' : A → S → Type 0} (m : Exec S A)
      → ((s : S) → P' s → P s)
      → ((a : A) (s : S) → Q a s → Q' a s)
      → Ensures P m Q
      → Ensures P' m Q'
  Ensures-weaken {Q' = Q'} m before behind h = record {
    run = λ s p. weaken (m s).0 (m s).1 (h.run s (before s p));
  }
    where
      weaken : (r : ApiResult A) (s : S) → After Q r s → After Q' r s
      weaken (ok a) s q = behind a s q
      weaken (err e) s q = tt

  pub Ensures-with_error :
      {E : Type 0} (from : E → ApiError) (m : S → Result E A × S)
      → ((s : S) → P s → Post Q (m s))
      → Ensures P (with_error from m) Q
  unfolding with_error
  Ensures-with_error {E} from m h = record { run = λ s p. convert_post (m s).0 (m s).1 (h s p) }
    where
      convert_post :
          (r : Result E A) (s : S) → After Q r s → Post Q (with_error from (λ _. (r, s)) s)
      convert_post (ok a) s q = q
      convert_post (err e) s q = tt

module _ {S A B : Type 0} {P : S → Type 0} {R : B → S → Type 0} where
  pub Ensures-bind :
      (m : Exec S A) (f : A → Exec S B) (Q : A → S → Type 0)
      → Ensures P m Q
      → ((a : A) → Ensures (Q a) (f a) R)
      → Ensures P (m >>= f) R
  unfolding ◌>>=◌
  Ensures-bind m f Q hm hf = record { run = λ s p. go (m s).0 (m s).1 (hm.run s p) }
    where
      go : (r : ApiResult A) (s : S) → After Q r s → Post R (((λ _. (r, s)) >>= f) s)
      go (ok a) s q = (hf a).run s q
      go (err e) s q = tt

-- A loop keeps an invariant that each round keeps.
pub Ensures-for_each :
    {S A : Type 0} (I : S → Type 0) (xs : List A) (body : A → Exec S (Unit {0}))
    → ((x : A) → Ensures I (body x) (λ _. I))
    → Ensures I (for_each xs body) (λ _. I)
unfolding for_each
Ensures-for_each I [] body h = Ensures-pure tt (λ s p. p)
Ensures-for_each I (x ∷ xs) body h =
    Ensures-bind (body x) (λ _. for_each xs body) (λ _. I) (h x) (λ _. Ensures-for_each I xs body h)

module _ {S A B : Type 0} {P : S → Type 0} {R : B → S → Type 0} where
  -- A result that is known.
  pub Ensures-bind_lift :
      (r : ApiResult A) (f : A → Exec S B) (a : A)
      → r ≡ ok a
      → Ensures P (f a) R
      → Ensures P (lift r >>= f) R
  unfolding ◌>>=◌ lift
  Ensures-bind_lift r f a e h = rw e (record { run = h.run })

-- A fact that does not depend on the state.
pub Ensures-assume :
    {S A : Type 0} {F : Type 0} {P : S → Type 0} {Q : A → S → Type 0} (m : Exec S A)
    → (F → Ensures P m Q)
    → Ensures (λ s. F × P s) m Q
Ensures-assume m h = record { run = λ s p. (h p.0).run s p.1 }

module _ {S A : Type 0} {P : S → Type 0} {Q : ApiResult A → S → Type 0} where
  -- Where the error is a value, both outcomes count.
  pub Ensures-attempt :
      (m : Exec S A) → ((s : S) → P s → Q (m s).0 (m s).1) → Ensures P (attempt m) Q
  unfolding attempt
  Ensures-attempt m h = record { run = h }

-- A pure step after an action leaves the state as the action did.
pub bind_lift_state :
    {S A B : Type 0} (m : Exec S A) (f : A → ApiResult B) (s : S)
    → ((m >>= λ a. lift (f a)) s).1 ≡ (m s).1
unfolding ◌>>=◌ lift
bind_lift_state {S} {A} m f s = go (m s).0 (m s).1
  where
    go : (r : ApiResult A) (s' : S) → (((λ _. (r, s')) >>= λ a. lift (f a)) s).1 ≡ s'
    go (ok a) s' = refl
    go (err e) s' = refl

Post-any : {S A : Type 0} (r : ApiResult A × S) → Post (λ _ _. Unit {0}) r
Post-any (ok a, s) = tt
Post-any (err e, s) = tt

-- Nothing is said of the end.
pub Ensures-any : {S A : Type 0} {P : S → Type 0} (m : Exec S A) → Ensures P m (λ _ _. Unit {0})
Ensures-any m = record { run = λ s p. Post-any (m s) }
