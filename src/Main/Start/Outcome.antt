-- ===== src/Main/Start/Outcome.antt =====
-- What an action of src/main.rs guarantees on success and on an error.
use twilight_dispatch.Models.{ok, err, ApiResult}
use twilight_dispatch.Exec.{Exec, pure, ◌>>=◌}

module _ {S : Type 0} (E : S → Type 0) where
  -- `Q` after a success, `E` after an error.
  abbrev pub Outcome : {A : Type 0} → (A → S → Type 0) → ApiResult A → S → Type 0
  Outcome Q (ok a) s = Q a s
  Outcome Q (err e) s = E s

  pub record Ends {A : Type 0} (P : S → Type 0) (m : Exec S A) (Q : A → S → Type 0) : Type 0 where
    pub run : (s : S) → P s → Outcome Q (m s).0 (m s).1

  pub Ends-pure :
      {A : Type 0} {P : S → Type 0} {Q : A → S → Type 0} (a : A)
      → ((s : S) → P s → Q a s)
      → Ends P (pure a) Q
  unfolding pure
  Ends-pure a h = record { run = h }

  pub Ends-bind :
      {A B : Type 0} {P : S → Type 0} {R : B → S → Type 0} (m : Exec S A) (f : A → Exec S B)
      (Q : A → S → Type 0)
      → Ends P m Q
      → ((a : A) → Ends (Q a) (f a) R)
      → Ends P (m >>= f) R
  unfolding ◌>>=◌
  Ends-bind {A} {R = R} m f Q hm hf = record { run = λ s p. go s (m s).0 (m s).1 (hm.run s p) }
    where
      go :
          (s : S) (r : ApiResult A) (s' : S)
          → Outcome Q r s'
          → Outcome R (((λ _. (r, s')) >>= f) s).0 (((λ _. (r, s')) >>= f) s).1
      go s (ok a) s' q = (hf a).run s' q
      go s (err e) s' q = q

-- A stronger start, and less said of an error.
pub Ends-weaken :
    {S A : Type 0} {E E' P P' : S → Type 0} {Q : A → S → Type 0} (m : Exec S A)
    → ((s : S) → P' s → P s)
    → ((s : S) → E s → E' s)
    → Ends E P m Q
    → Ends E' P' m Q
Ends-weaken {S} {A} {E = E} {E' = E'} {Q = Q} m before broken h = record {
  run = λ s p. go (m s).0 (m s).1 (h.run s (before s p));
}
  where
    go : (r : ApiResult A) (s : S) → Outcome E Q r s → Outcome E' Q r s
    go (ok a) s q = q
    go (err e) s q = broken s q
