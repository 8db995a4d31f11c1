-- ===== src/Cache/Spec/Refines.antt =====
-- An action of src/cache.rs does what a specification says: one rule for each way to build an action.
use twilight_dispatch.Prelude.{◌≡◌, refl, ap, sym, subst, ◌∙◌, Bool, true, false, if◌then◌else◌}
use twilight_dispatch.Prelude.Text.{Text}
use twilight_dispatch.Models.{ok, err, ApiResult}
use twilight_dispatch.Exec.{Exec, pure, lift, attempt, ◌>>=◌}
use twilight_dispatch.World.{World}
use twilight_dispatch.World.Laws.{Lawful}
use twilight_dispatch.Cache.Spec.{Objects}

module _ (w : World) (l : Lawful w) where
  open l use {value}

  -- The database holds the objects, and whatever else.
  abbrev pub Holds : w.State → Objects → Type 0
  Holds s objects = (k : Text) → value s k ≡ objects k

  -- The same result, an error included, and the same objects.
  abbrev pub Agree : {A : Type 0} → ApiResult A × w.State → ApiResult A × Objects → Type 0
  Agree r q = (r.0 ≡ q.0) × Holds r.1 q.1

  -- From every state with `P`, the action agrees with the specification.
  pub record Refines {A : Type 0} (P : w.State → Type 0) (m : Exec w.State A) (n : Exec Objects A)
      : Type 0 where
    pub run : (s : w.State) (objects : Objects) → P s → Holds s objects → Agree (m s) (n objects)

  abbrev pub Anywhere : w.State → Type 0
  Anywhere s = Unit

  module _ {A : Type 0} {P : w.State → Type 0} where
    pub Refines-pure : (a : A) → Refines P (pure a) (pure a)
    unfolding pure
    Refines-pure a = record { run = λ s o p h. (refl, h) }

    pub Refines-lift : (r : ApiResult A) → Refines P (lift r) (lift r)
    unfolding lift
    Refines-lift r = record { run = λ s o p h. (refl, h) }

    pub Refines-Anywhere :
        (m : Exec w.State A) (n : Exec Objects A) → Refines Anywhere m n → Refines P m n
    Refines-Anywhere m n h = record { run = λ s o p. h.run s o tt }

    pub Refines-if :
        (b : Bool) (m m' : Exec w.State A) (n n' : Exec Objects A)
        → Refines P m n
        → Refines P m' n'
        → Refines P (if b then m else m') (if b then n else n')
    Refines-if true m m' n n' h h' = h
    Refines-if false m m' n n' h h' = h'

    pub Refines-attempt :
        (m : Exec w.State A) (n : Exec Objects A)
        → Refines P m n
        → Refines P (attempt m) (attempt n)
    unfolding attempt
    Refines-attempt m n h = record { run = λ s o p d. let q = h.run s o p d in (ap ok q.0, q.1) }

  module _ {A B : Type 0} {P : w.State → Type 0} where
    pub Refines-bind :
        (m : Exec w.State A) (n : Exec Objects A) (f : A → Exec w.State B) (g : A → Exec Objects B)
        → Refines P m n
        → ((a : A) → Refines Anywhere (f a) (g a))
        → Refines P (m >>= f) (n >>= g)
    unfolding ◌>>=◌
    Refines-bind m n f g hm hf = record {
      run = λ s o p h. let q = hm.run s o p h in go s o (m s).0 (n o).0 (m s).1 (n o).1 q.0 q.1;
    }
      where
        same :
            (s : w.State) (o : Objects) (r : ApiResult A) (s' : w.State) (o' : Objects)
            → Holds s' o'
            → Agree (((λ _. (r, s')) >>= f) s) (((λ _. (r, o')) >>= g) o)
        same s o (ok a) s' o' h = (hf a).run s' o' tt h
        same s o (err e) s' o' h = (refl, h)

        go :
            (s : w.State) (o : Objects) (r r' : ApiResult A) (s' : w.State) (o' : Objects)
            → r ≡ r'
            → Holds s' o'
            → Agree (((λ _. (r, s')) >>= f) s) (((λ _. (r', o')) >>= g) o)
        go s o r r' s' o' e h =
            subst (λ x. Agree (((λ _. (r, s')) >>= f) s) (((λ _. (x, o')) >>= g) o)) e
              (same s o r s' o' h)

    -- A step with a known result that the specification does not have.
    pub Refines-skip :
        (m : Exec w.State A) (a : A) (f : A → Exec w.State B) (n : Exec Objects B)
        → Refines P m (pure a)
        → Refines Anywhere (f a) n
        → Refines P (m >>= f) n
    unfolding ◌>>=◌ pure
    Refines-skip m a f n hm hf = record {
      run = λ s o p h.
          let q = hm.run s o p h in
          subst (λ r. Agree (((λ _. (r, (m s).1)) >>= f) s) (n o)) (sym q.0)
            (hf.run (m s).1 o tt q.1);
    }

  -- A last step that returns nothing new.
  pub Refines-last :
      {P : w.State → Type 0} (m : Exec w.State (Unit {0})) (n : Exec Objects (Unit {0}))
      → Refines P m n
      → Refines P (m >>= λ _. pure tt) n
  unfolding ◌>>=◌ pure
  Refines-last m n hm = record {
    run = λ s o p h.
        let q = hm.run s o p h in (same (m s).1 (m s).0 ∙ q.0, settled (m s).1 (n o).1 (m s).0 q.1);
  }
    where
      same : (s : w.State) (r : ApiResult (Unit {0})) → (((λ _. (r, s)) >>= λ _. pure tt) s).0 ≡ r
      same s (ok a) = refl
      same s (err e) = refl

      settled :
          (s : w.State) (o : Objects) (r : ApiResult (Unit {0}))
          → Holds s o
          → Holds (((λ _. (r, s)) >>= λ _. pure tt) s).1 o
      settled s o (ok a) h = h
      settled s o (err e) h = h
