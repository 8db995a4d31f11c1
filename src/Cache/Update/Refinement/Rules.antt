-- ===== src/Cache/Update/Refinement/Rules.antt =====
-- src/cache.rs: one rule for each way in which the arms of `update` are built, against their
-- specification.
use twilight_dispatch.Prelude.{ℕ, Bool, Option, none, some, List, if◌then◌else◌}
use twilight_dispatch.Prelude.Text.{Text}
use twilight_dispatch.Models.{Codec, Value, ApiResult}
use twilight_dispatch.Exec.{Exec, pure, lift, ◌>>=◌}
use twilight_dispatch.World.Laws.{Lawful}
use twilight_dispatch.World.Answers.{Answers}
use twilight_dispatch.Cache.Read.{get, get_all}
use twilight_dispatch.Cache.Write.{set, set_all, expire, expire_all}
use twilight_dispatch.Cache.Delete.{del, del_all}
use twilight_dispatch.Cache.Spec.{Objects, store, store_all, erase, erase_all, find, find_all}
use twilight_dispatch.Cache.Spec.Refines as R
use twilight_dispatch.Cache.Spec.Actions as Actions
use twilight_dispatch.Cache.Spec.Actions.{IsPrintable}
use twilight_dispatch.Cache.Update.Context.{Env, read_old, to_value}
use twilight_dispatch.Cache.Update.Spec.{recall, as_old, respond}
use twilight_dispatch.Events.{Event}

-- A Redis that answers and keeps its laws, and times that can be printed.
pub record Sound (env : Env) : Type 0 where
  pub lawful : Lawful env.world
  pub answering : Answers env.world
  pub printable : IsPrintable env.codecs.date_time

module _ (env : Env) (k : Sound env) where
  open env use {world, codecs, config}

  -- From any state, the action agrees with the specification.
  abbrev pub Does : {A : Type 0} → Exec world.State A → Exec Objects A → Type 0
  Does m n = R.Refines world k.lawful (R.Anywhere world k.lawful) m n

  pub Does-pure : {A : Type 0} (a : A) → Does (pure a) (pure a)
  Does-pure a = R.Refines-pure world k.lawful a

  pub Does-lift : {A : Type 0} (r : ApiResult A) → Does (lift r) (lift r)
  Does-lift r = R.Refines-lift world k.lawful r

  pub Does-bind :
      {A B : Type 0} (m : Exec world.State A) (n : Exec Objects A) (f : A → Exec world.State B)
      (g : A → Exec Objects B)
      → Does m n
      → ((a : A) → Does (f a) (g a))
      → Does (m >>= f) (n >>= g)
  Does-bind m n f g hm hf = R.Refines-bind world k.lawful m n f g hm hf

  pub Does-if :
      {A : Type 0} (b : Bool) (m m' : Exec world.State A) (n n' : Exec Objects A)
      → Does m n
      → Does m' n'
      → Does (if b then m else m') (if b then n else n')
  Does-if b m m' n n' h h' = R.Refines-if world k.lawful b m m' n n' h h'

  -- The expiry of a key is not an object.
  pub Does-expire :
      {B : Type 0} (key : Text) (ttl : ℕ) (f : Unit {0} → Exec world.State B) (n : Exec Objects B)
      → Does (f tt) n
      → Does (expire world codecs.date_time key ttl >>= f) n
  Does-expire key ttl f n h =
      R.Refines-skip world k.lawful _ tt f n
        (Actions.expire-Refines world k.lawful k.answering codecs.date_time k.printable key ttl) h

  pub Does-expire_all :
      {B : Type 0} (keys : List (Text × ℕ)) (f : Unit {0} → Exec world.State B) (n : Exec Objects B)
      → Does (f tt) n
      → Does (expire_all world codecs.date_time keys >>= f) n
  Does-expire_all keys f n h =
      R.Refines-skip world k.lawful _ tt f n
        (Actions.expire_all-Refines world k.lawful k.answering codecs.date_time k.printable keys) h

  module _ {A : Type 0} (c : Codec A) where
    pub Does-set : (key : Text) (a : A) → Does (set world c key a) (store c key a)
    Does-set = Actions.set-Refines world k.lawful k.answering c

    pub Does-set_all : (items : List (Text × A)) → Does (set_all world c items) (store_all c items)
    Does-set_all = Actions.set_all-Refines world k.lawful k.answering c

    pub Does-get : (key : Text) → Does (get world c key) (find c key)
    Does-get = Actions.get-Refines world k.lawful k.answering c

    pub Does-get_all : (keys : List Text) → Does (get_all world c keys) (find_all c keys)
    Does-get_all = Actions.get_all-Refines world k.lawful k.answering c

  pub Does-del : (key : Text) → Does (del world key) (erase key)
  Does-del = Actions.del-Refines world k.lawful k.answering

  pub Does-del_all : (keys : List Text) → Does (del_all world keys) (erase_all keys)
  Does-del_all = Actions.del_all-Refines world k.lawful k.answering

  module _ (members : Text → List Text) where
    -- The arm of an event does what is specified of the event.
    abbrev pub Responds : Exec world.State (Option Value) → Event → Type 0
    Responds m event = Does m (respond env members event)

    pub Does-read_old : (key : Text) → Does (read_old env key) (recall env members key)
    unfolding read_old recall
    Does-read_old key =
        Does-if config.state_old _ _ _ _ (Does-get codecs.value key) (Does-pure none)

    pub Does-old :
        {A : Type 0} (c : Codec A) (a : A)
        → Does
            (if config.state_old
              then (to_value env c a >>= λ value. pure (some value))
              else pure none)
            (as_old env members c a)
    unfolding as_old to_value
    Does-old c a =
        Does-if config.state_old _ _ _ _ (Does-bind _ _ _ _ (Does-lift _) (λ v. Does-pure (some v)))
          (Does-pure none)

  pub ruleset does_rules = (
    Does-pure, Does-bind, Does-if, Does-expire, Does-expire_all, Does-set, Does-set_all, Does-get,
    Does-get_all, Does-del, Does-del_all, Does-read_old, Does-old,
  )
