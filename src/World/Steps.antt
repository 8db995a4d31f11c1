-- ===== src/World/Steps.antt =====
-- Each Redis command as a step from one description of the database to the next.
use twilight_dispatch.Prelude.{
  All, All-weaken, some, sym, ◌≡◌, ◌∙◌, ap, fun_ext, Option, none, List, Bool, not, ◌&&◌, ◌||◌, map,
  if◌then◌else◌,
}
use twilight_dispatch.Prelude.Text.{Text, text_eq}
use twilight_dispatch.Models.{Fault, Result, redis}
use twilight_dispatch.Exec.{with_error}
use twilight_dispatch.Exec.Rules.{Ensures, Ensures-with_error, Post, Post-map, Post-and}
use twilight_dispatch.World.{World}
use twilight_dispatch.World.Laws.{
  Lawful, Views, Becomes, Unchanged, member, writes, last_value, first_value,
}

module _ {S : Type 0} (v : Views S) where
  -- Descriptions that agree everywhere describe the same states.
  pub Becomes-same :
      {s : S} {a a' : Text → Option Text} {b b' : Text → Text → Bool}
      {c c' : Text → Text → Option Text}
      → ((k : Text) → a k ≡ a' k)
      → ((i m : Text) → b i m ≡ b' i m)
      → ((h f : Text) → c h f ≡ c' h f)
      → Becomes v s a b c
      → Becomes v s a' b' c'
  Becomes-same ha hb hc d = record {
    values = λ k. d.values k ∙ ha k;
    members = λ i m. d.members i m ∙ hb i m;
    fields = λ h f. d.fields h f ∙ hc h f;
  }

module _ (w : World) (l : Lawful w) (a : Text → Option Text) (b : Text → Text → Bool)
    (c : Text → Text → Option Text) where
  open w use {State}
  open l use {views}

  -- The state has the description of this section.
  abbrev Here : State → Type 0
  Here s = Becomes views s a b c

  pub set_multiple-Ensures :
      (kvs : List (Text × Text))
      → Ensures Here (with_error redis (w.set_multiple kvs)) (λ _ s'.
        Becomes views s'
          (λ k. last_value k kvs (a k))
          (λ i m. not (writes kvs i) && b i m)
          (λ h f. if writes kvs h then none else c h f))
  set_multiple-Ensures kvs = Ensures-with_error redis (w.set_multiple kvs) λ s d.
      Post-map (w.set_multiple kvs s)
        (λ _ s' e.
          Becomes-same views (λ k. ap (last_value k kvs) (d.values k))
            (λ i m. ap (λ x. not (writes kvs i) && x) (d.members i m))
            (λ h f. ap (λ x. if writes kvs h then none else x) (d.fields h f)) e)
        (l.set_multiple_law kvs s)

  pub del-Ensures :
      (ks : List Text)
      → Ensures Here (with_error redis (w.redis_del ks)) (λ _ s'.
        Becomes views s'
          (λ k. if member k ks then none else a k)
          (λ i m. not (member i ks) && b i m)
          (λ h f. if member h ks then none else c h f))
  del-Ensures ks = Ensures-with_error redis (w.redis_del ks) λ s d.
      Post-map (w.redis_del ks s)
        (λ _ s' e.
          Becomes-same views (λ k. ap (λ x. if member k ks then none else x) (d.values k))
            (λ i m. ap (λ x. not (member i ks) && x) (d.members i m))
            (λ h f. ap (λ x. if member h ks then none else x) (d.fields h f)) e)
        (l.del_law ks s)

  pub sadd-Ensures :
      (i : Text) (ms : List Text)
      → Ensures Here
          (with_error redis (w.sadd i ms))
          (λ _ s'. Becomes views s' a (λ j m. (text_eq i j && member m ms) || b j m) c)
  sadd-Ensures i ms = Ensures-with_error redis (w.sadd i ms) λ s d.
      Post-map (w.sadd i ms s)
        (λ _ s' e.
          Becomes-same views d.values
            (λ j m. ap (λ x. (text_eq i j && member m ms) || x) (d.members j m)) d.fields e)
        (l.sadd_law i ms s)

  pub srem-Ensures :
      (i : Text) (ms : List Text)
      → Ensures Here
          (with_error redis (w.srem i ms))
          (λ _ s'. Becomes views s' a (λ j m. not (text_eq i j && member m ms) && b j m) c)
  srem-Ensures i ms = Ensures-with_error redis (w.srem i ms) λ s d.
      Post-map (w.srem i ms s)
        (λ _ s' e.
          Becomes-same views d.values
            (λ j m. ap (λ x. not (text_eq i j && member m ms) && x) (d.members j m)) d.fields e)
        (l.srem_law i ms s)

  pub hset_multiple-Ensures :
      (h : Text) (kvs : List (Text × Text))
      → Ensures Here (with_error redis (w.hset_multiple h kvs)) (λ _ s'.
        Becomes views s' a b (λ g f. if text_eq h g then last_value f kvs (c g f) else c g f))
  hset_multiple-Ensures h kvs = Ensures-with_error redis (w.hset_multiple h kvs) λ s d.
      Post-map (w.hset_multiple h kvs s)
        (λ _ s' e.
          Becomes-same views d.values d.members
            (λ g f. ap (λ x. if text_eq h g then last_value f kvs x else x) (d.fields g f)) e)
        (l.hset_multiple_law h kvs s)

  pub hdel-Ensures :
      (h : Text) (fs : List Text)
      → Ensures Here
          (with_error redis (w.hdel h fs))
          (λ _ s'. Becomes views s' a b (λ g f. if text_eq h g && member f fs then none else c g f))
  hdel-Ensures h fs = Ensures-with_error redis (w.hdel h fs) λ s d.
      Post-map (w.hdel h fs s)
        (λ _ s' e.
          Becomes-same views d.values d.members
            (λ g f. ap (λ x. if text_eq h g && member f fs then none else x) (d.fields g f)) e)
        (l.hdel_law h fs s)

  -- A command that reads leaves the state with its description, whether it succeeds or fails.
  read :
      {R : Type 0} {s : State} {Q Q' : R → Type 0}
      → Here s
      → ((r : R) → Q r → Q' r)
      → (res : Result Fault R × State) → Post (λ r _. Q r) res × Unchanged views s res.1
      → Post (λ r s'. Q' r × Here s') res
  read {Q' = Q'} d h res (q, u) =
      Post-and Q' Here res (Post-map res (λ r _. h r) q)
        (Becomes-same views d.values d.members d.fields u)

  module _ (s : State) (d : Here s) where
    pub get-Here : (k : Text) → Here (w.redis_get k s).1
    get-Here k = Becomes-same views d.values d.members d.fields (l.get_law k s).1

    pub smembers-Here : (i : Text) → Here (w.smembers i s).1
    smembers-Here i = Becomes-same views d.values d.members d.fields (l.smembers_law i s).1

    pub hgetall-Here : (h : Text) → Here (w.hgetall h s).1
    hgetall-Here h = Becomes-same views d.values d.members d.fields (l.hgetall_law h s).1

  pub get-Ensures :
      (k : Text) → Ensures Here (with_error redis (w.redis_get k)) (λ r s'. (r ≡ a k) × Here s')
  get-Ensures k =
      Ensures-with_error redis (w.redis_get k)
        λ s d. read d (λ r e. e ∙ d.values k) (w.redis_get k s) (l.get_law k s)

  pub mget-Ensures :
      (ks : List Text)
      → Ensures Here (with_error redis (w.redis_mget ks)) (λ r s'. (r ≡ map a ks) × Here s')
  mget-Ensures ks = Ensures-with_error redis (w.redis_mget ks) λ s d.
      read d (λ r e. e ∙ ap (λ f. map f ks) (fun_ext d.values)) (w.redis_mget ks s)
        (l.mget_law ks s)

  pub smembers-Ensures :
      (i : Text)
      → Ensures Here
          (with_error redis (w.smembers i))
          (λ r s'. ((m : Text) → member m r ≡ b i m) × Here s')
  smembers-Ensures i =
      Ensures-with_error redis (w.smembers i)
        λ s d. read d (λ r e m. e m ∙ d.members i m) (w.smembers i s) (l.smembers_law i s)

  pub hgetall-Ensures :
      (h : Text)
      → Ensures Here (with_error redis (w.hgetall h)) (λ r s'.
        (((f : Text) → first_value f r ≡ c h f) × All (λ kv. c h kv.0 ≡ some kv.1) r) × Here s')
  hgetall-Ensures h = Ensures-with_error redis (w.hgetall h) λ s d.
      read d
        (λ r e. (λ f. e.0 f ∙ d.fields h f, All-weaken (λ kv g. sym (d.fields h kv.0) ∙ g) r e.1))
        (w.hgetall h s) (l.hgetall_law h s)
