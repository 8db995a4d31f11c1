-- ===== src/Cache/Spec/Actions.antt =====
-- The functions of src/cache.rs below `update` do what the specification says of them.
use twilight_dispatch.Prelude.{
  ℕ, ◌≡◌, refl, ap, sym, ◌∙◌, fun_ext, inl, inr, none, List, [], ◌∷◌, any, map, is_empty,
  if◌then◌else◌, arith,
}
use twilight_dispatch.Prelude.Text.{Text}
use twilight_dispatch.Constants.{expiry_keys}
use twilight_dispatch.Models.{ok, err, redis, Fault, Result, Codec, FormattedDateTime}
use twilight_dispatch.Exec.{map_err, pure, lift, with_error, attempt, ◌>>=◌}
use twilight_dispatch.Exec.Rules.{Post}
use twilight_dispatch.World.{World}
use twilight_dispatch.World.Laws.{Lawful, Unchanged, member, last_value}
use twilight_dispatch.World.Steps.{hset_multiple-Ensures}
use twilight_dispatch.World.Answers.{Answers, IsOk, Succeeds-with_error, settled}
use twilight_dispatch.Cache.Consistent.Actions.{Unchanged-refl, result-cases}
use twilight_dispatch.Cache.Index.{stored_key}
use twilight_dispatch.Cache.Read.{get, get_all, get_members, decode, decode_all}
use twilight_dispatch.Cache.Write.{
  set, set_all, expire, expire_all, expiry_pairs, current_time, add_milliseconds,
}
use twilight_dispatch.Cache.Write.Effect.{encoded, set_all_effect, set_all_unserialisable}
use twilight_dispatch.Cache.Delete.{del, del_all}
use twilight_dispatch.Cache.Delete.Effect.{places, del_all_effect}
use twilight_dispatch.Cache.Success.{set_all-Succeeds, del_all-Succeeds}
use twilight_dispatch.Cache.Spec.{
  Objects, put, put_all, drop_all, store, store_all, erase, erase_all, lookup, lookup_all, find,
  find_all,
}
use twilight_dispatch.Cache.Spec.Refines.{
  Refines, Refines-attempt, Refines-lift, Refines-bind, Refines-last, Holds, Anywhere,
}

-- A time can always be printed.
abbrev pub IsPrintable : Codec FormattedDateTime → Type 0
IsPrintable c = (t : ℕ) → (text : Text) × (c.to_string t ≡ ok text)

pub put_all-last_value :
    (pairs : List (Text × Text)) (objects : Objects) (k : Text)
    → put_all pairs objects k ≡ last_value k pairs (objects k)
unfolding last_value
put_all-last_value [] objects k = refl
put_all-last_value ((j, v) ∷ pairs) objects k = put_all-last_value pairs _ k

pub drop_all-places :
    (keys : List Text) (objects : Objects) (k : Text)
    → drop_all keys objects k ≡ (if member k (places keys) then none else objects k)
unfolding any
drop_all-places [] objects k = refl
drop_all-places (key ∷ keys) objects k =
    ground (arith, drop_all-places keys (put (stored_key key) none objects) k)

-- The pairs of `expire_all` can be printed.
expiry_pairs-ok :
    (c : Codec FormattedDateTime) (t : ℕ) (keys : List (Text × ℕ))
    → IsPrintable c
    → (pairs : List (Text × Text)) × (expiry_pairs c t keys ≡ ok pairs)
unfolding expiry_pairs
expiry_pairs-ok c t [] h = ([], refl)
expiry_pairs-ok c t ((key, value) ∷ keys) h =
    let first = h (add_milliseconds t value) in
    let rest = expiry_pairs-ok c t keys h in ((key, first.0) ∷ rest.0, rw (first.1, rest.1) refl)

module _ (w : World) (l : Lawful w) (answers : Answers w) where
  open l use {views, value, has, field}

  module _ {A : Type 0} (c : Codec A) where
    pub set_all-Refines :
        (items : List (Text × A))
        → Refines w l (Anywhere w l) (set_all w c items) (store_all c items)
    unfolding store_all
    set_all-Refines items = elim (result-cases (encoded c items)) [
      | inl (pairs, e) ↦ record {
        run = λ s o p h.
            let q =
              settled _ (set_all w c items s) ((set_all-Succeeds w answers c items pairs e).run s)
                ((set_all_effect w l c items pairs e).run s (Unchanged-refl views s)) in
            rw e (
              q.0,
              λ k.
                  q.1.values k ∙ ap (last_value k pairs) (h k) ∙ sym (put_all-last_value pairs o k),
            );
      }
      | inr (e, h) ↦ record {
        run = λ s o p holds. rw (h, set_all_unserialisable w l c items e s h) (refl, holds);
      }
    ]

    pub set-Refines :
        (key : Text) (a : A) → Refines w l (Anywhere w l) (set w c key a) (store c key a)
    unfolding set store
    set-Refines key a = Refines-last w l _ _ (set_all-Refines ((key, a) ∷ []))

  pub del_all-Refines :
      (keys : List Text) → Refines w l (Anywhere w l) (del_all w keys) (erase_all keys)
  unfolding erase_all
  del_all-Refines keys = record {
    run = λ s o p h.
        let q =
          settled _ (del_all w keys s) ((del_all-Succeeds w answers keys).run s)
            ((del_all_effect w l keys).run s (Unchanged-refl views s)) in
        (
          q.0,
          λ k.
              q.1.values k
              ∙ ap (λ x. if member k (places keys) then none else x) (h k)
              ∙ sym (drop_all-places keys o k),
        );
  }

  pub del-Refines : (key : Text) → Refines w l (Anywhere w l) (del w key) (erase key)
  unfolding del erase
  del-Refines key = Refines-last w l _ _ (del_all-Refines (key ∷ []))

  -- A command that reads.
  reads :
      {R : Type 0} (s : w.State) (o : Objects) (r : Result Fault R × w.State) (a : R)
      → IsOk r.0
      → Post (λ x _. x ≡ a) r
      → Unchanged views s r.1
      → Holds w l s o
      → (map_err redis r.0 ≡ ok a) × Holds w l r.1 o
  reads s o (ok x, s') a i e u h = (ap ok e, λ k. u.values k ∙ h k)
  reads s o (err e, s') a i q u h = absurd i

  get_command-Refines :
      (key : Text) → Refines w l (Anywhere w l) (with_error redis (w.redis_get key)) (lookup key)
  unfolding with_error lookup
  get_command-Refines key = record {
    run = λ s o p h.
        let law = l.get_law key s in
        let q =
          reads s o (w.redis_get key s) (value s key) (answers.get_answers key s) law.0 law.1 h in
        (q.0 ∙ ap ok (h key), q.1);
  }

  mget_command-Refines :
      (key : Text) (keys : List Text)
      → Refines w l
          (Anywhere w l)
          (with_error redis (w.redis_mget (key ∷ keys)))
          (lookup_all (key ∷ keys))
  unfolding with_error lookup_all
  mget_command-Refines key keys = record {
    run = λ s o p h.
        let law = l.mget_law (key ∷ keys) s in
        let q =
          reads s o (w.redis_mget (key ∷ keys) s) (map (value s) (key ∷ keys))
            (answers.mget_answers key keys s) law.0 law.1 h in
        (q.0 ∙ ap (λ f. ok (map f (key ∷ keys))) (fun_ext h), q.1);
  }

  module _ {A : Type 0} (c : Codec A) where
    pub get-Refines : (key : Text) → Refines w l (Anywhere w l) (get w c key) (find c key)
    unfolding get find
    get-Refines key =
        Refines-bind w l _ _ _ _ (get_command-Refines key) (λ r. Refines-lift w l (decode c r))

    nothing_found : Refines w l (Anywhere w l) (pure []) (find_all c [])
    unfolding find_all lookup_all pure lift ◌>>=◌ decode_all
    nothing_found = record { run = λ s o p h. (refl, h) }

    pub get_all-Refines :
        (keys : List Text) → Refines w l (Anywhere w l) (get_all w c keys) (find_all c keys)
    unfolding get_all find_all
    get_all-Refines [] = nothing_found
    get_all-Refines (key ∷ keys) =
        Refines-bind w l _ _ _ _ (mget_command-Refines key keys)
          (λ r. Refines-lift w l (decode_all c r))

  module _ (c : Codec FormattedDateTime) (printable : IsPrintable c) where
    expiry_step :
        (pairs : List (Text × Text))
        → Refines w l
            (Anywhere w l)
            (if is_empty pairs
              then pure tt
              else with_error redis (w.hset_multiple expiry_keys pairs))
            (pure tt)
    unfolding with_error pure
    expiry_step [] = record { run = λ s o p h. (refl, h) }
    expiry_step (pair ∷ pairs) = record {
      run = λ s o p h.
          let q =
            settled _ (with_error redis (w.hset_multiple expiry_keys (pair ∷ pairs)) s)
              ((Succeeds-with_error redis (w.hset_multiple expiry_keys (pair ∷ pairs))
                  (answers.hset_multiple_answers expiry_keys pair pairs)).run
                s)
              ((hset_multiple-Ensures w l _ _ _ expiry_keys (pair ∷ pairs)).run s
                (Unchanged-refl views s)) in
          (q.0, λ k. q.1.values k ∙ h k);
    }

    pub expire_all-Refines :
        (keys : List (Text × ℕ)) → Refines w l (Anywhere w l) (expire_all w c keys) (pure tt)
    unfolding expire_all current_time ◌>>=◌ lift
    expire_all-Refines keys = record {
      run = λ s o p h.
          let e = expiry_pairs-ok c (w.now s) keys printable in
          rw e.1 ((expiry_step e.0).run s o tt h);
    }

    pub expire-Refines :
        (key : Text) (ttl : ℕ) → Refines w l (Anywhere w l) (expire w c key ttl) (pure tt)
    unfolding expire
    expire-Refines key ttl = Refines-last w l _ _ (expire_all-Refines ((key, ttl) ∷ []))

  module _ (members : Text → List Text) where
    -- What SMEMBERS answers here.
    abbrev pub Replies : w.State → Type 0
    Replies s = (i : Text) → (w.smembers i s).0 ≡ ok (members i)

    pub get_members-Refines : (i : Text) → Refines w l Replies (get_members w i) (pure (members i))
    unfolding get_members with_error pure
    get_members-Refines i = record {
      run = λ s o p h. (ap (map_err redis) (p i), λ k. (l.smembers_law i s).1.values k ∙ h k);
    }

    pub attempt-get_members-Refines :
        (i : Text) → Refines w l Replies (attempt (get_members w i)) (pure (ok (members i)))
    unfolding attempt pure
    attempt-get_members-Refines i = Refines-attempt w l _ (pure (members i)) (get_members-Refines i)
