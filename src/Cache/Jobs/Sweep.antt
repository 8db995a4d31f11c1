-- ===== src/Cache/Jobs/Sweep.antt =====
-- src/cache.rs, `run_jobs`: what has expired is deleted, and nothing else.
use twilight_dispatch.Prelude.{
  ◌≡◌, ◌≢◌, refl, sym, ◌∙◌, Bool, true, false, false≢true, ◌&&◌, Bool-cases, inl, inr, Option, none,
  some, List, [], ◌∷◌, any, All, if◌then◌else◌, arith,
}
use twilight_dispatch.Prelude.Text.{Text, text_eq, text_eq_refl}
use twilight_dispatch.Constants.{expiry_keys}
use twilight_dispatch.Models.{Codec, ok, err, ApiResult, redis, FormattedDateTime}
use twilight_dispatch.Exec.{Exec, attempt, ◌>>=◌}
use twilight_dispatch.Exec.Rules.{Post, Ensures, Ensures-bind, Ensures-pure, Ensures-weaken}
use twilight_dispatch.World.{World}
use twilight_dispatch.World.Laws.{Lawful, Becomes, Unchanged, member, first_value}
use twilight_dispatch.World.Steps.{Becomes-same, hgetall-Ensures, hdel-Ensures}
use twilight_dispatch.World.Answers.{
  Answers, Succeeds, Succeeds-pure, Succeeds-bind, Succeeds-with_error, Ensures-attempt_ok,
}
use twilight_dispatch.Cache.Index.{stored_key}
use twilight_dispatch.Cache.Read.{get_hashmap}
use twilight_dispatch.Cache.Write.{current_time}
use twilight_dispatch.Cache.Delete.{del_hashmap}
use twilight_dispatch.Cache.Delete.Effect.{places, del_all_effect}
use twilight_dispatch.Cache.Success.{del_all-Succeeds}
use twilight_dispatch.Cache.Consistent.{IsConsistent}
use twilight_dispatch.Cache.Consistent.Keeps.{place_plain}
use twilight_dispatch.Cache.Consistent.Actions.{Unchanged-refl}
use twilight_dispatch.Cache.Jobs.{expired_keys, forget, delete_expired, sweep}
use twilight_dispatch.Cache.Jobs.Expired.{
  expiry_keys-IsIndex, gone, some_gone, expired_keys-listed, expired_keys-ArePlain, place_of_member,
  member_of_place,
}

-- An action that passes its error on as a value succeeds.
Succeeds-attempt : {S A : Type 0} (m : Exec S A) → Succeeds (attempt m)
unfolding attempt
Succeeds-attempt m = record { run = λ s. tt }

module _ (w : World) (l : Lawful w) (h : Answers w) where
  open l use {views, value, has, field}

  get_hashmap-Succeeds : (key : Text) → Succeeds (get_hashmap w key)
  unfolding get_hashmap
  get_hashmap-Succeeds key = Succeeds-with_error redis _ (h.hgetall_answers key)

  del_hashmap-Succeeds : (key : Text) (keys : List Text) → Succeeds (del_hashmap w key keys)
  unfolding del_hashmap
  del_hashmap-Succeeds key [] = Succeeds-pure tt
  del_hashmap-Succeeds key (k ∷ keys) = Succeeds-with_error redis _ (h.hdel_answers key k keys)

  -- What the fields are after the keys are taken out of the hash.
  abbrev without : Text → List Text → (Text → Text → Option Text) → Text → Text → Option Text
  without key keys f g m = if text_eq key g && member m keys then none else f g m

  del_hashmap_effect :
      (key : Text) (keys : List Text) (a : Text → Option Text) (b : Text → Text → Bool)
      (f : Text → Text → Option Text)
      → Ensures
          (λ s. Becomes views s a b f)
          (del_hashmap w key keys)
          (λ _ s'. Becomes views s' a b (without key keys f))
  unfolding del_hashmap any
  del_hashmap_effect key [] a b f =
      Ensures-pure tt (λ s. Becomes-same views (λ k. refl) (λ i m. refl) (λ g m. ground arith))
  del_hashmap_effect key (k ∷ keys) a b f = hdel-Ensures w l a b f key (k ∷ keys)

  forget_effect :
      (keys : List Text) (r : ApiResult (Unit {0})) (a : Text → Option Text)
      (b : Text → Text → Bool) (f : Text → Text → Option Text)
      → r ≡ ok tt
      → Ensures
          (λ s. Becomes views s a b f)
          (forget w keys r)
          (λ _ s'. Becomes views s' a b (without expiry_keys keys f))
  unfolding forget
  forget_effect keys (ok _) a b f e =
      Ensures-bind _ _ _
        (Ensures-attempt_ok _ (del_hashmap-Succeeds expiry_keys keys)
          (del_hashmap_effect expiry_keys keys a b f))
        (λ r. Ensures-pure tt (λ s d. d.2))
  forget_effect keys (err e) a b f same = absurd cc

  -- What a sweep at the instant `t` promises: the objects of the expired keys and their fields are gone,
  -- and no other object and no other field of the expiry hash is touched.
  pub record Swept (c : Codec FormattedDateTime) (t : FormattedDateTime) (s s' : w.State)
      : Type 0 where
    pub deleted :
        (m : Text)
        → gone c t (field s expiry_keys m) ≡ true
        → (value s' (stored_key m) ≡ none) × (field s' expiry_keys m ≡ none)
    pub kept :
        (m : Text)
        → gone c t (field s expiry_keys m) ≡ false
        → field s' expiry_keys m ≡ field s expiry_keys m
    pub others :
        (k : Text)
        → ((m : Text) → gone c t (field s expiry_keys m) ≡ true → stored_key m ≢ k)
        → value s' k ≡ value s k

  module _ (c : Codec FormattedDateTime) (t : FormattedDateTime) (s : w.State) (keys : List Text)
      (listed_keys : (m : Text) → member m keys ≡ gone c t (field s expiry_keys m))
      (plain : member expiry_keys (places keys) ≡ false) where
    Swept-Becomes :
        (b : Text → Text → Bool) (s' : w.State)
        → Becomes views s'
            (λ k. if member k (places keys) then none else value s k)
            b
            (without expiry_keys keys (λ g m. if member g (places keys) then none else field s g m))
        → Swept c t s s'
    Swept-Becomes b s' d = record {
      deleted = λ m e. (
        d.values (stored_key m) ∙ rw (place_of_member keys m (listed_keys m ∙ e)) refl,
        d.fields expiry_keys m ∙ rw (text_eq_refl expiry_keys, listed_keys m ∙ e) refl,
      );
      kept = λ m e.
          d.fields expiry_keys m ∙ rw (text_eq_refl expiry_keys, listed_keys m ∙ e, plain) refl;
      others = λ k e.
          d.values k ∙ rw (member_of_place keys k (λ m x. e m (sym (listed_keys m) ∙ x))) refl;
    }

  forget-Succeeds : (keys : List Text) (r : ApiResult (Unit {0})) → Succeeds (forget w keys r)
  unfolding forget
  forget-Succeeds keys (ok _) = Succeeds-bind _ _ (Succeeds-attempt _) (λ _. Succeeds-pure tt)
  forget-Succeeds keys (err e) = Succeeds-pure tt

  delete_expired-Succeeds :
      (c : Codec FormattedDateTime) (t : FormattedDateTime) (r : ApiResult (List (Text × Text)))
      → Succeeds (delete_expired w c t r)
  unfolding delete_expired
  delete_expired-Succeeds c t (ok fields) =
      Succeeds-bind _ _ (Succeeds-attempt _) (λ r. forget-Succeeds _ r)
  delete_expired-Succeeds c t (err e) = Succeeds-pure tt

  delete_expired-Swept :
      (c : Codec FormattedDateTime) (t : FormattedDateTime) (s : w.State)
      (fields : List (Text × Text)) (r : ApiResult (List (Text × Text)))
      → IsConsistent views s
      → r ≡ ok fields
      → ((m : Text) → first_value m fields ≡ field s expiry_keys m)
      → All (λ kv. field s expiry_keys kv.0 ≡ some kv.1) fields
      → Ensures (Unchanged views s) (delete_expired w c t r) (λ _ s'. Swept c t s s')
  unfolding delete_expired
  delete_expired-Swept c t s fields r k same first all = rw same (
      Ensures-bind _ _ _
        (Ensures-attempt_ok _ (del_all-Succeeds w h keys) (del_all_effect w l keys))
        λ deleted. record {
          run = λ s' d.
              (Ensures-weaken _ (λ _ x. x) (λ _ s'' x. Swept-Becomes c t s keys lists plain _ s'' x)
                  (forget_effect keys deleted _ _ _ d.1)).run
                s' d.2;
        })
    where
      keys : List Text
      keys = expired_keys c t fields

      plain : member expiry_keys (places keys) ≡ false
      plain = elim (Bool-cases (member expiry_keys (places keys))) [
        | inl e ↦ absurd (
            false≢true (
              sym (place_plain keys expiry_keys (expired_keys-ArePlain c t fields k all) e)
              ∙ expiry_keys-IsIndex))
        | inr e ↦ e
      ]

      lists : (m : Text) → member m keys ≡ gone c t (field s expiry_keys m)
      lists m =
          expired_keys-listed c t (field s expiry_keys) fields m all
          ∙ rw (first m) (some_gone c t (field s expiry_keys m))

  sweep-Succeeds : (c : Codec FormattedDateTime) → Succeeds (sweep w c)
  unfolding sweep current_time
  sweep-Succeeds c =
      Succeeds-bind (current_time w) _ (record { run = λ s. tt })
        λ t.
          Succeeds-bind _ _ (Succeeds-attempt (get_hashmap w expiry_keys))
            (λ r. delete_expired-Succeeds c t r)

  -- In a consistent cache, with a Redis that answers, a sweep succeeds and deletes the objects and the
  -- fields of exactly the keys whose expiry lies before its start, and touches no other object and no
  -- other field of the expiry hash.
  pub sweep-Swept :
      (c : Codec FormattedDateTime) (s : w.State)
      → IsConsistent views s
      → Succeeds (sweep w c) × Post (λ _ s'. Swept c (w.now s) s s') (sweep w c s)
  unfolding sweep current_time get_hashmap ◌>>=◌
  sweep-Swept c s k = (
    sweep-Succeeds c,
    (Ensures-bind _ (delete_expired w c (w.now s)) _
          (Ensures-attempt_ok _ (get_hashmap-Succeeds expiry_keys)
            (hgetall-Ensures w l (value s) (has s) (field s) expiry_keys))
          λ r. record {
            run = λ s' d.
                (delete_expired-Swept c (w.now s) s d.0 r k d.1 d.2.0.0 d.2.0.1).run s' d.2.1;
          }).run
        s (Unchanged-refl views s),
  )
