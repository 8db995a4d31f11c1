-- ===== src/Cache/Consistent/Expiry.antt =====
-- The expiry hash and the attempts of src/cache.rs keep the cache consistent.
use twilight_dispatch.Prelude.{
  ℕ, ◌≡◌, sym, Option, none, List, [], ◌∷◌, Bool, true, false, ◌&&◌, any, is_empty, if◌then◌else◌,
  arith, subst,
}
use twilight_dispatch.Prelude.Text.{Text, text_eq, text_eq_refl, text_eq_iff}
use twilight_dispatch.Constants.{expiry_keys}
use twilight_dispatch.Models.{Codec, ok, err, ApiResult, redis, FormattedDateTime}
use twilight_dispatch.Exec.{with_error, attempt}
use twilight_dispatch.Exec.Rules.{
  Post, Ensures, Ensures-pure, Ensures-lift, Ensures-if, Ensures-bind, Ensures-weaken,
  Ensures-attempt, Ensures-assume, bind_lift_state,
}
use twilight_dispatch.World.{World}
use twilight_dispatch.World.Laws.{Lawful, member, writes, last_value}
use twilight_dispatch.World.Steps.{get-Here, smembers-Here, hset_multiple-Ensures, hdel-Ensures}
use twilight_dispatch.Cache.Read.{get, get_members, decode}
use twilight_dispatch.Cache.Write.{expire_all, expire, expiry_pairs, current_time}
use twilight_dispatch.Cache.Delete.{del_hashmap}
use twilight_dispatch.Cache.Index.Places.{is_index}
use twilight_dispatch.Cache.Consistent.{Consistent}
use twilight_dispatch.Cache.Consistent.Keeps.{ArePlain, keys_of, some-last_value}
use twilight_dispatch.Cache.Consistent.Actions.{
  Becomes-IsConsistent, Good, from_here, get_members-Keeps, Unchanged-refl,
}

-- The pairs written to the expiry hash have the keys given.
expiry_pairs-plain :
    (c : Codec FormattedDateTime) (t : ℕ) (keys : List (Text × ℕ)) (pairs : List (Text × Text))
    → expiry_pairs c t keys ≡ ok pairs
    → ArePlain (keys_of keys)
    → ArePlain (keys_of pairs)
unfolding expiry_pairs
expiry_pairs-plain c t [] [] e p = tt
expiry_pairs-plain c t [] (pair ∷ pairs) e p = ground arith
expiry_pairs-plain c t ((k, v) ∷ keys) [] e p = tt
expiry_pairs-plain c t ((k, v) ∷ keys) ((j, x) ∷ pairs) e p =
    (ground arith, expiry_pairs-plain c t keys pairs (ground arith) p.1)

writes_plain :
    (pairs : List (Text × Text)) (m : Text)
    → ArePlain (keys_of pairs)
    → writes pairs m ≡ true
    → is_index m ≡ false
unfolding any
writes_plain [] m p h = cc
writes_plain ((j, v) ∷ pairs) m p h = ground (arith, text_eq_iff j m, writes_plain pairs m)

module _ {a : Text → Option Text} {b : Text → Text → Bool} {f : Text → Text → Option Text}
    (k : Consistent a b f) where
  hset-Consistent :
      (pairs : List (Text × Text))
      → ArePlain (keys_of pairs)
      → Consistent a b (λ g m. if text_eq expiry_keys g then last_value m pairs (f g m) else f g m)
  hset-Consistent pairs p = record {
    canonical = k.canonical;
    indexed = k.indexed;
    canonical_members = k.canonical_members;
    plain_members = k.plain_members;
    plain_expiries = λ m h. ground (
      arith,
      text_eq_refl expiry_keys,
      some-last_value m pairs (f expiry_keys m),
      writes_plain pairs m p,
      k.plain_expiries m,
    );
  }

  hdel-Consistent :
      (g : Text) (fs : List Text)
      → Consistent a b (λ h m. if text_eq g h && member m fs then none else f h m)
  hdel-Consistent g fs = record {
    canonical = k.canonical;
    indexed = k.indexed;
    canonical_members = k.canonical_members;
    plain_members = k.plain_members;
    plain_expiries = λ m h. ground (arith, k.plain_expiries m);
  }

module _ (w : World) (l : Lawful w) where
  pub expire_all-Keeps :
      (c : Codec FormattedDateTime) (keys : List (Text × ℕ))
      → ArePlain (keys_of keys)
      → Ensures (Good w l) (expire_all w c keys) (λ _. Good w l)
  unfolding expire_all current_time
  expire_all-Keeps c keys p =
      Ensures-bind _ _ (λ _. Good w l) (record { run = λ s g. g })
        λ t.
          Ensures-bind _ _ (λ pairs s. ArePlain (keys_of pairs) × Good w l s)
            (Ensures-lift _ (λ pairs e s g. (expiry_pairs-plain c t keys pairs e p, g)))
            λ pairs. Ensures-assume _ λ q.
              Ensures-if (is_empty pairs) _ _ (λ _. Ensures-pure tt (λ s g. g))
                λ _. from_here w l λ s g.
                  Ensures-weaken _ (λ _ d. d)
                    (λ _ _ d. Becomes-IsConsistent d (hset-Consistent g pairs q))
                    (hset_multiple-Ensures w l _ _ _ expiry_keys pairs)

  pub expire-Keeps :
      (c : Codec FormattedDateTime) (key : Text) (ttl : ℕ)
      → is_index key ≡ false
      → Ensures (Good w l) (expire w c key ttl) (λ _. Good w l)
  unfolding expire
  expire-Keeps c key ttl p =
      Ensures-bind _ _ (λ _. Good w l) (expire_all-Keeps c ((key, ttl) ∷ []) (p, tt))
        (λ _. Ensures-pure tt (λ s g. g))

  pub del_hashmap-Keeps :
      (key : Text) (keys : List Text) → Ensures (Good w l) (del_hashmap w key keys) (λ _. Good w l)
  unfolding del_hashmap
  del_hashmap-Keeps key keys =
      Ensures-if (is_empty keys) _ _ (λ _. Ensures-pure tt (λ s g. g))
        λ _. from_here w l λ s g.
          Ensures-weaken _ (λ _ d. d) (λ _ _ d. Becomes-IsConsistent d (hdel-Consistent g key keys))
            (hdel-Ensures w l _ _ _ key keys)

  -- What a fallible read returned, if it succeeded, has the property.
  abbrev pub OnOk : {A : Type 0} → (A → Type 0) → ApiResult A → Type 0
  OnOk Q (ok a) = Q a
  OnOk Q (err e) = Unit

  abbrev post_on_ok :
      {A : Type 0} (Q : A → Type 0) (r : ApiResult A × w.State)
      → Post (λ a s. Q a × Good w l s) r
      → OnOk Q r.0
  post_on_ok Q (ok a, s) h = h.0
  post_on_ok Q (err e, s) h = tt

  pub attempt-get_members-Keeps :
      (i : Text)
      → Ensures (Good w l) (attempt (get_members w i)) (λ r s. OnOk ArePlain r × Good w l s)
  unfolding get_members with_error
  attempt-get_members-Keeps i = Ensures-attempt _ λ s g. (
    post_on_ok ArePlain (get_members w i s) ((get_members-Keeps w l i).run s g),
    Becomes-IsConsistent (smembers-Here w l _ _ _ s (Unchanged-refl l.views s) i) g,
  )

  pub attempt-get-Keeps :
      {A : Type 0} (c : Codec A) (key : Text)
      → Ensures (Good w l) (attempt (get w c key)) (λ _. Good w l)
  unfolding get with_error
  attempt-get-Keeps c key = Ensures-attempt _ λ s g.
      subst (Good w l) (sym (bind_lift_state (with_error redis (w.redis_get key)) (decode c) s))
        (Becomes-IsConsistent (get-Here w l _ _ _ s (Unchanged-refl l.views s) key) g)
