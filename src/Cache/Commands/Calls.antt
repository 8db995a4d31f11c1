-- ===== src/Cache/Commands/Calls.antt =====
-- src/cache.rs: `set_all` and `del_all` send the commands of their tasks.
use twilight_dispatch.Prelude.{All, ◌≡◌, refl, ap, sym, subst, ◌∙◌, ◌&&◌, any, List, [], ◌∷◌}
use twilight_dispatch.Prelude.Text.{Text, text_eq}
use twilight_dispatch.Models.{ok, err, ApiResult, Codec, redis}
use twilight_dispatch.Exec.{Exec, pure, with_error, for_each, lift, ◌>>=◌}
use twilight_dispatch.World.{World}
use twilight_dispatch.World.Laws.{Lawful, member}
use twilight_dispatch.Cache.Index.{Members}
use twilight_dispatch.Cache.Index.Covers.{covers}
use twilight_dispatch.Cache.Write.{set_all, set_pairs, drain}
use twilight_dispatch.Cache.Write.Effect.{
  encoded, indexed, members_after, set_pairs-ok, covers-collected, encoded-nil,
}
use twilight_dispatch.Cache.Delete.{del_all, del_keys}
use twilight_dispatch.Cache.Delete.Effect as Deleted
use twilight_dispatch.Cache.Delete.Effect.{places, listed}
use twilight_dispatch.Cache.Commands.{CommandTask, run_task}
use twilight_dispatch.Cache.Consistent.Keeps.{ArePlain, keys_of}
use twilight_dispatch.Cache.Commands.Tasks.{
  IsClean, set_task-IsClean, del_task-IsClean, set_task, del_task, for_each-add_commands,
  for_each-take_commands,
}

-- Two actions that agree where the first one ends agree after it.
same_after :
    {S A B : Type 0} (m : Exec S A) (f g : Exec S B) (s : S)
    → f (m s).1 ≡ g (m s).1
    → (m >>= λ _. f) s ≡ (m >>= λ _. g) s
unfolding ◌>>=◌
same_after {S} {A} m f g s h = go (m s).0 (m s).1 h
  where
    go :
        (r : ApiResult A) (s' : S)
        → f s' ≡ g s'
        → ((λ _. (r, s')) >>= λ _. f) s ≡ ((λ _. (r, s')) >>= λ _. g) s
    go (ok a) s' h = h
    go (err e) s' h = refl

module _ (w : World) (l : Lawful w) where
  set_nothing : {A : Type 0} (c : Codec A) (s : w.State) → set_all w c [] s ≡ pure tt s
  unfolding set_all set_pairs ◌>>=◌ lift
  set_nothing c s = refl

  -- If every value can be serialised, `set_all` does from each state what its task of commands does on
  -- its own: nothing where there are no items, and else one MSET of all pairs and then one SADD for
  -- each entry of a list that has exactly the places that the items list in their index sets.
  pub set_all-run_task :
      {A : Type 0} (c : Codec A) (items : List (Text × A)) (pairs : List (Text × Text))
      (s : w.State)
      → encoded c items ≡ ok pairs
      → (entries : Members) × ((i m : Text) → covers entries i m ≡ indexed items i m)
        × (set_all w c items s ≡ run_task w (set_task pairs entries) s)
  unfolding set_all any for_each drain ◌>>=◌ lift
  set_all-run_task c items [] s e =
      subst
        (λ xs.
          (entries : Members) × ((i m : Text) → covers entries i m ≡ indexed xs i m)
          × (set_all w c xs s ≡ run_task w (set_task [] entries) s))
        (sym (encoded-nil c items e)) ([], λ i m. refl, set_nothing c s)
  set_all-run_task c items (pair ∷ pairs) s e =
      let members = members_after items [] in
      let entries = w.hash_order (with_error redis (w.set_multiple (pair ∷ pairs)) s).1 members in
      (
        entries,
        λ i m.
            l.order_any _ (λ e. text_eq e.0 i && member m e.1) members ∙ covers-collected items i m,
        rw (set_pairs-ok c items (pair ∷ pairs) e) (
            same_after (with_error redis (w.set_multiple (pair ∷ pairs))) _ _ s (
              ap (λ n. n (with_error redis (w.set_multiple (pair ∷ pairs)) s).1)
                (for_each-add_commands w entries))),
      )

  pub del_all-run_task :
      (keys : List Text) (s : w.State)
      → (entries : Members) × ((i m : Text) → covers entries i m ≡ listed keys i m)
        × (del_all w keys s ≡ run_task w (del_task keys entries) s)
  unfolding del_all any for_each drain ◌>>=◌ lift
  del_all-run_task [] s = ([], λ i m. refl, refl)
  del_all-run_task (key ∷ keys) s =
      let members = del_keys (key ∷ keys) [] in
      let call = with_error redis (w.redis_del (places (key ∷ keys))) in
      let entries = w.hash_order (call s).1 members in
      (
        entries,
        λ i m.
            l.order_any _ (λ e. text_eq e.0 i && member m e.1) members
            ∙ Deleted.covers-collected (key ∷ keys) i m,
        same_after call _ _ s (ap (λ n. n (call s).1) (for_each-take_commands w entries)),
      )

-- The commands of one call, of `set_all` on values that can be serialised or of `del_all`, on keys of
-- objects; the entries are those of its `HashMap` in any order.
pub data IsCall : CommandTask → Type 1 where
  of_set_all :
      {A : Type 0} (c : Codec A) (items : List (Text × A)) (pairs : List (Text × Text))
      (entries : Members)
      → encoded c items ≡ ok pairs
      → ArePlain (keys_of items)
      → ((i m : Text) → covers entries i m ≡ indexed items i m)
      → IsCall (set_task pairs entries)
  of_del_all :
      (keys : List Text) (entries : Members)
      → ArePlain keys
      → ((i m : Text) → covers entries i m ≡ listed keys i m)
      → IsCall (del_task keys entries)

pub call-IsClean : (task : CommandTask) → IsCall task → All IsClean task
call-IsClean _ (of_set_all c items pairs entries e p same) =
    set_task-IsClean c items pairs e p entries same
call-IsClean _ (of_del_all keys entries p same) = del_task-IsClean keys p entries same
