-- ===== src/Cache/Update/Refinement/Members.antt =====
-- src/cache.rs: the arms about members of a guild do what their specification says.
use twilight_dispatch.Prelude.{Option, none, some, List}
use twilight_dispatch.Prelude.Text.{Text}
use twilight_dispatch.Events as Events
use twilight_dispatch.Cache.Update.Context.{Env}
use twilight_dispatch.Cache.Update.Members as Members
use twilight_dispatch.Cache.Update.Spec as Spec
use twilight_dispatch.Cache.Update.Spec.Contents as Contents
use twilight_dispatch.Cache.Update.Refinement.Rules.{Sound, Does, Responds, does_rules}

module _ (env : Env) (k : Sound env) (members : Text → List Text) where
  open env use {world}

  pub member_add-Does :
      (e : Events.MemberAdd)
      → Responds env k members (Members.member_add env e) (Events.member_add e)
  unfolding Members.member_add Spec.respond Spec.when Spec.create
  member_add-Does e = search does_rules

  pub member_remove-Does :
      (e : Events.MemberRemove)
      → Responds env k members (Members.member_remove env e) (Events.member_remove e)
  unfolding Members.member_remove Spec.respond Spec.when Spec.remove Members.remove_member
  member_remove-Does e = search does_rules

  update_found-Does :
      (key : Text) (e : Events.MemberUpdate) (found : Option Events.Member)
      → Does env k
          (Members.update_found env key e found)
          (Spec.change env members env.codecs.member key (Contents.member_with e) found)
  unfolding Members.update_found Members.old_member Spec.change
  update_found-Does key e none = search does_rules
  update_found-Does key e (some member) =
      rw (Contents.updated_member_lem env e member) (search does_rules)

  pub member_update-Does :
      (e : Events.MemberUpdate)
      → Responds env k members (Members.member_update env e) (Events.member_update e)
  unfolding Members.member_update Spec.respond Spec.when Spec.modify
  member_update-Does e = search (does_rules, update_found-Does)

  pub member_chunk-Does :
      (e : Events.MemberChunk)
      → Responds env k members (Members.member_chunk env e) (Events.member_chunk e)
  unfolding Members.member_chunk Spec.respond Spec.when
  member_chunk-Does e = search does_rules
