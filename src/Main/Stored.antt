-- ===== src/Main/Stored.antt =====
-- src/main.rs and src/cluster.rs: the sessions that are stored, and what is parsed of them.
use twilight_dispatch.Prelude.{
  ℕ, ◌==◌, ◌≡◌, refl, sym, ap, ◌∙◌, false, Option, none, some, [], ◌∷◌, ◌++◌, map, All, All-append,
  append-nil, append_assoc, arith,
}
use twilight_dispatch.Prelude.Text.{Text, text_eq, text_eq_iff}
use twilight_dispatch.Constants.{Display}
use twilight_dispatch.Models.{SessionInfo}
use twilight_dispatch.Cache.Jobs.{Sessions, insert_session}
use twilight_dispatch.Cluster.Parse.{parse_u64}
use twilight_dispatch.Cluster.{Resumes, insert_resume, parse_sessions}
use twilight_dispatch.Main.{collect_resumables}

-- No shard is there twice.
abbrev pub Distinct : Resumes → Type 0
Distinct [] = Unit
Distinct (x ∷ xs) = All (λ y. (y.0 == x.0) ≡ false) xs × Distinct xs

-- The shards after which the shard `n` is new.
abbrev IsNew : ℕ → Resumes → Type 0
IsNew n xs = All (λ y. (y.0 == n) ≡ false) xs

insert_resume-new :
    (n : ℕ) (session : SessionInfo) (xs : Resumes)
    → IsNew n xs
    → insert_resume n session xs ≡ xs ++ (n, session) ∷ []
unfolding insert_resume
insert_resume-new n session [] h = refl
insert_resume-new n session (x ∷ xs) h =
    rw h.0 (ap (λ ys. x ∷ ys) (insert_resume-new n session xs h.1))

parse_sessions-found :
    (key : Text) (session : SessionInfo) (rest : Sessions) (n : ℕ) (resumes : Resumes)
    → parse_u64 key ≡ some n
    → parse_sessions ((key, session) ∷ rest) resumes
      ≡ parse_sessions rest (insert_resume n session resumes)
unfolding parse_sessions
parse_sessions-found key session rest n resumes e =
    ap {A = Option ℕ} {B = Option Resumes}
      (λ o. elim o [
        | none ↦ none
        | some shard ↦ parse_sessions rest (insert_resume shard session resumes)
      ])
      e

-- `parse` reads what `to_string` prints of the numbers of the shards.
abbrev pub IsParsed : (ℕ → Text) → Resumes → Type 0
IsParsed show xs = All (λ x. parse_u64 (show x.0) ≡ some x.0) xs

module _ (d : Display) where
  open d use {show, show_inj}

  -- The stored form.
  abbrev stored : Resumes → Sessions
  stored xs = map (λ x. (show x.0, x.1)) xs

  insert_session-stored :
      (n : ℕ) (session : SessionInfo) (xs : Resumes)
      → IsNew n xs
      → insert_session (show n) session (stored xs) ≡ stored xs ++ (show n, session) ∷ []
  unfolding insert_session
  insert_session-stored n session [] h = refl
  insert_session-stored n session ((k, s) ∷ xs) h =
      let other : text_eq (show k) (show n) ≡ false =
        ground (arith, text_eq_iff (show k) (show n), show_inj k n, h.0) in
      rw other (ap (λ ys. (show k, s) ∷ ys) (insert_session-stored n session xs h.1))

  -- Each shard of the second list is new after the first one.
  abbrev AllNew : Resumes → Resumes → Type 0
  AllNew ys [] = Unit
  AllNew ys (x ∷ xs) = IsNew x.0 ys × AllNew ys xs

  stored-append : (xs ys : Resumes) → stored (xs ++ ys) ≡ stored xs ++ stored ys
  stored-append [] ys = refl
  stored-append (x ∷ xs) ys = ap (λ zs. (show x.0, x.1) ∷ zs) (stored-append xs ys)

  AllNew-append :
      (ys : Resumes) (x : ℕ × SessionInfo) (xs : Resumes)
      → AllNew ys xs
      → All (λ y. (y.0 == x.0) ≡ false) xs
      → AllNew (ys ++ x ∷ []) xs
  AllNew-append ys x [] h e = tt
  AllNew-append ys x (z ∷ xs) h e = (
    All-append (λ y. (y.0 == z.0) ≡ false) ys (x ∷ []) h.0 (ground (arith, e.0), tt),
    AllNew-append ys x xs h.1 e.1,
  )

  AllNew-nil : (xs : Resumes) → AllNew [] xs
  AllNew-nil [] = tt
  AllNew-nil (x ∷ xs) = (tt, AllNew-nil xs)

  collect_resumables-stored :
      (xs ys : Resumes)
      → AllNew ys xs
      → Distinct xs
      → collect_resumables show xs (stored ys) ≡ stored (ys ++ xs)
  unfolding collect_resumables
  collect_resumables-stored [] ys new h = ap stored (sym (append-nil ys))
  collect_resumables-stored ((n, session) ∷ xs) ys new h =
      ap (collect_resumables show xs)
        (insert_session-stored n session ys new.0 ∙ sym (stored-append ys ((n, session) ∷ [])))
      ∙ (collect_resumables-stored xs (ys ++ (n, session) ∷ [])
            (AllNew-append ys (n, session) xs new.1 h.0) h.1
          ∙ ap stored (append_assoc ys ((n, session) ∷ []) xs))

  parse_sessions-stored :
      (xs ys : Resumes)
      → IsParsed show xs
      → AllNew ys xs
      → Distinct xs
      → parse_sessions (stored xs) ys ≡ some (ys ++ xs)
  unfolding parse_sessions
  parse_sessions-stored [] ys p new h = ap some (sym (append-nil ys))
  parse_sessions-stored ((n, session) ∷ xs) ys p new h =
      rw
        (
          parse_sessions-found (show n) session (stored xs) n ys p.0,
          insert_resume-new n session ys new.0,
        )
        (parse_sessions-stored xs (ys ++ (n, session) ∷ []) p.1
            (AllNew-append ys (n, session) xs new.1 h.0) h.1
          ∙ ap some (append_assoc ys ((n, session) ∷ []) xs))

  -- Every session that is stored comes back under its shard.
  pub parse_sessions-collect_resumables :
      (xs : Resumes)
      → IsParsed show xs
      → Distinct xs
      → parse_sessions (collect_resumables show xs []) [] ≡ some xs
  parse_sessions-collect_resumables xs p h =
      rw (collect_resumables-stored xs [] (AllNew-nil xs) h)
        (parse_sessions-stored xs [] p (AllNew-nil xs) h)
