-- ===== src/Auth/Contracts.antt =====
-- Postconditions of the steps of Auth/Admin: `R` of a reply and the state after it, `Q` of the state of a
-- request that throws.
use ai_content_workflow.Prelude.{
  Ends, bind_failed, bind_done, ap, List, ◌>>=◌, pure, ℕ, suc, ◌≡◌, refl, sym, subst, String, Bool,
  true, false, Option, none, some, inl, inr, Bool-cases, Option-cases,
}
use ai_content_workflow.Auth.Access.{AppUser}
use ai_content_workflow.Auth.Directory.{AdminState, statement, find_row}
use ai_content_workflow.Auth.Gotrue.{GotrueResult, done, failed, broke, AdminServices}
use ai_content_workflow.Auth.Requests.{
  AdminReply, refused, gotrue_refused, user_not_found, error_status,
}
use ai_content_workflow.Auth.Admin.{M, reply_with, with_user, returned, sql, write}

abbrev pub sent : AdminState → AdminState
sent s = record s { statements = suc s.statements }

module _ (fails : AdminState → Bool) (f : AdminState → AdminState) (s : AdminState) where
  statement_failed : fails s ≡ true → statement fails f s ≡ (none, sent s)
  unfolding statement
  statement_failed h = rw h

  statement_done : fails s ≡ false → statement fails f s ≡ (some tt, f (sent s))
  unfolding statement
  statement_done h = rw h

module _ (p : AdminServices) (R : AdminReply → AdminState → Type 0) (Q : AdminState → Type 0) where
  pub Ends-statement :
      (f : AdminState → AdminState) (k : Unit {0} → M p AdminReply) (s : AdminState)
      → Q (sent s)
      → Ends R Q (k tt (f (sent s)))
      → Ends R Q ((statement p.statement_fails f >>= k) s)
  Ends-statement f k s thrown went_on =
      let m : M p (Unit {0}) = statement p.statement_fails f in
      elim (Bool-cases (p.statement_fails s)) [
        | inl fails ↦
            subst (Ends R Q)
              (sym (bind_failed m k s (sent s) (statement_failed p.statement_fails f s fails)))
              thrown
        | inr works ↦
            subst (Ends R Q)
              (sym (bind_done m k tt s (f (sent s)) (statement_done p.statement_fails f s works)))
              went_on
      ]

  -- A statement on the table.
  pub Ends-sql :
      (f : List AppUser → List AppUser) (k : Unit {0} → M p AdminReply) (s : AdminState)
      → Q (sent s)
      → Ends R Q (k tt (record (sent s) { users = f s.users }))
      → Ends R Q ((sql p f >>= k) s)
  Ends-sql f k s thrown went_on =
      Ends-statement (λ t. record t { users = f t.users }) k s thrown went_on

  pub Ends-returned :
      (id : String) (k : AppUser → M p AdminReply) (s : AdminState)
      → Q s
      → ((u : AppUser) → find_row id s.users ≡ some u → Ends R Q (k u s))
      → Ends R Q ((returned p id >>= k) s)
  Ends-returned id k s thrown went_on =
      let row : Option AppUser → Option AppUser × AdminState = λ o. (o, s) in
      elim (Option-cases (find_row id s.users)) [
        | inl absent ↦
            subst (Ends R Q) (sym (bind_failed (returned p id) k s s (ap row absent))) thrown
        | inr (u, found) ↦
            subst (Ends R Q) (sym (bind_done (returned p id) k u s s (ap row found)))
              (went_on u found)
      ]

  pub Ends-write :
      (id : String) (f : List AppUser → List AppUser) (reply : AppUser → AdminReply)
      (s : AdminState)
      → Q (sent s)
      → Q (record (sent s) { users = f s.users })
      → ((u : AppUser)
          → find_row id (f s.users) ≡ some u
          → R (reply u) (record (sent s) { users = f s.users }))
      → Ends R Q (write p id f reply s)
  Ends-write id f reply s thrown lost written =
      let answer : Unit {0} → M p AdminReply = λ v. returned p id >>= λ row. pure (reply row) in
      Ends-sql f answer s thrown (
        Ends-returned id (λ row. pure (reply row)) (record (sent s) { users = f s.users }) lost
          written)

  pub Ends-with_user :
      (id : String) (k : AppUser → M p AdminReply) (s : AdminState)
      → R (refused user_not_found) s
      → ((u : AppUser) → find_row id s.users ≡ some u → Ends R Q (k u s))
      → Ends R Q (with_user p id k s)
  Ends-with_user id k s unknown known =
      let family : Option AppUser → Type 0 =
        λ o. Ends R Q (elim o [ none ↦ (some (refused user_not_found), s) | some u ↦ k u s ]) in
      elim (Option-cases (find_row id s.users)) [
        | inl absent ↦ subst family (sym absent) unknown
        | inr (u, found) ↦ subst family (sym found) (known u found)
      ]

  pub Ends-reply_with :
      {A : Type 0} (r : GotrueResult A) (k : A → M p AdminReply) (s : AdminState)
      → Q s
      → ((n : ℕ) → R (gotrue_refused n) s)
      → ((a : A) → r ≡ done a → Ends R Q (k a s))
      → Ends R Q (reply_with p r k s)
  Ends-reply_with (done a) k s thrown refuses went_on = went_on a refl
  Ends-reply_with (failed e) k s thrown refuses went_on = refuses (error_status e)
  Ends-reply_with broke k s thrown refuses went_on = thrown
