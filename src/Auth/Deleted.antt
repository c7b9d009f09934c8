-- ===== src/Auth/Deleted.antt =====
-- A user that is deleted has no access any more.
use ai_content_workflow.Prelude.{
  Ends, pure, ◌≡◌, refl, sym, ap, ◌∙◌, subst, String, Bool, true, false, not, ◌&&◌, Option, none,
  some, List, [], ◌∷◌, inl, inr, arith, All, All-keep, Bool-cases, str_eq, eq_iff, same_text,
  to_lower, keep, Pairwise, All-map, All-zip, All-of-keep,
}
use ai_content_workflow.Auth.Roles.{Role, is_bootstrap, is_admin_eligible_email}
use ai_content_workflow.Auth.Access.{
  AppUser, Session, unauthorized, require_role, find_user, find_by, stored_role,
}
use ai_content_workflow.Auth.Directory.{AdminState, find_row, delete_row}
use ai_content_workflow.Auth.Gotrue.{AdminServices, delete_user}
use ai_content_workflow.Auth.Requests.{AdminReply, user_deleted, delete_users, is_self}
use ai_content_workflow.Auth.Admin.{
  M, tolerate, delete_stored, delete_route, handle, serve, reply_with,
}
use ai_content_workflow.Auth.Keys.{Apart, IsTable}
use ai_content_workflow.Auth.Provider.{delete_user-users}
use ai_content_workflow.Auth.Contracts.{Ends-sql, Ends-with_user, Ends-reply_with}
use ai_content_workflow.Auth.Ended.{denied, Ends-reply, serve-handle}

-- Another user than the one with the id, and without its email.
abbrev IsOther : String → AppUser → AppUser → Type 0
IsOther id u v = (v.id ≡ id → ⊥) → v.email ≡ u.email → ⊥

All_found :
    (P : AppUser → Type 0) (id : String) (u : AppUser) (users : List AppUser)
    → All P users
    → find_row id users ≡ some u
    → P u
unfolding find_row
All_found P id u [] h found = absurd (cc found)
All_found P id u (v ∷ vs) h found = elim (Bool-cases (str_eq v.id id)) [
  | inl own ↦
      let same : some v ≡ some u = rw (own, find_row) at found in
      subst P (ap (λ (o : Option AppUser). elim o [ none ↦ v | some w ↦ w ]) same) h.0
  | inr differs ↦ All_found P id u vs h.1 (rw (differs, find_row) at found)
]

All-IsOther :
    (id : String) (u : AppUser) (users : List AppUser)
    → Pairwise Apart users
    → find_row id users ≡ some u
    → All (IsOther id u) users
unfolding find_row
All-IsOther id u [] h found = tt
All-IsOther id u (v ∷ vs) h found = elim (Bool-cases (str_eq v.id id)) [
  | inl own ↦
      let same : some v ≡ some u = rw (own, find_row) at found in
      let it : v ≡ u = ap (λ (o : Option AppUser). elim o [ none ↦ v | some w ↦ w ]) same in
      (
        (λ differs e. differs ((eq_iff v.id id).0 own)),
        All-map
            (λ w apart differs e.
              apart.1 (ap (λ (x : AppUser). to_lower x.email) it ∙ ap to_lower (sym e)))
            vs h.0,
      )
  | inr differs ↦
      let later : find_row id vs ≡ some u = rw (differs, find_row) at found in
      let apart : Apart v u = All_found (Apart v) id u vs h.0 later in
      ((λ other e. apart.1 (ap to_lower e)), All-IsOther id u vs h.1 later)
]

not_same : (s t : String) → (s ≡ t → ⊥) → str_eq s t ≡ false
not_same s t differ = elim (Bool-cases (str_eq s t)) [
  | inl same ↦ absurd (differ ((eq_iff s t).0 same))
  | inr differs ↦ differs
]

find_by-none :
    (q : AppUser → Bool) (users : List AppUser)
    → All (λ v. q v ≡ false) users
    → find_by q users ≡ none
unfolding find_by
find_by-none q [] h = refl
find_by-none q (v ∷ vs) h = rw (h.0, find_by) (find_by-none q vs h.1)

find_user-delete_row :
    (id : String) (u : AppUser) (users : List AppUser) (target : Session)
    → Pairwise Apart users
    → find_row id users ≡ some u
    → target.user_id ≡ some id
    → target.user_email ≡ some u.email
    → find_user (delete_row id users) target ≡ none
unfolding find_user delete_row
find_user-delete_row id u users target apart found own mail =
    let f : AppUser → Bool = λ v. not (str_eq v.id id) in
    let left : List AppUser = keep f users in
    let others : All (λ v. (f v ≡ true) × IsOther id u v) left =
      All-zip _ _ left (All-keep f users)
        (All-of-keep f (IsOther id u) users (All-IsOther id u users apart found)) in
    let by_id : find_by (λ v. same_text (some v.id) target.user_id) left ≡ none =
      find_by-none _ left (All-map (λ v k. ground (arith, k.0, own)) left others) in
    let by_email : find_by (λ v. same_text (some v.email) target.user_email) left ≡ none =
      find_by-none _ left (
        All-map
          (λ v k.
            ap (same_text (some v.email)) mail
            ∙ not_same v.email u.email
                (k.1 (λ e. absurd (ground (arith, k.0, (eq_iff v.id id).1 e)))))
          left others) in
    ground (arith, by_id, by_email)

-- A user that was deleted has no access with its id and email, unless as a bootstrap administrator.
pub serve-deleted :
    (p : AdminServices) (actor : Session) (id : String) (s : AdminState) (u : AppUser)
    (target : Session) (required : Role)
    → IsTable p.roles s.users
    → find_row id s.users ≡ some u
    → target.user_id ≡ some id
    → target.user_email ≡ some u.email
    → (is_bootstrap p.roles target.user_email && is_admin_eligible_email p.roles target.user_email)
      ≡ false
    → (serve p actor (delete_users id) s).0 ≡ some user_deleted
    → require_role p.roles (serve p actor (delete_users id) s).1.users required target
      ≡ unauthorized
unfolding handle delete_route delete_stored stored_role
serve-deleted p actor id s u target required table found own mail ordinary e =
    let entered =
      serve-handle p actor (delete_users id) s user_deleted (λ access h. absurd (cc h)) e in
    let R : AdminReply → AdminState → Type 0 = λ reply t.
      reply ≡ user_deleted → require_role p.roles t.users required target ≡ unauthorized in
    let Q : AdminState → Type 0 = λ t. Unit {0} in
    let r = delete_user p id s in
    let remove : Unit {0} → M p AdminReply = λ v. delete_stored p id in
    let gone : require_role p.roles (delete_row id r.1.users) required target ≡ unauthorized =
      denied p.roles target id (delete_row id r.1.users) required ordinary (
        ap (stored_role target) (
          ap (λ (users : List AppUser). find_user (delete_row id users) target)
            (delete_user-users p id s)
          ∙ find_user-delete_row id u s.users target table.0 found own mail)) in
    let outcome : Ends R Q (handle p actor (delete_users id) s) =
      elim (Bool-cases (is_self actor id)) [
        | inl self ↦ rw (self, handle, delete_route, Ends) (λ h. absurd (cc h))
        | inr others ↦
            rw (others, handle, delete_route)
              (Ends-with_user p R Q id
                (λ v t.
                  reply_with p (tolerate p (delete_user p id t).0) remove (delete_user p id t).1)
                s (λ h. absurd (cc h))
                (λ v known.
                  Ends-reply_with p R Q (tolerate p r.0) remove r.1 tt (λ n h. absurd (cc h))
                    (λ w answered.
                      Ends-sql p R Q (delete_row id) (λ x. pure user_deleted) r.1 tt (λ h. gone))))
      ] in
    Ends-reply R (serve p actor (delete_users id) s) user_deleted
      (subst (Ends R Q) (sym entered) outcome) e refl
