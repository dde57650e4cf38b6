-- ===== src/Sessions/Guard.antt =====
-- web_session.go: which requests reach a handler.
use ship_grip_fim.Base.{
  ℕ, true, not, ◌≡◌, ◌↔◌, ◌&&◌, ◌||◌, some, Option-cases, inl, inr, arith, Text, lit, str_eq,
  has_prefix, is_nil,
}
use ship_grip_fim.Auth.Roles.{role_allows}
use ship_grip_fim.Sessions.{
  WebSession, SessionStore, Request, handled, is_api, current_session, require_role,
}

-- A request that may reach a handler that needs a role, for a session.
pub record Passes (need : Text) (r : Request) (ses : WebSession) : Type 0 where
  pub allowed : is_nil need || role_allows ses.role need ≡ true
  pub json :
      not (str_eq r.method (lit "POST") && is_api r)
        || has_prefix (lit "application/json") r.content_type
      ≡ true

-- A handler runs exactly for the requests with a valid session whose role suffices and, if they
-- post to the API, with a JSON body.
pub guard_exact :
    {R : Type 0} (now : ℕ) (need : Text) (r : Request) (answer : R) (m : SessionStore)
    → ((require_role now need r answer m).0 ≡ handled answer)
      ↔ ((ses : WebSession) × ((current_session now r m).0 ≡ some ses) × Passes need r ses)
unfolding require_role
guard_exact now need r answer m = (forward, backward)
  where
    forward :
        (require_role now need r answer m).0 ≡ handled answer
        → (ses : WebSession) × ((current_session now r m).0 ≡ some ses) × Passes need r ses
    forward h = elim (Option-cases (current_session now r m).0) [
      | inl e ↦ absurd (ground (arith, e))
      | inr (ses, e) ↦ (ses, e, record { allowed = ground (arith, e); json = ground (arith, e) })
    ]

    backward :
        (ses : WebSession) × ((current_session now r m).0 ≡ some ses) × Passes need r ses
        → (require_role now need r answer m).0 ≡ handled answer
    backward p = ground (arith, p.1, p.2.allowed, p.2.json)
