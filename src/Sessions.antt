-- ===== src/Sessions.antt =====
-- web_session.go: login sessions of the web GUI, the guard in front of the handlers, and login.
-- Times are seconds; a token is drawn at random, here an argument.
pub mod Expiry
pub mod Guard
use ship_grip_fim.Base.{
  ℕ, ◌+◌, ◌*◌, Bool, true, false, ◌&&◌, ◌||◌, not, Option, none, some, List, [], ◌∷◌, Text, lit,
  str_eq, ltb, if◌then◌else◌, is_nil, has_prefix, Map, lookup, insert, remove, Result, ok, err,
}
use ship_grip_fim.Auth.Roles.{role_allows}

-- 12 hours
abbrev pub session_ttl : ℕ
session_ttl = 43200

pub record WebSession : Type 0 where
  pub user : Text
  pub role : Text
  pub expires : ℕ

abbrev pub SessionStore : Type 0
SessionStore = Map WebSession

unfoldable pub drop_expired : ℕ → SessionStore → SessionStore
drop_expired now [] = []
drop_expired now ((t, ses) ∷ m) =
    let rest = drop_expired now m in if ltb ses.expires now then rest else (t, ses) ∷ rest

unfoldable pub create : Text → ℕ → Text → Text → SessionStore → SessionStore
unfolding drop_expired
create token now user role m =
    insert token (record { user = user; role = role; expires = now + session_ttl })
      (drop_expired now m)

found : ℕ → Text → Option WebSession → SessionStore → Option WebSession × SessionStore
found now token none m = (none, remove token m)
found now token (some ses) m = if ltb ses.expires now then (none, remove token m) else (some ses, m)

unfoldable pub get : ℕ → Text → SessionStore → Option WebSession × SessionStore
unfolding found
get now token m = found now token (lookup token m) m

unfoldable pub delete : Text → SessionStore → SessionStore
delete token m = remove token m

-- The parts of an HTTP request that the program reads; the cookie is the session cookie's value.
pub record Request : Type 0 where
  pub method : Text
  pub path : Text
  pub content_type : Text
  pub cookie : Option Text

unfoldable pub current_session : ℕ → Request → SessionStore → Option WebSession × SessionStore
current_session now r m = elim r.cookie [
  | none ↦ (none, m)
  | some token ↦ if is_nil token then (none, m) else get now token m
]

pub data Answer (R : Type 0) : Type 0 where
  login_required redirect_to_login permission_denied json_required : Answer R
  handled : R → Answer R

unfoldable pub is_api : Request → Bool
is_api r = has_prefix (lit "/api/") r.path

module _ {R : Type 0} where
  guarded : Text → Request → R → Option WebSession → Answer R
  guarded need r answer none = if is_api r then login_required else redirect_to_login
  guarded need r answer (some ses) =
      if not (is_nil need) && not (role_allows ses.role need)
      then permission_denied
      else if str_eq r.method (lit "POST")
          && is_api r
          && not (has_prefix (lit "application/json") r.content_type)
      then json_required
      else handled answer

  -- `requireRole`: the handler's answer is given only if the request passes.
  unfoldable pub require_role : ℕ → Text → Request → R → SessionStore → Answer R × SessionStore
  unfolding guarded is_api
  require_role now need r answer m =
      let (ses, m') = current_session now r m in (guarded need r answer ses, m')

-- The answers of `webLogin`; a body that cannot be decoded is `none`.
pub data Login : Type 0 where
  post_required fields_required login_failed : Login
  logged_in : Text → Text → Text → Login

login_with :
    (Text → Text → Option Text) → Text → ℕ → SessionStore → Text → Text → Login × SessionStore
login_with authenticate token now m user password = elim (authenticate user password) [
  | none ↦ (login_failed, m)
  | some role ↦ (logged_in user role token, create token now user role m)
]

unfoldable pub web_login :
    (Text → Text → Option Text)
    → Text
    → ℕ
    → Request
    → Option (Text × Text)
    → SessionStore
    → Login × SessionStore
unfolding login_with
web_login authenticate token now r body m =
    if not (str_eq r.method (lit "POST")) then (post_required, m) else elim body [
      | none ↦ (fields_required, m)
      | some (user, password) ↦
          if is_nil user
          then (fields_required, m)
          else login_with authenticate token now m user password
    ]

unfoldable pub web_logout : Request → SessionStore → SessionStore
unfolding delete
web_logout r m = elim r.cookie [ none ↦ m | some token ↦ delete token m ]

-- `webMe`: the zero session without a valid one.
unfoldable pub web_me : ℕ → Request → SessionStore → (Text × Text) × SessionStore
web_me now r m =
    let (ses, m') = current_session now r m in
    elim ses [ none ↦ (([], []), m') | some s ↦ ((s.user, s.role), m') ]

-- `webLoginPage`: whether it redirects to the page.
unfoldable pub web_login_page : ℕ → Request → SessionStore → Bool × SessionStore
web_login_page now r m =
    let (ses, m') = current_session now r m in elim ses [ none ↦ (false, m') | some s ↦ (true, m') ]
