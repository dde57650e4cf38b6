-- ===== src/Sessions/Expiry.antt =====
-- web_session.go: how long a session lives.
use ship_grip_fim.Base.{
  ℕ, ◌+◌, ◌≤◌, ◌≡◌, refl, Option, none, some, [], ◌∷◌, arith, Text, str_eq, str_eq_iff, str_eq_refl,
  ltb, if◌then◌else◌, lookup, lookup-insert, lookup-remove, IsMap,
}
use ship_grip_fim.Sessions.{
  WebSession, SessionStore, session_ttl, drop_expired, create, get, delete,
}

-- The session of an option, unless it has expired.
abbrev pub live : ℕ → Option WebSession → Option WebSession
live now none = none
live now (some ses) = if ltb ses.expires now then none else some ses

lookup-drop_expired :
    (now : ℕ) (t : Text) (m : SessionStore)
    → IsMap m
    → lookup t (drop_expired now m) ≡ live now (lookup t m)
unfolding lookup drop_expired
lookup-drop_expired now t [] i = refl
lookup-drop_expired now t ((j, ses) ∷ m) i =
    ground (arith, lookup-drop_expired now t m i.1, str_eq_iff j t, i.0)

get_lem : (now : ℕ) (t : Text) (m : SessionStore) → (get now t m).0 ≡ live now (lookup t m)
unfolding get
get_lem now t m = ground arith

-- Twice the test of the clock: what has expired stays expired.
live-live :
    (now later : ℕ) (o : Option WebSession) → now ≤ later → live later (live now o) ≡ live later o
live-live now later none h = refl
live-live now later (some ses) h = ground arith

-- A new session is found under its token for exactly 12 hours; any other token finds, from then on,
-- the session that it found before, until that expires.
pub session_lifetime :
    (token : Text) (now later : ℕ) (user role other : Text) (m : SessionStore)
    → IsMap m
    → now ≤ later
    → (get later other (create token now user role m)).0 ≡ (
        if str_eq token other
        then (if ltb (now + session_ttl) later
            then none
            else some (record { user = user; role = role; expires = now + session_ttl }))
        else (get later other m).0)
unfolding create
session_lifetime token now later user role other m i h = ground (
  arith,
  get_lem later other (create token now user role m),
  get_lem later other m,
  lookup-insert token other (record { user = user; role = role; expires = now + session_ttl })
      (drop_expired now m),
  lookup-drop_expired now other m i,
  live-live now later (lookup other m) h,
)

-- Looking up a token at one time does not change what any token finds later, and after a logout its
-- token finds nothing.
pub lookups_independent :
    (now later : ℕ) (t other : Text) (m : SessionStore)
    → now ≤ later
    → ((get later other (get now t m).1).0 ≡ (get later other m).0)
      × ((get later t (delete t m)).0 ≡ none)
unfolding get delete
lookups_independent now later t other m h = (
  ground (arith, lookup-remove t other m, str_eq_iff t other),
  ground (arith, lookup-remove t t m, str_eq_refl t),
)
