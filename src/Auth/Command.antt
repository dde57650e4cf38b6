-- ===== src/Auth/Command.antt =====
-- auth.go: the "user ..." sub-commands, their authorization, and logins, over the users file.
pub mod Errors
pub mod Persistence
use ship_grip_fim.Base.{
  ℕ, Bool, true, false, ◌&&◌, Option, none, some, List, [], ◌∷◌, map, Text, lit, str_eq,
  if◌then◌else◌, lookup, Read, missing, failed, contents, Result, ok, err,
}
use ship_grip_fim.Auth.Roles.{role_ro, role_admin, role_allows}
use ship_grip_fim.Auth.Users.{
  Bcrypt, UserRecord, UserDb, AuthError, names, check, add, set_password, set_role, remove_user,
}
use ship_grip_fim.Auth.File.{LoadError, not_exist, SaveStep, UsersDir, load_users, save}

-- The text that a sub-command answers with, one constructor for each message.
pub data Reply : Type 0 where
  usage : Reply
  listing : List (Text × Text) → Reply
  no_users : Text → Reply
  added : Text → Text → Reply
  password_updated : Text → Reply
  role_changed : Text → Text → Reply
  user_removed : Text → Reply
  usage_error unknown_sub permission_denied : Text → Reply
  read_error : LoadError → Reply
  save_error : SaveStep → Reply
  refused : AuthError → Reply

-- The messages that start with "ERROR".
unfoldable pub is_error : Reply → Bool
is_error (usage_error w) = true
is_error (unknown_sub w) = true
is_error (permission_denied w) = true
is_error (read_error e) = true
is_error (save_error e) = true
is_error (refused e) = true
is_error _ = false

-- os.IsNotExist(err), or no error.
readable : Option LoadError → Bool
readable none = true
readable (some not_exist) = true
readable (some e) = false

role_column : UserDb → Text → Text × Text
role_column db n = elim (lookup n db.users) [ none ↦ (n, []) | some u ↦ (n, u.role) ]

list_reply : UserDb → List Text → Reply
unfolding role_column
list_reply db [] = no_users db.path
list_reply db (n ∷ ns) = listing (map (role_column db) (n ∷ ns))

after_save : Reply → Option SaveStep × UsersDir → Reply × UsersDir
after_save msg (none, dir) = (msg, dir)
after_save msg (some e, dir) = (save_error e, dir)

-- `saveOr`, after an operation that may be refused.
unfoldable pub finish :
    (SaveStep → Bool) → UsersDir → Reply → Result AuthError UserDb → Reply × UsersDir
unfolding after_save
finish fails dir msg (err e) = (refused e, dir)
finish fails dir msg (ok db) = after_save msg (save fails db dir)

module _ (bcrypt : Bcrypt) (fails : SaveStep → Bool) (salt : ℕ) where
  run_add : UserDb → UsersDir → List Text → Reply × UsersDir
  unfolding finish
  run_add db dir (name ∷ password ∷ []) =
      finish fails dir (added name role_ro) (add bcrypt salt db name password role_ro)
  run_add db dir (name ∷ password ∷ role ∷ rest) =
      finish fails dir (added name role) (add bcrypt salt db name password role)
  run_add db dir _ = (usage_error (lit "add"), dir)

  run_passwd : UserDb → UsersDir → List Text → Reply × UsersDir
  unfolding finish
  run_passwd db dir (name ∷ password ∷ rest) =
      finish fails dir (password_updated name) (set_password bcrypt salt db name password)
  run_passwd db dir _ = (usage_error (lit "passwd"), dir)

  run_role : UserDb → UsersDir → List Text → Reply × UsersDir
  unfolding finish
  run_role db dir (name ∷ role ∷ rest) =
      finish fails dir (role_changed name role) (set_role db name role)
  run_role db dir _ = (usage_error (lit "role"), dir)

  run_remove : UserDb → UsersDir → List Text → Reply × UsersDir
  unfolding finish
  run_remove db dir (name ∷ rest) = finish fails dir (user_removed name) (remove_user db name)
  run_remove db dir _ = (usage_error (lit "remove"), dir)

  run_sub : UserDb → UsersDir → Text → List Text → Reply × UsersDir
  unfolding list_reply run_add run_passwd run_role run_remove
  run_sub db dir sub args =
      if str_eq sub (lit "list")
      then (list_reply db (names db), dir)
      else if str_eq sub (lit "add")
      then run_add db dir args
      else if str_eq sub (lit "passwd")
      then run_passwd db dir args
      else if str_eq sub (lit "role")
      then run_role db dir args
      else if str_eq sub (lit "remove")
      then run_remove db dir args
      else (unknown_sub sub, dir)

  unfoldable pub user_command : Text → List Text → UsersDir → Reply × UsersDir
  unfolding run_sub readable
  user_command path [] dir = (usage, dir)
  user_command path (sub ∷ args) dir =
      let (db, e) = load_users path dir.file in
      elim e [
        | none ↦ run_sub db dir sub args
        | some not_exist ↦ run_sub db dir sub args
        | some other ↦ (read_error other, dir)
      ]

  own_password : List Text → Text → Bool
  own_password (sub ∷ name ∷ rest) actor = str_eq sub (lit "passwd") && str_eq name actor
  own_password _ actor = false

  unfoldable pub user_command_as : Text → List Text → Text → Text → UsersDir → Reply × UsersDir
  unfolding own_password
  user_command_as path args actor actor_role dir =
      if role_allows actor_role role_admin
      then user_command path args dir
      else if own_password args actor
      then user_command path args dir
      else (permission_denied actor, dir)

module _ (bcrypt : Bcrypt) where
  -- The delays after a failure are not modelled.
  unfoldable pub authenticate : Text → Read → Text → Text → Option Text
  authenticate path file name password =
      let (db, e) = load_users path file in
      elim e [ none ↦ check bcrypt db name password | some _ ↦ none ]

  unfoldable pub using_default_password : Text → Read → Bool
  unfolding authenticate
  using_default_password path file = elim (authenticate path file (lit "admin") (lit "changeme")) [
    | none ↦ false
    | some _ ↦ true
  ]

  unfoldable pub ensured :
      (SaveStep → Bool) → UsersDir → Result AuthError UserDb → Result Reply Bool × UsersDir
  ensured fails dir (err e) = (err (refused e), dir)
  ensured fails dir (ok db) =
      let (e, dir') = save fails db dir in
      elim e [ none ↦ (ok true, dir') | some step ↦ (err (save_error step), dir') ]

  -- `stat_ok`: os.Stat finds the file.
  unfoldable pub ensure_default_user :
      (SaveStep → Bool) → ℕ → Text → Bool → UsersDir → Result Reply Bool × UsersDir
  unfolding ensured
  ensure_default_user fails salt path true dir = (ok false, dir)
  ensure_default_user fails salt path false dir = ensured fails dir (
      add bcrypt salt (record { path = path; users = [] }) (lit "admin") (lit "changeme")
        role_admin)
