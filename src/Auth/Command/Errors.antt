-- ===== src/Auth/Command/Errors.antt =====
-- auth.go: what a sub-command that fails, or is denied, leaves of the users file.
use ship_grip_fim.Base.{
  ℕ, Bool, true, false, ◌≡◌, ◌≢◌, refl, ◌⊎◌, inl, inr, none, some, List, [], ◌∷◌, arith, Text, lit,
  str_eq, Result, ok, err, contents, Bool-cases, &&_parts, str_eq→eq, ◌&&◌,
}
use ship_grip_fim.Auth.Roles.{role_ro, role_admin, role_allows}
use ship_grip_fim.Auth.Users.{Bcrypt, UserDb, AuthError, add, set_password, set_role, remove_user}
use ship_grip_fim.Auth.File.{SaveStep, rename, UsersDir, save, render, load_users}
use ship_grip_fim.Auth.Command.{
  Reply, is_error, finish, run_sub, user_command, user_command_as, run_add, run_passwd, run_role,
  run_remove, added, password_updated, role_changed, user_removed, own_password, permission_denied,
}

-- Saving replaces the users file by the whole rendered database, or fails and leaves it as it was;
-- the temporary file is gone afterwards unless the rename failed.
pub save_atomic :
    (fails : SaveStep → Bool) (db : UserDb) (dir : UsersDir)
    → dir.temp ≡ none
    → let (e, dir') = save fails db dir in
      ((e ≡ none) × (dir'.file ≡ contents (render db)) × (dir'.temp ≡ none))
      ⊎ ((e ≢ none) × (dir'.file ≡ dir.file) × ((dir'.temp ≡ none) ⊎ (e ≡ some rename)))
unfolding save
save_atomic fails db dir h = ground arith

finish_error :
    (fails : SaveStep → Bool) (dir : UsersDir) (msg : Reply) (r : Result AuthError UserDb)
    → is_error msg ≡ false
    → is_error (finish fails dir msg r).0 ≡ true
    → (finish fails dir msg r).1.file ≡ dir.file
unfolding finish is_error save
finish_error fails dir msg (err e) m h = refl
finish_error fails dir msg (ok db) m h = ground arith

-- An answer that is no error comes after the database was saved.
pub finish_saved :
    (fails : SaveStep → Bool) (dir dir' : UsersDir) (msg : Reply) (r : Result AuthError UserDb)
    → is_error msg ≡ false
    → finish fails dir msg r ≡ (msg, dir')
    → (db : UserDb) × (r ≡ ok db) × (dir'.file ≡ contents (render db))
unfolding finish is_error save
finish_saved fails dir dir' msg (err e) m h = absurd (ground arith)
finish_saved fails dir dir' msg (ok db) m h = (db, refl, ground arith)

module _ (bcrypt : Bcrypt) (fails : SaveStep → Bool) (salt : ℕ) where
  run_add_error :
      (db : UserDb) (dir : UsersDir) (args : List Text)
      → is_error (run_add bcrypt fails salt db dir args).0 ≡ true
      → (run_add bcrypt fails salt db dir args).1.file ≡ dir.file
  unfolding run_add
  run_add_error db dir (n ∷ p ∷ []) h =
      finish_error fails dir (added n role_ro) (add bcrypt salt db n p role_ro)
        (unfold is_error in refl) h
  run_add_error db dir (n ∷ p ∷ r ∷ rest) h =
      finish_error fails dir (added n r) (add bcrypt salt db n p r) (unfold is_error in refl) h
  run_add_error db dir (n ∷ []) h = refl
  run_add_error db dir [] h = refl

  run_passwd_error :
      (db : UserDb) (dir : UsersDir) (args : List Text)
      → is_error (run_passwd bcrypt fails salt db dir args).0 ≡ true
      → (run_passwd bcrypt fails salt db dir args).1.file ≡ dir.file
  unfolding run_passwd
  run_passwd_error db dir (n ∷ p ∷ rest) h =
      finish_error fails dir (password_updated n) (set_password bcrypt salt db n p)
        (unfold is_error in refl) h
  run_passwd_error db dir (n ∷ []) h = refl
  run_passwd_error db dir [] h = refl

  run_role_error :
      (db : UserDb) (dir : UsersDir) (args : List Text)
      → is_error (run_role bcrypt fails salt db dir args).0 ≡ true
      → (run_role bcrypt fails salt db dir args).1.file ≡ dir.file
  unfolding run_role
  run_role_error db dir (n ∷ r ∷ rest) h =
      finish_error fails dir (role_changed n r) (set_role db n r) (unfold is_error in refl) h
  run_role_error db dir (n ∷ []) h = refl
  run_role_error db dir [] h = refl

  run_remove_error :
      (db : UserDb) (dir : UsersDir) (args : List Text)
      → is_error (run_remove bcrypt fails salt db dir args).0 ≡ true
      → (run_remove bcrypt fails salt db dir args).1.file ≡ dir.file
  unfolding run_remove
  run_remove_error db dir (n ∷ rest) h =
      finish_error fails dir (user_removed n) (remove_user db n) (unfold is_error in refl) h
  run_remove_error db dir [] h = refl

  run_sub_error :
      (db : UserDb) (dir : UsersDir) (sub : Text) (args : List Text)
      → is_error (run_sub bcrypt fails salt db dir sub args).0 ≡ true
      → (run_sub bcrypt fails salt db dir sub args).1.file ≡ dir.file
  unfolding run_sub
  run_sub_error db dir sub args h = ground (
    arith,
    run_add_error db dir args,
    run_passwd_error db dir args,
    run_role_error db dir args,
    run_remove_error db dir args,
  )

  -- A sub-command whose answer starts with "ERROR" leaves the users file as it was.
  pub user_command_error :
      (path : Text) (args : List Text) (dir : UsersDir)
      → is_error (user_command bcrypt fails salt path args dir).0 ≡ true
      → (user_command bcrypt fails salt path args dir).1.file ≡ dir.file
  unfolding user_command
  user_command_error path [] dir h = refl
  user_command_error path (sub ∷ args) dir h =
      ground (arith, run_sub_error (load_users path dir.file).0 dir sub args)

  -- A user below admin is denied, and the users file left alone, unless the sub-command is a change
  -- of the user's own password: then the answer and the file are those of the unrestricted command.
  pub user_command_as_denied :
      (path : Text) (args : List Text) (actor role : Text) (dir : UsersDir)
      → role_allows role role_admin ≡ false
      → (user_command_as bcrypt fails salt path args actor role dir
          ≡ (permission_denied actor, dir))
        ⊎ ((rest : List Text) × (args ≡ lit "passwd" ∷ actor ∷ rest)
            × (user_command_as bcrypt fails salt path args actor role dir
                ≡ user_command bcrypt fails salt path args dir))
  unfolding user_command_as own_password
  user_command_as_denied path [] actor role dir h = inl (rw h)
  user_command_as_denied path (sub ∷ []) actor role dir h = inl (rw h)
  user_command_as_denied path (sub ∷ name ∷ rest) actor role dir h =
      elim (Bool-cases (str_eq sub (lit "passwd") && str_eq name actor)) [
        | inl e ↦
            let (p, q) = &&_parts (str_eq sub (lit "passwd")) (str_eq name actor) e in
            inr (rest, cc (str_eq→eq sub (lit "passwd") p, str_eq→eq name actor q), ground arith)
        | inr e ↦ inl (ground arith)
      ]
