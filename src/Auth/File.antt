-- ===== src/Auth/File.antt =====
-- auth.go: the users file, one "name:role:bcrypt-hash" entry a line.
pub mod Entries
pub mod RoundTrip
use ship_grip_fim.Base.{
  ℕ, Bool, true, false, ◌&&◌, ◌||◌, not, Option, none, some, List, [], ◌∷◌, ◌++◌, map, Text, lit,
  split, trim_space, is_comment, is_nil, if◌then◌else◌, scan_lines, max_scan_token, insert, lookup,
  Map, Read, missing, failed, contents, unlines,
}
use ship_grip_fim.Auth.Roles.{role_admin, valid_role}
use ship_grip_fim.Auth.Users.{UserRecord, UserDb, names}

-- What `loadUsers` returns beside the database.
pub data LoadError : Type 0 where
  not_exist cannot_open line_too_long : LoadError

abbrev pub put_user : Text → Text → Text → Map UserRecord → Map UserRecord
put_user name role hash users = insert name (record { role = role; hash = hash }) users

-- The `switch` on the fields of a line; the last clause warns and skips the line.
unfoldable pub load_fields : List Text → Map UserRecord → Map UserRecord
load_fields (name ∷ role ∷ hash ∷ []) users =
    if not (is_nil name) && valid_role role && not (is_nil hash)
    then put_user name role hash users
    else users
load_fields (name ∷ hash ∷ []) users =
    if not (is_nil name) && not (is_nil hash) then put_user name role_admin hash users else users
load_fields _ users = users

unfoldable pub load_line : Text → Map UserRecord → Map UserRecord
unfolding load_fields
load_line raw users =
    let line = trim_space raw in
    if is_comment line then users else load_fields (split b':' line) users

unfoldable pub load_lines : List Text → Map UserRecord → Map UserRecord
unfolding load_line
load_lines [] users = users
load_lines (l ∷ ls) users = load_lines ls (load_line l users)

unfoldable pub load_users : Text → Read → UserDb × Option LoadError
unfolding load_lines
load_users path missing = (record { path = path; users = [] }, some not_exist)
load_users path failed = (record { path = path; users = [] }, some cannot_open)
load_users path (contents s) =
    let (lines, long) = scan_lines max_scan_token s in
    (record { path = path; users = load_lines lines [] }, if long then some line_too_long else none)

abbrev pub header_line : Text
header_line =
    lit
      "# ship-grip-fim users: name:role:bcrypt-hash  roles: ro, rw, admin  (manage with 'ship-grip-fim user ...')"

unfoldable pub user_line : Text → UserRecord → Text
user_line n u = n ++ (b':' ∷ (u.role ++ (b':' ∷ u.hash)))

-- A name that is not a key would give the zero record.
unfoldable pub line_of : Map UserRecord → Text → Text
unfolding user_line
line_of users n = elim (lookup n users) [
  | none ↦ user_line n (record { role = []; hash = [] })
  | some u ↦ user_line n u
]

unfoldable pub render : UserDb → Text
unfolding line_of names
render db = unlines (header_line ∷ map (line_of db.users) (names db))

-- The steps of `save` that can fail.
pub data SaveStep : Type 0 where
  mkdir create_temp chmod flush close rename : SaveStep

-- The users file and the temporary file that the last call of `save` made beside it.
pub record UsersDir : Type 0 where
  pub file : Read
  pub temp : Option Text

-- `fails` says which calls of the operating system fail. `cleanup` removes the temporary file; a
-- failed rename leaves it.
unfoldable pub save : (SaveStep → Bool) → UserDb → UsersDir → Option SaveStep × UsersDir
save fails db dir =
    if fails mkdir
    then (some mkdir, dir)
    else if fails create_temp
    then (some create_temp, dir)
    else if fails chmod
    then (some chmod, record dir { temp = none })
    else if fails flush
    then (some flush, record dir { temp = none })
    else if fails close
    then (some close, record dir { temp = none })
    else if fails rename
    then (some rename, record dir { temp = some (render db) })
    else (none, record { file = contents (render db); temp = none })
