-- ===== src/Auth/Users.antt =====
-- auth.go: the user database in memory. bcrypt is not part of the repository: it is a parameter.
pub mod LastAdmin
use ship_grip_fim.Base.{
  ℕ, zero, suc, ◌+◌, Bool, true, false, ◌≡◌, ◌&&◌, ◌||◌, not, Option, none, some, List, [], ◌∷◌,
  Text, lit, str_eq, ltb, leb, ◌==◌, if◌then◌else◌, length, all, any, is_nil, byte_length, Map,
  lookup, insert, remove, keys, has_key, sort_strings, Result, ok, err,
}
use ship_grip_fim.Auth.Roles.{role_admin, role_ro, valid_role}

-- golang.org/x/crypto/bcrypt. A call of GenerateFromPassword draws its own salt, so it has one more
-- argument; it fails for a password that is too long. A hash is text that stands on one line and
-- holds no ':', and a password matches each of its own hashes.
pub record Bcrypt : Type 0 where
  pub generate : ℕ → Text → Option Text
  pub matches : Text → Text → Bool
  pub matches-generate :
      (salt : ℕ) (password hash : Text)
      → generate salt password ≡ some hash
      → matches hash password ≡ true

pub record UserRecord : Type 0 where
  pub role : Text
  pub hash : Text

pub record UserDb : Type 0 where
  pub path : Text
  pub users : Map UserRecord

pub data AuthError : Type 0 where
  invalid_name user_exists user_not_found : Text → AuthError
  invalid_role : Text → AuthError
  short_password hash_failed last_admin_demoted last_admin_removed : AuthError

abbrev pub min_password_len : ℕ
min_password_len = 8

-- [A-Za-z0-9_.-]
unfoldable pub is_name_char : ℕ → Bool
is_name_char c =
    (leb b'A' c && leb c b'Z')
    || (leb b'a' c && leb c b'z')
    || (leb b'0' c && leb c b'9')
    || c == b'_'
    || c == b'.'
    || c == b'-'

-- userNameRe: ^[A-Za-z0-9_.-]{1,32}$
unfoldable pub user_name_matches : Text → Bool
unfolding is_name_char
user_name_matches name = all is_name_char name && leb 1 (length name) && leb (length name) 32

unfoldable pub names : UserDb → List Text
names db = sort_strings (keys db.users)

unfoldable pub validate_password : Text → Option AuthError
validate_password p = if ltb (byte_length p) min_password_len then some short_password else none

unfoldable pub count_admins : Map UserRecord → ℕ
count_admins [] = 0
count_admins ((n, u) ∷ m) =
    let rest = count_admins m in if str_eq u.role role_admin then suc rest else rest

unfoldable pub admin_count : UserDb → ℕ
unfolding count_admins
admin_count db = count_admins db.users

module _ (bcrypt : Bcrypt) where
  check_record : Option UserRecord → Text → Option Text
  check_record none password = none
  check_record (some u) password = if bcrypt.matches u.hash password then some u.role else none

  -- The comparison with `dummyHash` for an unknown user has no effect but time.
  unfoldable pub check : UserDb → Text → Text → Option Text
  unfolding check_record
  check db name password = check_record (lookup name db.users) password

  store_hash : UserDb → Text → Text → Option Text → Result AuthError UserDb
  store_hash db name role none = err hash_failed
  store_hash db name role (some hash) =
      ok (record db { users = insert name (record { role = role; hash = hash }) db.users })

  unfoldable pub add : ℕ → UserDb → Text → Text → Text → Result AuthError UserDb
  unfolding store_hash validate_password
  add salt db name password role =
      if not (user_name_matches name)
      then err (invalid_name name)
      else if has_key name db.users
      then err (user_exists name)
      else if not (valid_role role)
      then err (invalid_role role)
      else elim (validate_password password) [
        | some e ↦ err e
        | none ↦ store_hash db name role (bcrypt.generate salt password)
      ]

  set_password_of : ℕ → UserDb → Text → Text → Option UserRecord → Result AuthError UserDb
  unfolding store_hash validate_password
  set_password_of salt db name password none = err (user_not_found name)
  set_password_of salt db name password (some u) = elim (validate_password password) [
    | some e ↦ err e
    | none ↦ store_hash db name u.role (bcrypt.generate salt password)
  ]

  unfoldable pub set_password : ℕ → UserDb → Text → Text → Result AuthError UserDb
  unfolding set_password_of
  set_password salt db name password = set_password_of salt db name password (lookup name db.users)

set_role_of : UserDb → Text → Text → Option UserRecord → Result AuthError UserDb
unfolding admin_count
set_role_of db name role none = err (user_not_found name)
set_role_of db name role (some u) =
    if not (valid_role role)
    then err (invalid_role role)
    else if str_eq u.role role_admin && not (str_eq role role_admin) && (admin_count db == 1)
    then err last_admin_demoted
    else ok (record db { users = insert name (record u { role = role }) db.users })

unfoldable pub set_role : UserDb → Text → Text → Result AuthError UserDb
unfolding set_role_of
set_role db name role = set_role_of db name role (lookup name db.users)

remove_of : UserDb → Text → Option UserRecord → Result AuthError UserDb
unfolding admin_count
remove_of db name none = err (user_not_found name)
remove_of db name (some u) =
    if str_eq u.role role_admin && (admin_count db == 1)
    then err last_admin_removed
    else ok (record db { users = remove name db.users })

unfoldable pub remove_user : UserDb → Text → Result AuthError UserDb
unfolding remove_of
remove_user db name = remove_of db name (lookup name db.users)
