-- ===== src/Tests/Users.antt =====
-- A users file with one administrator.
use ship_grip_fim.Base.{
  Bool, true, false, ◌≡◌, ◌≢◌, refl, none, some, List, [], ◌∷◌, Text, lit, lookup, contents, arith,
  ok, str_eq, trim_right, is_space, byte_length, insert, has_key, utf8_width, str_eq_iff, ◌<◌,
  max_scan_token, missing,
}
use mathlib.Core.Path.{subst₂}
use ship_grip_fim.Auth.Roles.{role_rank, valid_role}
use ship_grip_fim.Auth.Users.{
  UserRecord, UserDb, add, check, count_admins, admin_count, user_name_matches, validate_password,
  is_name_char,
}
use ship_grip_fim.Auth.Users.LastAdmin.{IsGoverned, start, next, added, changes-IsGoverned}
use ship_grip_fim.Auth.File.{SaveStep, user_line, UsersDir, save, render, load_users}
use ship_grip_fim.Auth.File.Entries.{IsEntry}
use ship_grip_fim.Auth.File.RoundTrip.{IsStored, load_users-render}
use ship_grip_fim.Auth.Command.{
  user_command, finish, user_command_as, is_error, authenticate, permission_denied,
}
use ship_grip_fim.Auth.Command.Errors.{user_command_error}
use ship_grip_fim.Auth.Command.Persistence.{add_then_authenticate}
use ship_grip_fim.Tests.Instances.{toy_bcrypt, toy_texts}

abbrev root : UserRecord
root = record { role = lit "admin"; hash = lit "7" }

abbrev one_admin : UserDb
one_admin = record { path = lit "users.db"; users = (lit "root", root) ∷ [] }

abbrev two_users : UserDb
two_users = record {
  path = lit "users.db";
  users = (lit "root", root) ∷ (lit "bob", record { role = lit "ro"; hash = lit "3" }) ∷ [];
}

one_admin-IsGoverned : IsGoverned one_admin
unfolding lookup admin_count count_admins lit str_eq
one_admin-IsGoverned = record { one_each = (refl, tt); governed = ground arith }

bob_added : add toy_bcrypt 0 one_admin (lit "bob") (lit "password") (lit "ro") ≡ ok two_users
unfolding add user_name_matches is_name_char has_key lookup valid_role role_rank validate_password
    byte_length utf8_width insert lit str_eq
bob_added = refl

changes-IsGoverned_example : IsGoverned two_users
changes-IsGoverned_example =
    changes-IsGoverned toy_bcrypt one_admin-IsGoverned
      (next start (added 0 (lit "bob") (lit "password") (lit "ro") bob_added))

abbrev no_failure : SaveStep → Bool
no_failure s = false

abbrev empty_dir : UsersDir
empty_dir = record { file = missing; temp = none }

root-IsEntry : IsEntry (lit "root") root
unfolding lit valid_role role_rank str_eq trim_right is_space
root-IsEntry = record {
  name_starts = refl;
  name_no_colon = refl;
  name_one_line = refl;
  role_valid = refl;
  hash_no_colon = refl;
  hash_one_line = refl;
  hash_ends = refl;
  hash_given = refl;
}

root_only :
    (n : Text) (u : UserRecord) → lookup n one_admin.users ≡ some u → (lit "root" ≡ n) × (root ≡ u)
unfolding lookup
root_only n u h = (ground (arith, h, str_eq_iff (lit "root") n), ground (arith, h))

root_fits : byte_length (user_line (lit "root") root) < max_scan_token
unfolding byte_length user_line lit utf8_width
root_fits = ground arith

one_admin-IsStored : IsStored one_admin.users
one_admin-IsStored = record {
  entry = λ n u h. let (p, q) = root_only n u h in subst₂ IsEntry p q root-IsEntry;
  fits = λ n u h.
      let (p, q) = root_only n u h in
      subst₂ (λ m v. byte_length (user_line m v) < max_scan_token) p q root_fits;
}

load_users-render_example :
    ((load_users (lit "users.db") (contents (render one_admin))).1 ≡ none)
    × ((k : Text)
        → lookup k (load_users (lit "users.db") (contents (render one_admin))).0.users
          ≡ lookup k one_admin.users)
load_users-render_example = load_users-render (lit "users.db") one_admin one_admin-IsStored

abbrev short_add : List Text
short_add = lit "add" ∷ lit "bob" ∷ []

short_add_refused :
    is_error (user_command toy_bcrypt no_failure 0 (lit "users.db") short_add empty_dir).0 ≡ true
unfolding user_command load_users is_error lit str_eq
short_add_refused = refl

user_command_error_example :
    (user_command toy_bcrypt no_failure 0 (lit "users.db") short_add empty_dir).1.file ≡ missing
user_command_error_example =
    user_command_error toy_bcrypt no_failure 0 (lit "users.db") short_add empty_dir
      short_add_refused

nobody-IsStored : IsStored (load_users (lit "users.db") missing).0.users
unfolding load_users lookup
nobody-IsStored = record {
  entry = λ n u h. absurd (ground (arith, h));
  fits = λ n u h. absurd (ground (arith, h));
}

abbrev add_bob : List Text
add_bob = lit "add" ∷ lit "bob" ∷ lit "password" ∷ lit "rw" ∷ []

abbrev after_add : UsersDir
after_add = (user_command toy_bcrypt no_failure 0 (lit "users.db") add_bob empty_dir).1

bob_is_added :
    user_command toy_bcrypt no_failure 0 (lit "users.db") add_bob empty_dir
    ≡ (ship_grip_fim.Auth.Command.added (lit "bob") (lit "rw"), after_add)
unfolding user_command load_users finish add user_name_matches is_name_char has_key lookup
    valid_role role_rank validate_password byte_length utf8_width insert lit str_eq save
bob_is_added = refl

add_then_authenticate_example :
    (authenticate toy_bcrypt (lit "users.db") after_add.file (lit "bob") (lit "password")
      ≡ some (lit "rw"))
    × ((other p : Text)
        → other ≢ lit "bob"
        → authenticate toy_bcrypt (lit "users.db") after_add.file other p
          ≡ check toy_bcrypt (load_users (lit "users.db") missing).0 other p)
add_then_authenticate_example =
    add_then_authenticate toy_bcrypt toy_texts no_failure 0 (lit "users.db") (lit "bob")
      (lit "password") (lit "rw") empty_dir after_add nobody-IsStored bob_is_added
