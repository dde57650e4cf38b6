-- ===== src/Auth/Users/LastAdmin.antt =====
-- No operation on the user database takes away the last administrator.
use ship_grip_fim.Base.{
  ℕ, ◌+◌, ◌<◌, ◌≡◌, Option, none, some, [], ◌∷◌, arith, Text, str_eq, str_eq_iff, if◌then◌else◌,
  Map, lookup, insert, remove, IsMap, insert-IsMap, remove-IsMap, ok, has_key, Option-cases, inl,
  inr, subst,
}
use ship_grip_fim.Auth.Roles.{role_admin}
use ship_grip_fim.Auth.Users.{
  Bcrypt, UserRecord, UserDb, count_admins, admin_count, add, set_password, set_role, remove_user,
  store_hash,
}

-- 1 if there is a record and it is an administrator's.
abbrev weight : Option UserRecord → ℕ
weight none = 0
weight (some u) = if str_eq u.role role_admin then 1 else 0

count_admins-insert :
    (k : Text) (v : UserRecord) (m : Map UserRecord)
    → count_admins (insert k v m) + weight (lookup k m) ≡ count_admins m + weight (some v)
unfolding count_admins insert lookup
count_admins-insert k v [] = ground arith
count_admins-insert k v ((j, w) ∷ m) = ground (arith, count_admins-insert k v m)

remove-none : (k : Text) (m : Map UserRecord) → lookup k m ≡ none → remove k m ≡ m
unfolding remove lookup
remove-none k [] h = ground arith
remove-none k ((j, w) ∷ m) h = ground (arith, remove-none k m)

count_admins-remove :
    (k : Text) (m : Map UserRecord)
    → IsMap m
    → count_admins (remove k m) + weight (lookup k m) ≡ count_admins m
unfolding count_admins remove lookup
count_admins-remove k [] h = ground arith
count_admins-remove k ((j, w) ∷ m) h =
    ground (arith, count_admins-remove k m, str_eq_iff j k, remove-none j m, remove-none k m)

-- A map of users, with an administrator among them.
pub record IsGoverned (db : UserDb) : Type 0 where
  pub one_each : IsMap db.users
  pub governed : 0 < admin_count db

-- Writing a record keeps an administrator if it takes none away, or if there is another.
put-IsGoverned :
    (db : UserDb) (name : Text) (v : UserRecord)
    → IsGoverned db
    → weight (lookup name db.users) < weight (some v) + admin_count db
    → IsGoverned (record db { users = insert name v db.users })
unfolding admin_count
put-IsGoverned db name v g h = record {
  one_each = insert-IsMap name v db.users g.one_each;
  governed = omega (arith, count_admins-insert name v db.users);
}

module _ (bcrypt : Bcrypt) where
  store-IsGoverned :
      (db db' : UserDb) (name role : Text) (o : Option Text)
      → IsGoverned db
      → weight (lookup name db.users) < (if str_eq role role_admin then 1 else 0) + admin_count db
      → store_hash bcrypt db name role o ≡ ok db'
      → IsGoverned db'
  unfolding store_hash
  store-IsGoverned db db' name role none g w h = cc
  store-IsGoverned db db' name role (some hash) g w h =
      subst IsGoverned (ground arith)
        (put-IsGoverned db name (record { role = role; hash = hash }) g w)

  add-IsGoverned :
      (salt : ℕ) (db db' : UserDb) (name password role : Text)
      → IsGoverned db
      → add bcrypt salt db name password role ≡ ok db'
      → IsGoverned db'
  unfolding add has_key
  add-IsGoverned salt db db' name password role g h =
      store-IsGoverned db db' name role (bcrypt.generate salt password) g
        (ground (arith, g.governed)) (ground arith)

  set_password-IsGoverned :
      (salt : ℕ) (db db' : UserDb) (name password : Text)
      → IsGoverned db
      → set_password bcrypt salt db name password ≡ ok db'
      → IsGoverned db'
  unfolding set_password
  set_password-IsGoverned salt db db' name password g h =
      elim (Option-cases (lookup name db.users)) [
        | inl e ↦ absurd (ground arith)
        | inr (u, e) ↦
            store-IsGoverned db db' name u.role (bcrypt.generate salt password) g
              (rw e (ground (arith, g.governed))) (ground arith)
      ]

set_role-IsGoverned :
    (db db' : UserDb) (name role : Text)
    → IsGoverned db
    → set_role db name role ≡ ok db'
    → IsGoverned db'
unfolding set_role
set_role-IsGoverned db db' name role g h = elim (Option-cases (lookup name db.users)) [
  | inl e ↦ absurd (ground arith)
  | inr (u, e) ↦ subst IsGoverned (ground arith) (
      put-IsGoverned db name (record u { role = role }) g
        (rw e
          (ground (arith, g.governed, str_eq_iff u.role role_admin, str_eq_iff role role_admin))))
]

remove_user-IsGoverned :
    (db db' : UserDb) (name : Text) → IsGoverned db → remove_user db name ≡ ok db' → IsGoverned db'
unfolding remove_user
remove_user-IsGoverned db db' name g h = elim (Option-cases (lookup name db.users)) [
  | inl e ↦ absurd (ground arith)
  | inr (u, e) ↦
      subst IsGoverned {x = record db { users = remove name db.users }} (ground arith) (record {
        one_each = remove-IsMap name db.users g.one_each;
        governed = ground (arith, g.governed, count_admins-remove name db.users g.one_each);
      })
]

-- One operation on the database that succeeds.
pub data Change (bcrypt : Bcrypt) (db db' : UserDb) : Type 0 where
  added :
      (salt : ℕ) (name password role : Text)
      → add bcrypt salt db name password role ≡ ok db'
      → Change bcrypt db db'
  password_set :
      (salt : ℕ) (name password : Text)
      → set_password bcrypt salt db name password ≡ ok db'
      → Change bcrypt db db'
  role_set : (name role : Text) → set_role db name role ≡ ok db' → Change bcrypt db db'
  removed : (name : Text) → remove_user db name ≡ ok db' → Change bcrypt db db'

pub data Changes (bcrypt : Bcrypt) (db : UserDb) : UserDb → Type 0 where
  start : Changes bcrypt db db
  next : {mid db' : UserDb} → Changes bcrypt db mid → Change bcrypt mid db' → Changes bcrypt db db'

Change-IsGoverned :
    (bcrypt : Bcrypt) {db db' : UserDb} → Change bcrypt db db' → IsGoverned db → IsGoverned db'
Change-IsGoverned bcrypt {db} {db'} (added salt n p r h) g =
    add-IsGoverned bcrypt salt db db' n p r g h
Change-IsGoverned bcrypt {db} {db'} (password_set salt n p h) g =
    set_password-IsGoverned bcrypt salt db db' n p g h
Change-IsGoverned bcrypt {db} {db'} (role_set n r h) g = set_role-IsGoverned db db' n r g h
Change-IsGoverned bcrypt {db} {db'} (removed n h) g = remove_user-IsGoverned db db' n g h

-- A database that has an administrator and one record for each name has both after any sequence
-- of successful additions, password changes, role changes and removals.
pub changes-IsGoverned :
    (bcrypt : Bcrypt) {db db' : UserDb} → IsGoverned db → Changes bcrypt db db' → IsGoverned db'
changes-IsGoverned bcrypt g start = g
changes-IsGoverned bcrypt g (next cs c) =
    Change-IsGoverned bcrypt c (changes-IsGoverned bcrypt g cs)
