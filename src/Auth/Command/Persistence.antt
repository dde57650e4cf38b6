-- ===== src/Auth/Command/Persistence.antt =====
-- auth.go: what `user add` writes is what later logins read.
use ship_grip_fim.Base.{
  ℕ, ◌≤◌, ◌<◌, Bool, true, false, ◌≡◌, ◌≢◌, refl, ◌∙◌, inl, inr, some, Option-cases, [], ◌∷◌, ◌++◌,
  arith, Text, lit, ◌==◌, all, any, length, str_eq, str_eq_iff, str_eq_refl, lookup-insert, insert,
  is_nil, trim_right, byte_length, byte_length-append, max_scan_token, contents, ok, is_space,
  Bool-cases, str_eq→eq, &&_parts, lookup-insert_cases, Map,
}
use ship_grip_fim.Auth.Roles.{role_ro, role_rw, role_admin, valid_role}
use ship_grip_fim.Auth.Users.{
  Bcrypt, UserRecord, UserDb, add, check, user_name_matches, is_name_char,
}
use ship_grip_fim.Auth.File.{SaveStep, UsersDir, load_users, render, user_line}
use ship_grip_fim.Auth.File.Entries.{IsEntry, is_colon, is_newline, starts_plain}
use ship_grip_fim.Auth.File.RoundTrip.{IsStored, load_users-render}
use ship_grip_fim.Auth.Command.Errors.{finish_saved}
use ship_grip_fim.Auth.Command.{added, user_command, authenticate, is_error}

-- A bcrypt hash is one word of at most 72 bytes without a ':' (documented: 60 characters out of
-- "./A-Za-z0-9$").
pub record HashText (bcrypt : Bcrypt) : Type 0 where
  pub no_colon : (salt : ℕ) (p h : Text) → bcrypt.generate salt p ≡ some h → any is_colon h ≡ false
  pub one_line :
      (salt : ℕ) (p h : Text) → bcrypt.generate salt p ≡ some h → any is_newline h ≡ false
  pub ends : (salt : ℕ) (p h : Text) → bcrypt.generate salt p ≡ some h → trim_right h ≡ h
  pub given : (salt : ℕ) (p h : Text) → bcrypt.generate salt p ≡ some h → is_nil h ≡ false
  pub short : (salt : ℕ) (p h : Text) → bcrypt.generate salt p ≡ some h → byte_length h ≤ 72

name_char_plain :
    (c : ℕ)
    → is_name_char c ≡ true
    → (is_colon c ≡ false)
      × (is_newline c ≡ false)
      × (is_space c ≡ false)
      × (byte_length (c ∷ []) ≡ 1)
      × ((c == b'#') ≡ false)
unfolding is_name_char is_space byte_length
name_char_plain c h = ground arith

name_plain :
    (n : Text)
    → all is_name_char n ≡ true
    → (any is_colon n ≡ false) × (any is_newline n ≡ false) × (byte_length n ≡ length n)
unfolding byte_length
name_plain [] h = (refl, refl, refl)
name_plain (c ∷ n) h =
    let (first, others) = &&_parts (is_name_char c) (all is_name_char n) h in
    let (colon, newline, space, width, hash) = name_char_plain c first in
    let (colons, newlines, widths) = name_plain n others in
    (rw colon colons, rw newline newlines, omega arith)

name_chars : (n : Text) → user_name_matches n ≡ true → all is_name_char n ≡ true
unfolding user_name_matches
name_chars n h = ground arith

name_sizes : (n : Text) → user_name_matches n ≡ true → (1 ≤ length n) × (length n ≤ 32)
unfolding user_name_matches
name_sizes n h = (ground arith, ground arith)

name_starts : (n : Text) → user_name_matches n ≡ true → starts_plain n ≡ true
name_starts [] h = absurd (omega (arith, name_sizes [] h))
name_starts (c ∷ n) h =
    let chars = &&_parts (is_name_char c) (all is_name_char n) (name_chars (c ∷ n) h) in
    let plain = name_char_plain c chars.0 in rw (plain.2, plain.4)

name_facts :
    (n : Text)
    → user_name_matches n ≡ true
    → (any is_colon n ≡ false) × (any is_newline n ≡ false) × (byte_length n ≤ 32)
name_facts n h =
    let (colons, newlines, widths) = name_plain n (name_chars n h) in
    (colons, newlines, omega (arith, name_sizes n h))

role_short : (r : Text) → valid_role r ≡ true → byte_length r ≤ 5
unfolding valid_role lit byte_length
role_short r h = elim (Bool-cases (str_eq r role_ro)) [
  | inl a ↦ rw (str_eq→eq r role_ro a) (omega arith)
  | inr na ↦ elim (Bool-cases (str_eq r role_rw)) [
    | inl b ↦ rw (str_eq→eq r role_rw b) (omega arith)
    | inr nb ↦ elim (Bool-cases (str_eq r role_admin)) [
      | inl c ↦ rw (str_eq→eq r role_admin c) (omega arith)
      | inr nc ↦ absurd (ground arith)
    ]
  ]
]

colon_width : byte_length (b':' ∷ []) ≡ 1
unfolding byte_length
colon_width = refl

insert-IsStored :
    (users : Map UserRecord) (n : Text) (u : UserRecord)
    → IsStored users
    → IsEntry n u
    → byte_length (user_line n u) < max_scan_token
    → IsStored (insert n u users)
insert-IsStored users n u s e f = record {
  entry = λ k v found. elim (lookup-insert_cases n k u v users found) [
    | inl (p, q) ↦ rw (p, q) e
    | inr old ↦ s.entry k v old
  ];
  fits = λ k v found. elim (lookup-insert_cases n k u v users found) [
    | inl (p, q) ↦ rw (p, q) f
    | inr old ↦ s.fits k v old
  ];
}

module _ (bcrypt : Bcrypt) where
  check_inserted :
      (salt : ℕ) (db : UserDb) (name password role hash : Text)
      → bcrypt.generate salt password ≡ some hash
      → let db' = record db {
        users = insert name (record { role = role; hash = hash }) db.users;
      } in
        (check bcrypt db' name password ≡ some role)
        × ((other p : Text) → other ≢ name → check bcrypt db' other p ≡ check bcrypt db other p)
  unfolding check
  check_inserted salt db name password role hash g = (
    rw (lookup-insert, str_eq_refl) (ground (arith, bcrypt.matches-generate salt password hash g)),
    λ other p ne. rw lookup-insert (ground (arith, str_eq_iff name other, ne)),
  )

  authenticate-render :
      (path : Text) (db : UserDb)
      → IsStored db.users
      → (name p : Text)
      → authenticate bcrypt path (contents (render db)) name p ≡ check bcrypt db name p
  unfolding authenticate check
  authenticate-render path db s name p =
      let (fine, same) = load_users-render path db s in ground (arith, fine, same name)

  -- A successful `user add` has added to the loaded database and saved the result.
  add_succeeded :
      (fails : SaveStep → Bool) (salt : ℕ) (path name password role : Text) (dir dir' : UsersDir)
      → user_command bcrypt fails salt path (lit "add" ∷ name ∷ password ∷ role ∷ []) dir
        ≡ (added name role, dir')
      → (db' : UserDb) × (add bcrypt salt (load_users path dir.file).0 name password role ≡ ok db')
        × (dir'.file ≡ contents (render db'))
  unfolding user_command str_eq lit
  add_succeeded fails salt path name password role dir dir' h =
      finish_saved fails dir dir' (added name role)
        (add bcrypt salt (load_users path dir.file).0 name password role) (unfold is_error in refl)
        (ground arith)

module _ (bcrypt : Bcrypt) (texts : HashText bcrypt) where
  -- A user that `add` accepts can be written and read back.
  new-IsEntry :
      (salt : ℕ) (name password role hash : Text)
      → user_name_matches name ≡ true
      → valid_role role ≡ true
      → bcrypt.generate salt password ≡ some hash
      → IsEntry name (record { role = role; hash = hash })
  new-IsEntry salt name password role hash n r g = record {
    name_starts = name_starts name n;
    name_no_colon = (name_facts name n).0;
    name_one_line = (name_facts name n).1;
    role_valid = r;
    hash_no_colon = texts.no_colon salt password hash g;
    hash_one_line = texts.one_line salt password hash g;
    hash_ends = texts.ends salt password hash g;
    hash_given = texts.given salt password hash g;
  }

  new_fits :
      (salt : ℕ) (name password role hash : Text)
      → user_name_matches name ≡ true
      → valid_role role ≡ true
      → bcrypt.generate salt password ≡ some hash
      → byte_length (user_line name (record { role = role; hash = hash })) < max_scan_token
  unfolding user_line
  new_fits salt name password role hash n r g = omega (
    arith,
    byte_length-append name (b':' ∷ (role ++ (b':' ∷ hash))),
    byte_length-append (b':' ∷ []) (role ++ (b':' ∷ hash)),
    byte_length-append role (b':' ∷ hash),
    byte_length-append (b':' ∷ []) hash,
    colon_width,
    (name_facts name n).2,
    role_short role r,
    texts.short salt password hash g,
  )

  -- What a successful `add` has checked and stored.
  add_inversion :
      (salt : ℕ) (db db' : UserDb) (name password role : Text)
      → add bcrypt salt db name password role ≡ ok db'
      → (hash : Text) × (user_name_matches name ≡ true)
        × (valid_role role ≡ true)
        × (bcrypt.generate salt password ≡ some hash)
        × (db' ≡ record db { users = insert name (record { role = role; hash = hash }) db.users })
  unfolding add
  add_inversion salt db db' name password role h =
      elim (Option-cases (bcrypt.generate salt password)) [
        | inl e ↦ absurd (ground arith)
        | inr (hash, e) ↦ (hash, ground arith, ground arith, e, ground arith)
      ]

  add-IsStored :
      (salt : ℕ) (db db' : UserDb) (name password role : Text)
      → IsStored db.users
      → add bcrypt salt db name password role ≡ ok db'
      → IsStored db'.users
  add-IsStored salt db db' name password role s h =
      let (hash, n, r, g, e) = add_inversion salt db db' name password role h in
      rw e (
        insert-IsStored db.users name (record { role = role; hash = hash }) s
          (new-IsEntry salt name password role hash n r g)
          (new_fits salt name password role hash n r g))

  check-add :
      (salt : ℕ) (db db' : UserDb) (name password role : Text)
      → add bcrypt salt db name password role ≡ ok db'
      → (check bcrypt db' name password ≡ some role)
        × ((other p : Text) → other ≢ name → check bcrypt db' other p ≡ check bcrypt db other p)
  check-add salt db db' name password role h =
      let (hash, n, r, g, e) = add_inversion salt db db' name password role h in
      rw e (check_inserted bcrypt salt db name password role hash g)

  -- After a successful `user add name password role` on a file whose entries all read back, the new
  -- user logs in with that password and has that role, and the login of any other name, with any
  -- password, comes out as the users that the old file held decide it.
  pub add_then_authenticate :
      (fails : SaveStep → Bool) (salt : ℕ) (path name password role : Text) (dir dir' : UsersDir)
      → IsStored (load_users path dir.file).0.users
      → user_command bcrypt fails salt path (lit "add" ∷ name ∷ password ∷ role ∷ []) dir
        ≡ (added name role, dir')
      → (authenticate bcrypt path dir'.file name password ≡ some role)
        × ((other p : Text)
            → other ≢ name
            → authenticate bcrypt path dir'.file other p
              ≡ check bcrypt (load_users path dir.file).0 other p)
  add_then_authenticate fails salt path name password role dir dir' s h =
      let db = (load_users path dir.file).0 in
      let (db', done, file) = add_succeeded bcrypt fails salt path name password role dir dir' h in
      let (mine, others) = check-add salt db db' name password role done in
      let read =
        authenticate-render bcrypt path db' (add-IsStored salt db db' name password role s done) in
      rw file ((read name password ∙ mine), λ other p ne. read other p ∙ others other p ne)
