-- ===== src/Auth/File/Entries.antt =====
-- auth.go: which users survive being written to the users file and read back.
use ship_grip_fim.Base.{
  ℕ, ◌<◌, Bool, true, false, ◌≡◌, refl, [], ◌∷◌, ◌++◌, arith, Text, lit, ◌==◌, any, is_nil, not,
  ◌||◌, is_space, str_eq, str_eq→eq, trim_right, trim_space, split, split_by-append, split_by_whole,
  is_comment, IsLine, byte_length, max_scan_token, Map, insert, trim_right-append, drop_cr-trimmed,
  trim_space_fixed, any-append, Bool-cases, inl, inr,
}
use ship_grip_fim.Auth.Roles.{role_ro, role_rw, role_admin, valid_role}
use ship_grip_fim.Auth.Users.{UserRecord}
use ship_grip_fim.Auth.File.{user_line, load_line}

abbrev pub is_colon : ℕ → Bool
is_colon d = d == b':'

abbrev pub is_newline : ℕ → Bool
is_newline d = d == 10

-- Neither empty, nor starting with a space or with '#'.
abbrev pub starts_plain : Text → Bool
starts_plain [] = false
starts_plain (c ∷ s) = not (is_space c || c == b'#')

-- A user whose line reads back as it was written, if it fits the scanner's buffer.
pub record IsEntry (n : Text) (u : UserRecord) : Type 0 where
  pub name_starts : starts_plain n ≡ true
  pub name_no_colon : any is_colon n ≡ false
  pub name_one_line : any is_newline n ≡ false
  pub role_valid : valid_role u.role ≡ true
  pub hash_no_colon : any is_colon u.hash ≡ false
  pub hash_one_line : any is_newline u.hash ≡ false
  pub hash_ends : trim_right u.hash ≡ u.hash
  pub hash_given : is_nil u.hash ≡ false

pub valid_role_plain :
    (r : Text) → valid_role r ≡ true → (any is_colon r ≡ false) × (any is_newline r ≡ false)
unfolding valid_role lit
valid_role_plain r h = elim (Bool-cases (str_eq r role_ro)) [
  | inl a ↦ rw (str_eq→eq r role_ro a) (refl, refl)
  | inr na ↦ elim (Bool-cases (str_eq r role_rw)) [
    | inl b ↦ rw (str_eq→eq r role_rw b) (refl, refl)
    | inr nb ↦ elim (Bool-cases (str_eq r role_admin)) [
      | inl c ↦ rw (str_eq→eq r role_admin c) (refl, refl)
      | inr nc ↦ absurd (ground arith)
    ]
  ]
]

user_line_trimmed :
    (n : Text) (u : UserRecord) → IsEntry n u → trim_right (user_line n u) ≡ user_line n u
unfolding user_line
user_line_trimmed n u e =
    let tail = trim_right-append (b':' ∷ []) u.hash e.hash_ends e.hash_given in
    let rest = trim_right-append (b':' ∷ u.role) (b':' ∷ u.hash) tail refl in
    trim_right-append n (b':' ∷ (u.role ++ (b':' ∷ u.hash))) rest refl

pub user_line-IsLine :
    (n : Text) (u : UserRecord)
    → IsEntry n u
    → byte_length (user_line n u) < max_scan_token
    → IsLine max_scan_token (user_line n u)
unfolding user_line
user_line-IsLine n u e h = record {
  one_line =
      let role = (valid_role_plain u.role e.role_valid).1 in
      simp (any-append, e.name_one_line, role, e.hash_one_line);
  no_cr = drop_cr-trimmed _ (user_line_trimmed n u e);
  fits = h;
}

split-user_line :
    (n : Text) (u : UserRecord)
    → IsEntry n u
    → split b':' (user_line n u) ≡ n ∷ u.role ∷ u.hash ∷ []
unfolding user_line split
split-user_line n u e =
    let role = (valid_role_plain u.role e.role_valid).0 in
    rw (split_by-append is_colon n b':' (u.role ++ (b':' ∷ u.hash)) e.name_no_colon refl) (
      rw (split_by-append is_colon u.role b':' u.hash role refl)
        (rw (split_by_whole is_colon u.hash e.hash_no_colon)))

name_given : (n : Text) → starts_plain n ≡ true → is_nil n ≡ false
name_given [] h = cc
name_given (c ∷ s) h = refl

start_fixed :
    (n rest : Text)
    → starts_plain n ≡ true
    → trim_right (n ++ rest) ≡ n ++ rest
    → (trim_space (n ++ rest) ≡ n ++ rest) × (is_comment (n ++ rest) ≡ false)
unfolding is_comment
start_fixed [] rest h t = cc
start_fixed (c ∷ s) rest h t = (trim_space_fixed c (s ++ rest) (ground arith) t, ground arith)

user_line_start :
    (n : Text) (u : UserRecord)
    → IsEntry n u
    → (trim_space (user_line n u) ≡ user_line n u) × (is_comment (user_line n u) ≡ false)
unfolding user_line
user_line_start n u e =
    start_fixed n (b':' ∷ (u.role ++ (b':' ∷ u.hash))) e.name_starts (user_line_trimmed n u e)

-- Reading the line of a user puts that user back.
pub load_line-user_line :
    (n : Text) (u : UserRecord) (users : Map UserRecord)
    → IsEntry n u
    → load_line (user_line n u) users ≡ insert n u users
unfolding load_line
load_line-user_line n u users e =
    let (trimmed, plain) = user_line_start n u e in
    rw (trimmed, plain, split-user_line n u e)
      (ground (arith, e.role_valid, e.hash_given, name_given n e.name_starts))
