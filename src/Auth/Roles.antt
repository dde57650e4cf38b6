-- ===== src/Auth/Roles.antt =====
-- auth.go: the three roles, what each allows, and the role that a command line needs.
pub mod Matrix
use ship_grip_fim.Base.{
  ℕ, Bool, ◌&&◌, ◌||◌, List, [], ◌∷◌, Text, lit, str_eq, ltb, leb, if◌then◌else◌,
}

abbrev pub role_ro : Text
role_ro = lit "ro"

abbrev pub role_rw : Text
role_rw = lit "rw"

abbrev pub role_admin : Text
role_admin = lit "admin"

-- A missing key of the Go map gives 0.
unfoldable pub role_rank : Text → ℕ
role_rank r =
    if str_eq r role_ro
    then 1
    else if str_eq r role_rw
    then 2
    else if str_eq r role_admin
    then 3
    else 0

unfoldable pub valid_role : Text → Bool
unfolding role_rank
valid_role r = ltb 0 (role_rank r)

unfoldable pub role_allows : Text → Text → Bool
unfolding role_rank
role_allows have need = leb (role_rank need) (role_rank have) && ltb 0 (role_rank need)

schedule_role : List Text → Text
schedule_role [] = role_ro
schedule_role (sub ∷ rest) =
    if str_eq sub (lit "add") || str_eq sub (lit "remove") then role_rw else role_ro

user_role : List Text → Text
user_role [] = role_admin
user_role (sub ∷ rest) = if str_eq sub (lit "passwd") then role_ro else role_admin

unfoldable pub command_role : List Text → Text
unfolding schedule_role user_role
command_role [] = role_ro
command_role (cmd ∷ rest) =
    if str_eq cmd (lit "scan")
    then role_rw
    else if str_eq cmd (lit "schedule")
    then schedule_role rest
    else if str_eq cmd (lit "user")
    then user_role rest
    else role_ro
