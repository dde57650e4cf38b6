-- ===== src/Auth/Roles/Matrix.antt =====
-- Which role may run which command line, against a description of the commands by what they do.
use ship_grip_fim.Base.{
  true, false, ◌≡◌, ◌≢◌, refl, ◌⊎◌, inl, inr, ◌↔◌, List, [], ◌∷◌, arith, Text, lit, str_eq,
  str_eq_iff, str_eq→eq, Bool-cases,
}
use ship_grip_fim.Auth.Roles.{role_ro, role_rw, role_admin, role_rank, role_allows, command_role}

-- Commands that start a scan or change the schedule.
pub data Writes : List Text → Type 0 where
  scan : (rest : List Text) → Writes (lit "scan" ∷ rest)
  add : (rest : List Text) → Writes (lit "schedule" ∷ lit "add" ∷ rest)
  remove : (rest : List Text) → Writes (lit "schedule" ∷ lit "remove" ∷ rest)

-- Commands that manage users, a change of password apart.
pub data Manages : List Text → Type 0 where
  bare : Manages (lit "user" ∷ [])
  other : (sub : Text) (rest : List Text) → sub ≢ lit "passwd" → Manages (lit "user" ∷ sub ∷ rest)

Writes_role : {parts : List Text} → Writes parts → command_role parts ≡ role_rw
unfolding command_role str_eq lit
Writes_role (scan rest) = refl
Writes_role (add rest) = refl
Writes_role (remove rest) = refl

Manages-role : {parts : List Text} → Manages parts → command_role parts ≡ role_admin
unfolding command_role str_eq lit
Manages-role bare = refl
Manages-role (other sub rest n) = ground (arith, str_eq_iff sub (lit "passwd"))

-- The role that a command line needs, with the reason.
data Need (parts : List Text) : Type 0 where
  reads : command_role parts ≡ role_ro → Need parts
  writes : Writes parts → Need parts
  manages : Manages parts → Need parts

schedule-Need : (rest : List Text) → Need (lit "schedule" ∷ rest)
unfolding command_role str_eq lit
schedule-Need [] = reads refl
schedule-Need (sub ∷ rest) = elim (Bool-cases (str_eq sub (lit "add"))) [
  | inl a ↦ writes (rw (str_eq→eq sub (lit "add") a) (add rest))
  | inr na ↦ elim (Bool-cases (str_eq sub (lit "remove"))) [
    | inl r ↦ writes (rw (str_eq→eq sub (lit "remove") r) (remove rest))
    | inr nr ↦ reads (ground arith)
  ]
]

user-Need : (rest : List Text) → Need (lit "user" ∷ rest)
unfolding command_role str_eq lit
user-Need [] = manages bare
user-Need (sub ∷ rest) = elim (Bool-cases (str_eq sub (lit "passwd"))) [
  | inl p ↦ reads (ground arith)
  | inr n ↦ manages (other sub rest (λ e. cc ((str_eq_iff sub (lit "passwd")).1 e)))
]

command-Need : (parts : List Text) → Need parts
unfolding command_role
command-Need [] = reads refl
command-Need (cmd ∷ rest) = elim (Bool-cases (str_eq cmd (lit "scan"))) [
  | inl a ↦ writes (rw (str_eq→eq cmd (lit "scan") a) (scan rest))
  | inr na ↦ elim (Bool-cases (str_eq cmd (lit "schedule"))) [
    | inl b ↦ rw (str_eq→eq cmd (lit "schedule") b) (schedule-Need rest)
    | inr nb ↦ elim (Bool-cases (str_eq cmd (lit "user"))) [
      | inl c ↦ rw (str_eq→eq cmd (lit "user") c) (user-Need rest)
      | inr nc ↦ reads (ground arith)
    ]
  ]
]

ranks : (role_rank role_ro ≡ 1) × (role_rank role_rw ≡ 2) × (role_rank role_admin ≡ 3)
unfolding role_rank str_eq lit
ranks = (refl, refl, refl)

-- The ro role is refused a command line exactly when the command starts a scan, adds or removes a
-- scheduled job, or manages users in another way than by changing a password.
pub ro_refused :
    (parts : List Text)
    → (role_allows role_ro (command_role parts) ≡ false) ↔ (Writes parts ⊎ Manages parts)
unfolding role_allows
ro_refused parts = (forward, backward)
  where
    forward : role_allows role_ro (command_role parts) ≡ false → Writes parts ⊎ Manages parts
    forward h = elim (command-Need parts) [
      | reads e ↦ absurd (ground (arith, ranks))
      | writes w ↦ inl w
      | manages m ↦ inr m
    ]

    backward : Writes parts ⊎ Manages parts → role_allows role_ro (command_role parts) ≡ false
    backward (inl w) = rw (Writes_role w) (ground (arith, ranks))
    backward (inr m) = rw (Manages-role m) (ground (arith, ranks))

-- The rw role is refused a command line exactly when it manages users in another way than by
-- changing a password, and the admin role is refused nothing.
pub rw_refused :
    (parts : List Text)
    → ((role_allows role_rw (command_role parts) ≡ false) ↔ Manages parts)
      × (role_allows role_admin (command_role parts) ≡ true)
unfolding role_allows
rw_refused parts = ((forward, backward), admin (command-Need parts))
  where
    forward : role_allows role_rw (command_role parts) ≡ false → Manages parts
    forward h = elim (command-Need parts) [
      | reads e ↦ absurd (ground (arith, ranks))
      | writes w ↦ absurd (ground (arith, ranks, Writes_role w))
      | manages m ↦ m
    ]

    backward : Manages parts → role_allows role_rw (command_role parts) ≡ false
    backward m = rw (Manages-role m) (ground (arith, ranks))

    admin : Need parts → role_allows role_admin (command_role parts) ≡ true
    admin (reads e) = ground (arith, ranks)
    admin (writes w) = ground (arith, ranks, Writes_role w)
    admin (manages m) = ground (arith, ranks, Manages-role m)
