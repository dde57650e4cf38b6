-- ===== src/Auth/File/RoundTrip.antt =====
-- auth.go: `loadUsers` after `save` gives the users that were saved.
use ship_grip_fim.Base.{
  ◌<◌, true, ◌≡◌, refl, sym, ◌∙◌, inl, inr, none, some, Option-cases, List, [], ◌∷◌, map, arith,
  Text, lit, str_eq_iff, str_eq_refl, elem, elem-sort_strings, elem-keys, Map, lookup, insert, keys,
  has_key, lookup-insert, if◌then◌else◌, All, IsLine, byte_length, max_scan_token, contents,
  scan_lines-unlines, drop_cr, is_comment, trim_space,
}
use ship_grip_fim.Auth.Users.{UserRecord, UserDb, names}
use ship_grip_fim.Auth.File.{
  load_lines, load_line, load_users, line_of, user_line, header_line, render,
}
use ship_grip_fim.Auth.File.Entries.{IsEntry, user_line-IsLine, load_line-user_line}

-- Every user's line reads back as it was written.
pub record IsStored (users : Map UserRecord) : Type 0 where
  pub entry : (n : Text) (u : UserRecord) → lookup n users ≡ some u → IsEntry n u
  pub fits :
      (n : Text) (u : UserRecord)
      → lookup n users ≡ some u
      → byte_length (user_line n u) < max_scan_token

abbrev AllKnown : Map UserRecord → List Text → Type 0
AllKnown users ns = (n : Text) → elem n ns ≡ true → has_key n users ≡ true

known_head :
    (users : Map UserRecord) (n : Text) (ns : List Text)
    → AllKnown users (n ∷ ns)
    → (u : UserRecord) × (lookup n users ≡ some u)
unfolding has_key
known_head users n ns h = elim (Option-cases (lookup n users)) [
  | inl e ↦ absurd (ground (arith, h n, str_eq_refl n))
  | inr found ↦ found
]

known_tail :
    (users : Map UserRecord) (n : Text) (ns : List Text)
    → AllKnown users (n ∷ ns)
    → AllKnown users ns
known_tail users n ns h k e = h k (ground arith)

line_of-known :
    (users : Map UserRecord) (n : Text) (u : UserRecord)
    → lookup n users ≡ some u
    → line_of users n ≡ user_line n u
unfolding line_of
line_of-known users n u e = ground (arith, e)

lookup-load_lines :
    (users : Map UserRecord) (ns : List Text) (k : Text) (acc : Map UserRecord)
    → IsStored users
    → AllKnown users ns
    → lookup k (load_lines (map (line_of users) ns) acc)
      ≡ (if elem k ns then lookup k users else lookup k acc)
unfolding load_lines
lookup-load_lines users [] k acc s h = refl
lookup-load_lines users (n ∷ ns) k acc s h =
    let (u, e) = known_head users n ns h in
    rw
      (
        line_of-known users n u e,
        load_line-user_line n u acc (s.entry n u e),
        lookup-load_lines users ns k (insert n u acc) s (known_tail users n ns h),
        lookup-insert n k u acc,
      )
      (ground (arith, e, str_eq_iff n k))

lines-IsLine :
    (users : Map UserRecord) (ns : List Text)
    → IsStored users
    → AllKnown users ns
    → All (IsLine max_scan_token) (map (line_of users) ns)
lines-IsLine users [] s h = tt
lines-IsLine users (n ∷ ns) s h =
    let (u, e) = known_head users n ns h in
    (
      rw (line_of-known users n u e) (user_line-IsLine n u (s.entry n u e) (s.fits n u e)),
      lines-IsLine users ns s (known_tail users n ns h),
    )

header-IsLine : IsLine max_scan_token header_line
unfolding lit drop_cr byte_length
header-IsLine = record { one_line = refl; no_cr = refl; fits = omega arith }

header_skipped : (acc : Map UserRecord) → load_line header_line acc ≡ acc
unfolding load_line lit is_comment trim_space
header_skipped acc = refl

elem-names : (db : UserDb) (k : Text) → elem k (names db) ≡ has_key k db.users
unfolding names
elem-names db k = elem-sort_strings k (keys db.users) ∙ elem-keys k db.users

names_known : (db : UserDb) → AllKnown db.users (names db)
names_known db n h = sym (elem-names db n) ∙ h

known_lookup :
    (db : UserDb) (k : Text)
    → (if elem k (names db) then lookup k db.users else lookup k []) ≡ lookup k db.users
unfolding has_key lookup
known_lookup db k = ground (arith, elem-names db k)

-- If every user's line reads back (the name starts with neither a space nor '#' and is not empty, the
-- role is one of the three, the hash is not empty and ends in no space, none of name and hash has a
-- colon or a newline) and is shorter than the buffer of the scanner, then reading the file that `save`
-- wrote succeeds, and gives every name the record that it had, and no record to any other name.
pub load_users-render :
    (path : Text) (db : UserDb)
    → IsStored db.users
    → ((load_users path (contents (render db))).1 ≡ none)
      × ((k : Text) → lookup k (load_users path (contents (render db))).0.users ≡ lookup k db.users)
unfolding load_users render
load_users-render path db s =
    let scanned =
      scan_lines-unlines max_scan_token (header_line ∷ map (line_of db.users) (names db))
        (header-IsLine, lines-IsLine db.users (names db) s (names_known db)) in
    (
      rw scanned,
      λ k.
          rw (scanned, load_lines)
            (rw header_skipped
              (lookup-load_lines db.users (names db) k [] s (names_known db) ∙ known_lookup db k)),
    )
