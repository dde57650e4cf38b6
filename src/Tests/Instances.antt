-- ===== src/Tests/Instances.antt =====
-- A concrete password hash and a concrete cron engine, which show that what is assumed of bcrypt and
-- of robfig/cron can hold.
use ship_grip_fim.Base.{
  ℕ, suc, ◌+◌, ◌%◌, ◌≤◌, Bool, true, false, ◌≡◌, refl, ◌||◌, ◌==◌, not, Option, none, some, List,
  [], ◌∷◌, Text, arith, any, keep, is_nil, str_eq, str_eq_refl, if◌then◌else◌, byte_length,
  trim_right, is_space,
}
use ship_grip_fim.Auth.Users.{Bcrypt}
use ship_grip_fim.Auth.Command.Persistence.{HashText}
use ship_grip_fim.Auth.File.Entries.{is_colon, is_newline}
use ship_grip_fim.Scheduler.Jobs.{Cron}

abbrev pub checksum : Text → ℕ
checksum [] = 0
checksum (c ∷ s) = c + checksum s

-- One digit.
abbrev pub digest : Text → Text
digest p = (b'0' + checksum p % 10) ∷ []

pub matches_own : (p hash : Text) → some (digest p) ≡ some hash → str_eq hash (digest p) ≡ true
matches_own p hash e = ground (arith, str_eq_refl (digest p), e)

abbrev pub toy_bcrypt : Bcrypt
toy_bcrypt = record {
  generate = λ salt p. some (digest p);
  matches = λ hash p. str_eq hash (digest p);
  matches-generate = λ salt p hash e. matches_own p hash e;
}

pub digest_lem :
    (p hash : Text)
    → some (digest p) ≡ some hash
    → (any is_colon hash ≡ false)
      × (any is_newline hash ≡ false)
      × (trim_right hash ≡ hash)
      × (is_nil hash ≡ false)
      × (byte_length hash ≤ 72)
unfolding trim_right byte_length is_space
digest_lem p [] e = absurd (ground (arith, e))
digest_lem p (c ∷ d ∷ s) e = absurd (ground (arith, e))
digest_lem p (c ∷ []) e = ground (arith, e)

pub toy_texts : HashText toy_bcrypt
toy_texts = record {
  no_colon = λ salt p h e. (digest_lem p h e).0;
  one_line = λ salt p h e. (digest_lem p h e).1;
  ends = λ salt p h e. (digest_lem p h e).2;
  given = λ salt p h e. (digest_lem p h e).3;
  short = λ salt p h e. (digest_lem p h e).4;
}

abbrev pub total : List ℕ → ℕ
total [] = 0
total (i ∷ is) = i + total is

abbrev pub has : List ℕ → ℕ → Bool
has e j = any (λ i. j == i) e

pub has_above : (e : List ℕ) (n : ℕ) → total e ≤ n → has e (suc n) ≡ false
has_above [] n h = refl
has_above (i ∷ e) n h = ground (arith, has_above e n)

pub has-remove :
    (e : List ℕ) (i j : ℕ)
    → has (keep (λ k. not (k == i)) e) j ≡ (if j == i then false else has e j)
has-remove [] i j = ground arith
has-remove (k ∷ e) i j = ground (arith, has-remove e i j)

abbrev pub toy_add : List ℕ → Text → Option (List ℕ × ℕ)
toy_add e schedule = if is_nil schedule then none else some (suc (total e) ∷ e, suc (total e))

pub add_fresh_lem :
    (e e' : List ℕ) (schedule : Text) (i : ℕ) → toy_add e schedule ≡ some (e', i) → has e i ≡ false
add_fresh_lem e e' schedule i h = ground (arith, h, has_above e (total e))

pub has-add :
    (e e' : List ℕ) (schedule : Text) (i j : ℕ)
    → toy_add e schedule ≡ some (e', i)
    → has e' j ≡ (j == i) || has e j
has-add e e' schedule i j h = ground (arith, h)

-- The list of the entries; a new one gets a number above all of them.
abbrev pub toy_cron : Cron
toy_cron = record {
  Engine = List ℕ;
  new = [];
  has_entry = has;
  add_func = toy_add;
  remove_entry = λ e i. keep (λ k. not (k == i)) e;
  has_entry-new = λ i. refl;
  add_fresh = add_fresh_lem;
  has_entry-add = has-add;
  has_entry-remove = has-remove;
}
