-- ===== src/QuickCompare/Sorted.antt =====
-- quickcompare.go: the order of dated reports.
use ship_grip_fim.Base.{
  ℕ, ◌≤◌, ◌<◌, ◌≡◌, refl, subst, inl, inr, none, List, [], ◌∷◌, ltb, length, arith, Bool-cases, suc,
  All, keep, In, here, there,
}
use ship_grip_fim.QuickCompare.{Dated, insert_dated, sort_dated, newest_two}

-- No report is older than the one before.
abbrev pub IsChronological : List Dated → Type 0
IsChronological [] = Unit
IsChronological (d ∷ ds) = All (λ e. d.time ≤ e.time) ds × IsChronological ds

-- How many reports are newer than a time.
abbrev pub newer_count : ℕ → List Dated → ℕ
newer_count t ds = length (keep (λ e. ltb t e.time) ds)

insert-count :
    (t : ℕ) (d : Dated) (es : List Dated)
    → newer_count t (insert_dated d es) ≡ newer_count t (d ∷ es)
unfolding insert_dated
insert-count t d [] = refl
insert-count t d (e ∷ es) = ground (arith, insert-count t d es)

pub sort-count : (t : ℕ) (ds : List Dated) → newer_count t (sort_dated ds) ≡ newer_count t ds
unfolding sort_dated
sort-count t [] = refl
sort-count t (d ∷ ds) = ground (arith, insert-count t d (sort_dated ds), sort-count t ds)

All-weaken :
    (t u : ℕ) (ds : List Dated) → t ≤ u → All (λ e. u ≤ e.time) ds → All (λ e. t ≤ e.time) ds
All-weaken t u [] h k = tt
All-weaken t u (d ∷ ds) h k = (ground arith, All-weaken t u ds h k.1)

All-insert :
    (t : ℕ) (d : Dated) (es : List Dated)
    → t ≤ d.time
    → All (λ e. t ≤ e.time) es
    → All (λ e. t ≤ e.time) (insert_dated d es)
unfolding insert_dated
All-insert t d [] h k = (h, tt)
All-insert t d (e ∷ es) h k = elim (Bool-cases (ltb e.time d.time)) [
  | inl c ↦ rw c (k.0, All-insert t d es h k.1)
  | inr c ↦ rw c (h, k)
]

insert-IsChronological :
    (d : Dated) (es : List Dated) → IsChronological es → IsChronological (insert_dated d es)
unfolding insert_dated
insert-IsChronological d [] h = (tt, tt)
insert-IsChronological d (e ∷ es) h = elim (Bool-cases (ltb e.time d.time)) [
  | inl c ↦ rw c (All-insert e.time d es (ground arith) h.0, insert-IsChronological d es h.1)
  | inr c ↦ rw c ((ground arith, All-weaken d.time e.time es (ground arith) h.0), h)
]

pub sort-IsChronological : (ds : List Dated) → IsChronological (sort_dated ds)
unfolding sort_dated
sort-IsChronological [] = tt
sort-IsChronological (d ∷ ds) = insert-IsChronological d (sort_dated ds) (sort-IsChronological ds)

skip_second : (x d e : Dated) (es : List Dated) → In x (d ∷ es) → In x (d ∷ e ∷ es)
skip_second x d e es here = here
skip_second x d e es (there m) = there (there m)

swap_first :
    (x d e : Dated) (es : List Dated)
    → (In x (insert_dated d es) → In x (d ∷ es))
    → In x (e ∷ insert_dated d es)
    → In x (d ∷ e ∷ es)
swap_first x d e es f here = there here
swap_first x d e es f (there m) = skip_second x d e es (f m)

In-insert : (x d : Dated) (es : List Dated) → In x (insert_dated d es) → In x (d ∷ es)
unfolding insert_dated
In-insert x d [] h = h
In-insert x d (e ∷ es) h = elim (Bool-cases (ltb e.time d.time)) [
  | inl c ↦ swap_first x d e es (λ m. In-insert x d es m) (subst (In x) (rw c refl) h)
  | inr c ↦ subst (In x) (rw c refl) h
]

map_rest : (x d : Dated) (es ds : List Dated) → (In x es → In x ds) → In x (d ∷ es) → In x (d ∷ ds)
map_rest x d es ds f here = here
map_rest x d es ds f (there m) = there (f m)

pub In-sort : (x : Dated) (ds : List Dated) → In x (sort_dated ds) → In x ds
unfolding sort_dated
In-sort x [] h = elim h [ ]
In-sort x (d ∷ ds) h =
    map_rest x d (sort_dated ds) ds (λ m. In-sort x ds m) (In-insert x d (sort_dated ds) h)

pub All-In : (t : ℕ) (ds : List Dated) (x : Dated) → All (λ e. t ≤ e.time) ds → In x ds → t ≤ x.time
All-In t [] x h m = elim m [ ]
All-In t (d ∷ ds) x h here = h.0
All-In t (d ∷ ds) x h (there m) = All-In t ds x h.1 m

insert-length : (d : Dated) (es : List Dated) → length (insert_dated d es) ≡ suc (length es)
unfolding insert_dated
insert-length d [] = refl
insert-length d (e ∷ es) = ground (arith, insert-length d es)

pub sort-length : (ds : List Dated) → length (sort_dated ds) ≡ length ds
unfolding sort_dated
sort-length [] = refl
sort-length (d ∷ ds) = omega (arith, insert-length d (sort_dated ds), sort-length ds)

pub newest_two-none : (ds : List Dated) → newest_two ds ≡ none → length ds < 2
unfolding newest_two
newest_two-none [] h = omega arith
newest_two-none (x ∷ []) h = omega arith
newest_two-none (x ∷ y ∷ []) h = absurd (ground arith)
newest_two-none (x ∷ y ∷ z ∷ xs) h = absurd (ground (arith, newest_two-none (y ∷ z ∷ xs) h))
