-- ===== src/QuickCompare/Distinct.antt =====
-- quickcompare.go: reports of different names stay different through the loop and the sorting.
use ship_grip_fim.Base.{
  Bool, false, ◌≡◌, refl, sym, ap, ◌∙◌, inl, inr, Bool-cases, some, List, [], ◌∷◌, Text, any, arith,
  ltb, str_eq, str_eq_refl, str_eq_iff, ◌==◌,
}
use ship_grip_fim.QuickCompare.{
  ParseTime, Dated, is_scan_of, parse_report_timestamp, matching_reports, insert_dated, sort_dated,
  newest_two,
}

abbrev pub is_among : Text → List Text → Bool
is_among x ns = any (λ n. str_eq x n) ns

-- No name twice, as in a directory.
abbrev pub AreDistinct : List Text → Type 0
AreDistinct [] = Unit
AreDistinct (n ∷ ns) = (is_among n ns ≡ false) × AreDistinct ns

abbrev has_name : Text → List Dated → Bool
has_name x ds = any (λ d. str_eq x d.name) ds

abbrev HaveDistinct : List Dated → Type 0
HaveDistinct [] = Unit
HaveDistinct (d ∷ ds) = (has_name d.name ds ≡ false) × HaveDistinct ds

str_eq_apart : (a b : Text) → str_eq a b ≡ false → str_eq b a ≡ false
str_eq_apart a b h = elim (Bool-cases (str_eq b a)) [
  | inl e ↦ cc (sym (str_eq_refl b) ∙ ap (λ n. str_eq n b) ((str_eq_iff b a).0 e) ∙ h)
  | inr e ↦ e
]

matching-has_name :
    (parse : ParseTime) (rn x : Text) (ns : List Text)
    → is_among x ns ≡ false
    → has_name x (matching_reports parse rn ns) ≡ false
unfolding matching_reports
matching-has_name parse rn x [] h = refl
matching-has_name parse rn x (n ∷ ns) h = ground (arith, matching-has_name parse rn x ns)

matching-HaveDistinct :
    (parse : ParseTime) (rn : Text) (ns : List Text)
    → AreDistinct ns
    → HaveDistinct (matching_reports parse rn ns)
unfolding matching_reports
matching-HaveDistinct parse rn [] h = tt
matching-HaveDistinct parse rn (n ∷ ns) h =
    let later = matching-HaveDistinct parse rn ns h.1 in
    let new = matching-has_name parse rn n ns h.0 in
    elim (Bool-cases (is_scan_of rn n)) [
      | inr e ↦ rw e later
      | inl e ↦ elim (Bool-cases (parse_report_timestamp parse n == 0)) [
        | inl z ↦ rw (e, z) later
        | inr z ↦ rw (e, z) (new, later)
      ]
    ]

insert-has_name :
    (x : Text) (d : Dated) (es : List Dated)
    → str_eq x d.name ≡ false
    → has_name x es ≡ false
    → has_name x (insert_dated d es) ≡ false
unfolding insert_dated
insert-has_name x d [] h k = ground arith
insert-has_name x d (e ∷ es) h k = ground (arith, insert-has_name x d es)

insert-HaveDistinct :
    (d : Dated) (es : List Dated)
    → has_name d.name es ≡ false
    → HaveDistinct es
    → HaveDistinct (insert_dated d es)
unfolding insert_dated
insert-HaveDistinct d [] h k = (refl, tt)
insert-HaveDistinct d (e ∷ es) h k = elim (Bool-cases (ltb e.time d.time)) [
  | inl l ↦ rw l (
    insert-has_name e.name d es (str_eq_apart d.name e.name (ground arith)) k.0,
    insert-HaveDistinct d es (ground arith) k.1,
  )
  | inr l ↦ rw l (h, k)
]

sort-has_name :
    (x : Text) (ds : List Dated) → has_name x ds ≡ false → has_name x (sort_dated ds) ≡ false
unfolding sort_dated
sort-has_name x [] h = refl
sort-has_name x (d ∷ ds) h =
    insert-has_name x d (sort_dated ds) (ground arith) (sort-has_name x ds (ground arith))

sort-HaveDistinct : (ds : List Dated) → HaveDistinct ds → HaveDistinct (sort_dated ds)
unfolding sort_dated
sort-HaveDistinct [] h = tt
sort-HaveDistinct (d ∷ ds) h =
    insert-HaveDistinct d (sort_dated ds) (sort-has_name d.name ds h.0) (sort-HaveDistinct ds h.1)

newest_two-apart :
    (ds : List Dated) (o n : Dated)
    → HaveDistinct ds
    → newest_two ds ≡ some (o, n)
    → str_eq o.name n.name ≡ false
unfolding newest_two
newest_two-apart [] o n d h = absurd (ground arith)
newest_two-apart (x ∷ []) o n d h = absurd (ground arith)
newest_two-apart (x ∷ y ∷ []) o n d h =
    let p : x ≡ o = ground arith in
    let q : y ≡ n = ground arith in rw (sym p, sym q) (ground (arith, d.0))
newest_two-apart (x ∷ y ∷ z ∷ xs) o n d h = newest_two-apart (y ∷ z ∷ xs) o n d.1 h

pub found_apart :
    (parse : ParseTime) (rn : Text) (ns : List Text) (o n : Dated)
    → AreDistinct ns
    → newest_two (sort_dated (matching_reports parse rn ns)) ≡ some (o, n)
    → str_eq o.name n.name ≡ false
found_apart parse rn ns o n d h =
    newest_two-apart (sort_dated (matching_reports parse rn ns)) o n
      (sort-HaveDistinct (matching_reports parse rn ns) (matching-HaveDistinct parse rn ns d)) h
