-- ===== src/Compare/Moves/Index.antt =====
-- logic.go: `newByHash` lists, without repetition, the new paths of each hash, before the pairing
-- and after each step of it.
use ship_grip_fim.Base.{
  Bool, true, false, ◌≡◌, refl, sym, ◌∙◌, none, some, List, [], ◌∷◌, ◌++◌, ◌||◌, arith, Text,
  str_eq, str_eq_iff, str_eq_refl, if◌then◌else◌, Map, lookup, insert, remove, IsMap, lookup-insert,
  lookup-remove, remove-IsMap, elem, Distinct, sort_strings, sort_strings-Distinct,
  elem-sort_strings, Bool-cases, inl, inr, Option-cases, elem-append, Distinct-append_one, ◌↔◌,
}
use ship_grip_fim.Compare.{
  CompareReport, Pairing, candidates, take_candidate, pair_one, group, sort_groups, value_at,
  empty_file_md5,
}

pub record IsIndexed (p : Pairing) : Type 0 where
  pub sound :
      (v k : Text) → elem k (candidates p.by_hash v) ≡ true → lookup k p.report.new_files ≡ some v
  pub complete :
      (v k : Text) → lookup k p.report.new_files ≡ some v → elem k (candidates p.by_hash v) ≡ true
  pub distinct : (v : Text) → Distinct (candidates p.by_hash v)
  pub new-IsMap : IsMap p.report.new_files
  pub missing_map : IsMap p.report.missing_files

candidates-insert :
    (m : Map (List Text)) (v w : Text) (paths : List Text)
    → candidates (insert v paths m) w ≡ (if str_eq v w then paths else candidates m w)
unfolding candidates
candidates-insert m v w paths = ground (arith, lookup-insert v w paths m)

module _ (k v k2 : Text) (rest : List Text) (p : Pairing) (ix : IsIndexed p)
    (head : candidates p.by_hash v ≡ k2 ∷ rest) where
  taken_hash : lookup k2 p.report.new_files ≡ some v
  taken_hash = ix.sound v k2 (rw head (ground (arith, str_eq_refl k2)))

  taken_distinct : elem k2 rest ≡ false
  taken_distinct = (rw head at (ix.distinct v)).0

  take_sound :
      (w j : Text)
      → elem j (candidates (insert v rest p.by_hash) w) ≡ true
      → lookup j (remove k2 p.report.new_files) ≡ some w
  take_sound w j h = elim (Bool-cases (str_eq v w)) [
    | inl e ↦ ground (
      arith,
      candidates-insert p.by_hash v w rest,
      lookup-remove k2 j p.report.new_files,
      str_eq_iff v w,
      str_eq_iff k2 j,
      taken_distinct,
      ix.sound v j,
      head,
    )
    | inr e ↦ ground (
      arith,
      candidates-insert p.by_hash v w rest,
      lookup-remove k2 j p.report.new_files,
      str_eq_iff v w,
      str_eq_iff k2 j,
      taken_hash,
      ix.sound w j,
    )
  ]

  take_complete :
      (w j : Text)
      → lookup j (remove k2 p.report.new_files) ≡ some w
      → elem j (candidates (insert v rest p.by_hash) w) ≡ true
  take_complete w j h = ground (
    arith,
    candidates-insert p.by_hash v w rest,
    lookup-remove k2 j p.report.new_files,
    str_eq_iff v w,
    ix.complete w j,
    head,
  )

  take-Distinct : (w : Text) → Distinct (candidates (insert v rest p.by_hash) w)
  take-Distinct w = elim (Bool-cases (str_eq v w)) [
    | inl e ↦ rw (candidates-insert, e) (rw head at (ix.distinct v)).1
    | inr e ↦ rw (candidates-insert, e) (ix.distinct w)
  ]

  take-IsIndexed : IsIndexed (take_candidate k v (k2 ∷ rest) p)
  unfolding take_candidate
  take-IsIndexed = record {
    sound = take_sound;
    complete = take_complete;
    distinct = take-Distinct;
    new-IsMap = remove-IsMap k2 p.report.new_files ix.new-IsMap;
    missing_map = remove-IsMap k p.report.missing_files ix.missing_map;
  }

take_any :
    (k v : Text) (cs : List Text) (p : Pairing)
    → IsIndexed p
    → candidates p.by_hash v ≡ cs
    → IsIndexed (take_candidate k v cs p)
take_any k v [] p ix h = unfold take_candidate in ix
take_any k v (k2 ∷ rest) p ix h = take-IsIndexed k v k2 rest p ix h

pub pair_one-IsIndexed : (k : Text) (p : Pairing) → IsIndexed p → IsIndexed (pair_one k p)
unfolding pair_one
pair_one-IsIndexed k p ix =
    let v = value_at k p.report.missing_files in
    elim (Bool-cases (str_eq v empty_file_md5)) [
      | inl e ↦ rw e ix
      | inr e ↦ rw e (take_any k v (candidates p.by_hash v) p ix refl)
    ]

-- The value at a key is the given one.
has_value : Text → Text → Map Text → Bool
has_value k v m = elim (lookup k m) [ none ↦ false | some w ↦ str_eq w v ]

elem-group :
    (files : Map Text) (acc : Map (List Text)) (v k : Text)
    → IsMap files
    → elem k (candidates (group files acc) v) ≡ elem k (candidates acc v) || has_value k v files
unfolding group has_value lookup
elem-group [] acc v k m = ground arith
elem-group ((j, w) ∷ files) acc v k m = ground (
  arith,
  elem-group files (insert w (candidates acc w ++ j ∷ []) acc) v k m.1,
  m.0,
  candidates-insert acc w v (candidates acc w ++ j ∷ []),
  elem-append k (candidates acc w) (j ∷ []),
  str_eq_iff w v,
  str_eq_iff j k,
)

append-Distinct :
    (acc : Map (List Text)) (w j : Text)
    → ((v : Text) → Distinct (candidates acc v))
    → ¬ (elem j (candidates acc w) ≡ true)
    → (v : Text) → Distinct (candidates (insert w (candidates acc w ++ j ∷ []) acc) v)
append-Distinct acc w j d new v = elim (Bool-cases (str_eq w v)) [
  | inl e ↦
      rw (candidates-insert, e)
        (Distinct-append_one (candidates acc w) j (d w) (ground (arith, new)))
  | inr e ↦ rw (candidates-insert, e) (d v)
]

append_fresh :
    (acc : Map (List Text)) (w j : Text) (files : Map Text)
    → lookup j files ≡ none
    → ((v k : Text) → elem k (candidates acc v) ≡ true → lookup k ((j, w) ∷ files) ≡ none)
    → (v k : Text) → elem k (candidates (insert w (candidates acc w ++ j ∷ []) acc) v) ≡ true
    → lookup k files ≡ none
unfolding lookup
append_fresh acc w j files m fresh v k h = ground (
  arith,
  candidates-insert acc w v (candidates acc w ++ j ∷ []),
  elem-append k (candidates acc w) (j ∷ []),
  fresh w k,
  fresh v k,
  str_eq_iff j k,
  m,
)

group-Distinct :
    (files : Map Text) (acc : Map (List Text))
    → IsMap files
    → ((v : Text) → Distinct (candidates acc v))
    → ((v k : Text) → elem k (candidates acc v) ≡ true → lookup k files ≡ none)
    → (v : Text) → Distinct (candidates (group files acc) v)
unfolding group lookup
group-Distinct [] acc m d fresh v = d v
group-Distinct ((j, w) ∷ files) acc m d fresh v =
    group-Distinct files (insert w (candidates acc w ++ j ∷ []) acc) m.1
      (append-Distinct acc w j d (λ e. some_at_head (fresh w j e)))
      (append_fresh acc w j files m.0 fresh) v
  where
    some_at_head : lookup j ((j, w) ∷ files) ≡ none → ⊥
    some_at_head h = ground (arith, str_eq_refl j)

candidates-sort_groups :
    (m : Map (List Text)) (v : Text) → candidates (sort_groups m) v ≡ sort_strings (candidates m v)
unfolding candidates sort_groups lookup sort_strings
candidates-sort_groups [] v = refl
candidates-sort_groups ((h, paths) ∷ m) v = ground (arith, candidates-sort_groups m v)

has_value_iff : (v k : Text) (m : Map Text) → (has_value k v m ≡ true) ↔ (lookup k m ≡ some v)
unfolding has_value
has_value_iff v k m = elim (Option-cases (lookup k m)) [
  | inl e ↦ (λ h. ground (arith, e), λ h. ground (arith, e))
  | inr (w, e) ↦ (λ h. ground (arith, e, str_eq_iff w v), λ h. ground (arith, e, str_eq_iff w v))
]

no_candidates : (v : Text) → candidates [] v ≡ []
unfolding candidates lookup
no_candidates v = refl

elem-indexed :
    (files : Map Text) (v k : Text)
    → IsMap files
    → elem k (candidates (sort_groups (group files [])) v) ≡ has_value k v files
elem-indexed files v k m =
    rw (candidates-sort_groups, elem-sort_strings, elem-group files [] v k m, no_candidates) refl

-- The index that `buildCompareReport` makes of the new files.
pub start-IsIndexed :
    (cr : CompareReport)
    → IsMap cr.new_files
    → IsMap cr.missing_files
    → IsIndexed (record { by_hash = sort_groups (group cr.new_files []); report = cr })
start-IsIndexed cr mn mm = record {
  sound = λ v k h. (has_value_iff v k cr.new_files).0 (sym (elem-indexed cr.new_files v k mn) ∙ h);
  complete = λ v k h. elem-indexed cr.new_files v k mn ∙ (has_value_iff v k cr.new_files).1 h;
  distinct = λ v. rw candidates-sort_groups (
      sort_strings-Distinct (candidates (group cr.new_files []) v) (
        group-Distinct cr.new_files [] mn (λ w. rw no_candidates tt)
          (λ w k h. ground (arith, no_candidates w)) v));
  new-IsMap = mn;
  missing_map = mm;
}
