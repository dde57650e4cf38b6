-- ===== src/Scan/Pool/Counts.antt =====
-- logic.go, parallelFileCheck: the entries of a map of sums are the files that can be read.
use ship_grip_fim.Base.{
  ◌+◌, true, false, ◌≡◌, refl, sym, Option, none, some, List, [], ◌∷◌, Text, if◌then◌else◌, In,
  here, there, length, arith, str_eq, str_eq→eq, str_eq_refl, elem, Map, lookup, remove, IsMap,
  has_key, length-remove, lookup-remove, remove-IsMap, Option-cases, Bool-cases, inl, inr, subst,
}
use ship_grip_fim.Scan.Distinct.{IsDistinct}
use ship_grip_fim.Scan.Pool.{sum_lines}
use ship_grip_fim.Scan.Pool.Sums.{is_unreadable, unreadable_in}

In-elem' : (f : Text) (fs : List Text) → elem f fs ≡ true → In f fs
In-elem' f [] h = absurd (ground arith)
In-elem' f (g ∷ fs) h = elim (Bool-cases (str_eq g f)) [
  | inl e ↦ subst (λ x. In f (x ∷ fs)) (sym (str_eq→eq g f e)) here
  | inr e ↦ there (In-elem' f fs (ground arith))
]

absent_elem : (f : Text) (fs : List Text) → (In f fs → ⊥) → elem f fs ≡ false
absent_elem f fs n = elim (Bool-cases (elem f fs)) [
  | inl e ↦ absurd (n (In-elem' f fs e))
  | inr e ↦ e
]

module _ (sum : Text → Option Text) where
  -- The lines that a loop over the files would print.
  abbrev pub readable_lines : List Text → List (Text × Text)
  readable_lines [] = []
  readable_lines (f ∷ fs) =
      let rest = readable_lines fs in elim (sum f) [ none ↦ rest | some s ↦ (s, f) ∷ rest ]

  pub readable_count :
      (fs : List Text) → length fs ≡ length (readable_lines fs) + unreadable_in sum fs
  readable_count [] = refl
  readable_count (f ∷ fs) = ground (arith, readable_count fs)

  -- A map that holds the sums of the files, and nothing else.
  abbrev pub Holds : List Text → Map Text → Type 0
  Holds fs m = (f : Text) → lookup f m ≡ (if elem f fs then sum f else none)

  pub Holds-lines :
      (all_files fs : List Text) (m : Map Text)
      → Holds all_files m
      → ((f : Text) → In f fs → elem f all_files ≡ true)
      → sum_lines m fs ≡ readable_lines fs
  unfolding sum_lines
  Holds-lines all_files [] m h k = refl
  Holds-lines all_files (f ∷ fs) m h k =
      ground (arith, h f, k f here, Holds-lines all_files fs m h (λ g i. k g (there i)))

  Holds-nil : (m : Map Text) → Holds [] m → length m ≡ 0
  unfolding lookup
  Holds-nil [] h = refl
  Holds-nil ((f, s) ∷ m) h = absurd (ground (arith, h f, str_eq_refl f))

  -- The files that can be read are as many as the map has entries.
  pub Holds-length :
      (fs : List Text) (m : Map Text)
      → IsDistinct fs
      → IsMap m
      → Holds fs m
      → length fs ≡ length m + unreadable_in sum fs
  Holds-length [] m d i h = omega (arith, Holds-nil m h)
  Holds-length (f ∷ fs) m d i h = elim (Option-cases (sum f)) [
    | inl e ↦
        let rest : Holds fs m = λ g. elim (Bool-cases (str_eq f g)) [
          | inl q ↦
              let eq = str_eq→eq f g q in
              let a : elem g fs ≡ false =
                subst (λ x. elem x fs ≡ false) eq (absent_elem f fs d.0) in
              let n : sum g ≡ none = subst (λ x. sum x ≡ none) eq e in ground (arith, h g, a, n)
          | inr q ↦ ground (arith, h g)
        ] in
        let u : is_unreadable sum f ≡ 1 = ground arith in
        omega (arith, Holds-length fs m d.1 i rest, u)
    | inr (s, e) ↦
        let rest : Holds fs (remove f m) = λ g. elim (Bool-cases (str_eq f g)) [
          | inl q ↦
              let eq = str_eq→eq f g q in
              let a : elem g fs ≡ false =
                subst (λ x. elem x fs ≡ false) eq (absent_elem f fs d.0) in
              ground (arith, lookup-remove f g m, a)
          | inr q ↦ ground (arith, h g, lookup-remove f g m)
        ] in
        let u : is_unreadable sum f ≡ 0 = ground arith in
        let found : has_key f m ≡ true = unfold has_key in ground (arith, h f, str_eq_refl f, e) in
        omega (
          arith,
          Holds-length fs (remove f m) d.1 (remove-IsMap f m i) rest,
          u,
          length-remove f m i found,
        )
  ]

pub In-elem : (f : Text) (fs : List Text) → In f fs → elem f fs ≡ true
In-elem f [] m = elim m [ ]
In-elem f (g ∷ fs) here = ground (arith, str_eq_refl g)
In-elem f (g ∷ fs) (there m) = ground (arith, In-elem f fs m)
