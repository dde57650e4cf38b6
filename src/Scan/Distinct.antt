-- ===== src/Scan/Distinct.antt =====
-- logic.go: the walk collects no path twice.
use ship_grip_fim.Base.{
  Bool, false, ◌≡◌, refl, sym, ap, ◌∙◌, List, [], ◌∷◌, ◌++◌, Text, if◌then◌else◌, In, here, there,
  ◌⊎◌, inl, inr, arith, Bool-cases, subst, any, ◌==◌, append_assoc,
}
use ship_grip_fim.Compare.{Patterns, matches_any}
use ship_grip_fim.Scan.{
  Node, directory, regular, other, Entries, end, entry, child_path, walk_entries, walk_node,
  walk_files,
}
use ship_grip_fim.Scan.Found.{
  IsBelow, itself, inside, IsAmong, first, later, In-snoc, walk_node_sound,
}

-- No path twice.
abbrev pub IsDistinct : List Text → Type 0
IsDistinct [] = Unit
IsDistinct (f ∷ fs) = (In f fs → ⊥) × IsDistinct fs

abbrev pub entry_names : Entries → List Text
entry_names end = []
entry_names (entry name n es) = name ∷ entry_names es

abbrev pub has_slash : Text → Bool
has_slash s = any (λ c. c == b'/') s

-- A directory as the operating system keeps it: no name twice, and no '/' in a name.
abbrev mutual
  pub IsProperNode : Node → Type 0
  IsProperNode (directory es) = IsProper es
  IsProperNode _ = Unit

  pub IsProper : Entries → Type 0
  IsProper end = Unit
  IsProper (entry name n es) =
      (has_slash name ≡ false) × (In name (entry_names es) → ⊥) × IsProperNode n × IsProper es

-- A path at or below another.
abbrev IsUnder : Text → Text → Type 0
IsUnder q f = (f ≡ q) ⊎ ((r : Text) × (f ≡ q ++ (b'/' ∷ r)))

child-IsUnder : (d n f : Text) → IsUnder (child_path d n) f → (r : Text) × (f ≡ d ++ (b'/' ∷ r))
unfolding child_path
child-IsUnder d n f (inl e) = (n, e)
child-IsUnder d n f (inr (r, e)) = (n ++ (b'/' ∷ r), e ∙ append_assoc d (b'/' ∷ n) (b'/' ∷ r))

module _ (no_walk : Patterns) where
  mutual
    IsBelow-IsUnder : (f path : Text) (n : Node) → IsBelow no_walk f path n → IsUnder path f
    IsBelow-IsUnder f path regular itself = inl refl
    IsBelow-IsUnder f path other b = elim b [ ]
    IsBelow-IsUnder f path (directory es) (inside h k) =
        let (name, m, u) = IsAmong-IsUnder f path es k in inr (child-IsUnder path name f u)

    IsAmong-IsUnder :
        (f dir : Text) (es : Entries)
        → IsAmong no_walk f dir es
        → (name : Text) × In name (entry_names es) × IsUnder (child_path dir name) f
    IsAmong-IsUnder f dir end k = elim k [ ]
    IsAmong-IsUnder f dir (entry name n es) (first {path = path} e b) =
        (name, here, subst (λ p. IsUnder p f) e (IsBelow-IsUnder f path n b))
    IsAmong-IsUnder f dir (entry name n es) (later k) =
        let (m, i, u) = IsAmong-IsUnder f dir es k in (m, there i, u)

-- The first component of a relative path.
component : Text → Text
component [] = []
component (c ∷ s) = if c == b'/' then [] else c ∷ component s

component_name : (n : Text) → has_slash n ≡ false → component n ≡ n
unfolding component
component_name [] h = refl
component_name (c ∷ n) h = ground (arith, component_name n)

component-append : (n r : Text) → has_slash n ≡ false → component (n ++ (b'/' ∷ r)) ≡ n
unfolding component
component-append [] r h = refl
component-append (c ∷ n) r h = ground (arith, component-append n r)

append_cancel : (d x y : Text) → d ++ x ≡ d ++ y → x ≡ y
append_cancel [] x y h = h
append_cancel (c ∷ d) x y h = append_cancel d x y (cc)

-- What is below a child starts with the child's name.
component-IsUnder :
    (d n f : Text)
    → has_slash n ≡ false
    → IsUnder (child_path d n) f
    → (x : Text) × (f ≡ d ++ (b'/' ∷ x)) × (component x ≡ n)
unfolding child_path
component-IsUnder d n f h (inl e) = (n, e, component_name n h)
component-IsUnder d n f h (inr (r, e)) =
    (n ++ (b'/' ∷ r), e ∙ append_assoc d (b'/' ∷ n) (b'/' ∷ r), component-append n r h)

children_apart :
    (d n m f : Text)
    → has_slash n ≡ false
    → has_slash m ≡ false
    → IsUnder (child_path d n) f
    → IsUnder (child_path d m) f
    → n ≡ m
unfolding component
children_apart d n m f h k u v =
    let (x, e, a) = component-IsUnder d n f h u in
    let (y, g, b) = component-IsUnder d m f k v in
    let q : b'/' ∷ x ≡ b'/' ∷ y = append_cancel d (b'/' ∷ x) (b'/' ∷ y) (sym e ∙ g) in
    let q' : x ≡ y = cc in sym a ∙ ap component q' ∙ b

snoc-IsDistinct :
    (acc : List Text) (f : Text) → IsDistinct acc → (In f acc → ⊥) → IsDistinct (acc ++ f ∷ [])
snoc-IsDistinct [] f d n = (λ m. elim m [ ], tt)
snoc-IsDistinct (a ∷ acc) f d n = (
  λ m. elim (In-snoc [] a f acc m) [
    | inl e ↦ n (subst (λ x. In x (a ∷ acc)) e here)
    | inr k ↦ d.0 k
  ],
  snoc-IsDistinct acc f d.1 (λ m. n (there m)),
)

name-no_slash :
    (name : Text) (es : Entries) → IsProper es → In name (entry_names es) → has_slash name ≡ false
name-no_slash name end p m = elim m [ ]
name-no_slash name (entry other_name n es) p here = p.0
name-no_slash name (entry other_name n es) p (there m) = name-no_slash name es p.3 m

module _ (no_walk : Patterns) where
  -- Two entries of a directory have no file in common.
  entries_apart :
      (f dir name : Text) (n : Node) (es : Entries)
      → IsProper (entry name n es)
      → IsBelow no_walk f (child_path dir name) n
      → IsAmong no_walk f dir es
      → ⊥
  entries_apart f dir name n es p b k =
      let (m, i, u) = IsAmong-IsUnder no_walk f dir es k in
      let v = IsBelow-IsUnder no_walk f (child_path dir name) n b in
      let e = children_apart dir name m f p.0 (name-no_slash m es p.3 i) v u in
      p.1 (subst (λ x. In x (entry_names es)) (sym e) i)

  mutual
    unfolding walk_entries

    walk_entries-IsDistinct :
        (dir : Text) (es : Entries) (acc : List Text)
        → IsProper es
        → IsDistinct acc
        → ((f : Text) → IsAmong no_walk f dir es → In f acc → ⊥)
        → IsDistinct (walk_entries no_walk dir es acc)
    walk_entries-IsDistinct dir end acc p d fresh = d
    walk_entries-IsDistinct dir (entry name n es) acc p d fresh =
        walk_entries-IsDistinct dir es (walk_node no_walk (child_path dir name) n acc) p.3
          (walk_node-IsDistinct (child_path dir name) n acc p.2 d
            (λ f b m. fresh f (first refl b) m))
          (λ f k m. elim (walk_node_sound no_walk f (child_path dir name) n acc m) [
            | inl b ↦ entries_apart f dir name n es p b k
            | inr i ↦ fresh f (later k) i
          ])

    walk_node-IsDistinct :
        (path : Text) (n : Node) (acc : List Text)
        → IsProperNode n
        → IsDistinct acc
        → ((f : Text) → IsBelow no_walk f path n → In f acc → ⊥)
        → IsDistinct (walk_node no_walk path n acc)
    walk_node-IsDistinct path (directory es) acc p d fresh =
        elim (Bool-cases (matches_any no_walk path)) [
          | inl e ↦ subst IsDistinct (sym (rw e refl)) d
          | inr e ↦
              subst IsDistinct (sym (rw e refl))
                (walk_entries-IsDistinct path es acc p d (λ f k m. fresh f (inside e k) m))
        ]
    walk_node-IsDistinct path regular acc p d fresh =
        snoc-IsDistinct acc path d (λ m. fresh path itself m)
    walk_node-IsDistinct path other acc p d fresh = d

  -- If no directory has a name twice and no name has a '/', no path is collected twice.
  pub walk-IsDistinct :
      (dir : Text) (es : Entries) → IsProper es → IsDistinct (walk_files no_walk dir es [])
  unfolding walk_files
  walk-IsDistinct dir es p = walk_node-IsDistinct dir (directory es) [] p tt (λ f b m. elim m [ ])
