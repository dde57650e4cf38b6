-- ===== src/Scan/Found.antt =====
-- logic.go: which files the walk collects.
use ship_grip_fim.Base.{
  false, ◌≡◌, refl, List, [], ◌∷◌, ◌++◌, Text, In, here, there, ◌⊎◌, ◌↔◌, inl, inr, Bool-cases,
  subst,
}
use ship_grip_fim.Compare.{Patterns, matches_any}
use ship_grip_fim.Scan.{
  Node, directory, regular, other, Entries, end, entry, child_path, walk_entries, walk_node,
  walk_files,
}

-- The regular files below a node, by way of directories that are not left out.
module _ (no_walk : Patterns) where
  mutual
    pub data IsBelow (f : Text) : Text → Node → Type 0 where
      itself : IsBelow f f regular
      inside :
          {dir : Text} {es : Entries}
          → matches_any no_walk dir ≡ false
          → IsAmong f dir es
          → IsBelow f dir (directory es)

    pub data IsAmong (f : Text) : Text → Entries → Type 0 where
      first :
          {dir name path : Text} {n : Node} {es : Entries}
          → path ≡ child_path dir name
          → IsBelow f path n
          → IsAmong f dir (entry name n es)
      later :
          {dir name : Text} {n : Node} {es : Entries}
          → IsAmong f dir es
          → IsAmong f dir (entry name n es)

  pub In-snoc : (f g : Text) (acc : List Text) → In f (acc ++ g ∷ []) → (f ≡ g) ⊎ In f acc
  In-snoc f g [] here = inl refl
  In-snoc f g [] (there m) = elim m [ ]
  In-snoc f g (a ∷ acc) here = inr here
  In-snoc f g (a ∷ acc) (there m) = elim (In-snoc f g acc m) [
    | inl e ↦ inl e
    | inr k ↦ inr (there k)
  ]

  In-last : (f : Text) (acc : List Text) → In f (acc ++ f ∷ [])
  In-last f [] = here
  In-last f (a ∷ acc) = there (In-last f acc)

  In-before : (f g : Text) (acc : List Text) → In f acc → In f (acc ++ g ∷ [])
  In-before f g [] m = elim m [ ]
  In-before f g (a ∷ acc) here = here
  In-before f g (a ∷ acc) (there m) = there (In-before f g acc m)

  -- What was collected before stays.
  mutual
    unfolding walk_entries

    walk_entries_keeps :
        (f dir : Text) (es : Entries) (acc : List Text)
        → In f acc
        → In f (walk_entries no_walk dir es acc)
    walk_entries_keeps f dir end acc m = m
    walk_entries_keeps f dir (entry name n es) acc m =
        walk_entries_keeps f dir es (walk_node no_walk (child_path dir name) n acc)
          (walk_node_keeps f (child_path dir name) n acc m)

    walk_node_keeps :
        (f path : Text) (n : Node) (acc : List Text)
        → In f acc
        → In f (walk_node no_walk path n acc)
    walk_node_keeps f path (directory es) acc m = elim (Bool-cases (matches_any no_walk path)) [
      | inl e ↦ subst (λ l. In f l) (rw e refl) m
      | inr e ↦ subst (λ l. In f l) (rw e refl) (walk_entries_keeps f path es acc m)
    ]
    walk_node_keeps f path regular acc m = In-before f path acc m
    walk_node_keeps f path other acc m = m

  mutual
    unfolding walk_entries

    pub walk_entries_sound :
        (f dir : Text) (es : Entries) (acc : List Text)
        → In f (walk_entries no_walk dir es acc)
        → IsAmong f dir es ⊎ In f acc
    walk_entries_sound f dir end acc m = inr m
    walk_entries_sound f dir (entry name n es) acc m =
        elim (walk_entries_sound f dir es (walk_node no_walk (child_path dir name) n acc) m) [
          | inl k ↦ inl (later k)
          | inr k ↦ elim (walk_node_sound f (child_path dir name) n acc k) [
            | inl b ↦ inl (first refl b)
            | inr k' ↦ inr k'
          ]
        ]

    pub walk_node_sound :
        (f path : Text) (n : Node) (acc : List Text)
        → In f (walk_node no_walk path n acc)
        → IsBelow f path n ⊎ In f acc
    walk_node_sound f path (directory es) acc m = elim (Bool-cases (matches_any no_walk path)) [
      | inl e ↦ inr (subst (λ l. In f l) (rw e refl) m)
      | inr e ↦ elim (walk_entries_sound f path es acc (subst (λ l. In f l) (rw e refl) m)) [
        | inl k ↦ inl (inside e k)
        | inr k ↦ inr k
      ]
    ]
    walk_node_sound f path regular acc m = elim (In-snoc f path acc m) [
      | inl e ↦ inl (subst (λ p. IsBelow f p regular) e itself)
      | inr k ↦ inr k
    ]
    walk_node_sound f path other acc m = inr m

  mutual
    unfolding walk_entries

    walk_entries_complete :
        (f dir : Text) (es : Entries) (acc : List Text)
        → IsAmong f dir es
        → In f (walk_entries no_walk dir es acc)
    walk_entries_complete f dir end acc k = elim k [ ]
    walk_entries_complete f dir (entry name n es) acc (first {path = path} e b) =
        walk_entries_keeps f dir es (walk_node no_walk (child_path dir name) n acc)
          (subst (λ p. In f (walk_node no_walk p n acc)) e (walk_node_complete f path n acc b))
    walk_entries_complete f dir (entry name n es) acc (later k) =
        walk_entries_complete f dir es (walk_node no_walk (child_path dir name) n acc) k

    walk_node_complete :
        (f path : Text) (n : Node) (acc : List Text)
        → IsBelow f path n
        → In f (walk_node no_walk path n acc)
    walk_node_complete f path regular acc itself = In-last f acc
    walk_node_complete f path other acc m = elim m [ ]
    walk_node_complete f path (directory es) acc (inside h k) =
        subst (λ l. In f l) (rw h refl) (walk_entries_complete f path es acc k)

  -- The walk collects exactly the regular files that can be reached from the directory through
  -- directories, itself included, that no pattern of the no-walk list matches.
  pub walk_exact :
      (f dir : Text) (es : Entries)
      → In f (walk_files no_walk dir es []) ↔ IsBelow f dir (directory es)
  unfolding walk_files
  walk_exact f dir es = (
    λ m. elim (walk_node_sound f dir (directory es) [] m) [ inl k ↦ k | inr n ↦ elim n [ ] ],
    λ k. walk_node_complete f dir (directory es) [] k,
  )
