-- ===== src/Scan.antt =====
-- logic.go: the walk of the scanned directory, and the checksum of a file. MD5 is the parameter
-- `md5`, from the bytes of a file to the hexadecimal digest.
pub mod Pool
pub mod Found
pub mod Distinct
use ship_grip_fim.Base.{
  ℕ, Bool, true, false, ◌||◌, Option, none, some, List, [], ◌∷◌, ◌++◌, Text, if◌then◌else◌,
}
use ship_grip_fim.Compare.{Patterns, matches_any}

-- What os.ReadDir gives of a directory: its entries, or those read before an error. What is neither
-- a directory nor a regular file (a symbolic link, a device) is `other`.
mutual
  pub data Node : Type 0 where
    directory : Entries → Node
    regular : Node
    other : Node

  pub data Entries : Type 0 where
    end : Entries
    entry : Text → Node → Entries → Entries

unfoldable pub child_path : Text → Text → Text
child_path dir name = dir ++ (b'/' ∷ name)

module _ (no_walk : Patterns) where
  unfoldable mutual
    -- The loop over the entries of `dir`.
    pub walk_entries : Text → Entries → List Text → List Text
    walk_entries dir end acc = acc
    walk_entries dir (entry name n es) acc =
        walk_entries dir es (walk_node (child_path dir name) n acc)

    pub walk_node : Text → Node → List Text → List Text
    walk_node path (directory es) acc =
        let inside = walk_entries path es acc in if matches_any no_walk path then acc else inside
    walk_node path regular acc = acc ++ path ∷ []
    walk_node path other acc = acc

  -- `walkFiles` on the directory `dir` with these entries.
  unfoldable pub walk_files : Text → Entries → List Text → List Text
  unfolding walk_node
  walk_files dir es acc = walk_node dir (directory es) acc

-- What os.Open and io.Copy give.
pub data Body : Type 0 where
  cannot_open broken : Body
  bytes : Text → Body

-- `none` is the error.
unfoldable pub sum_file : (Text → Text) → Body → Option Text
sum_file md5 cannot_open = none
sum_file md5 broken = none
sum_file md5 (bytes s) = some (md5 s)
