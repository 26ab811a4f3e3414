-- ===== src/Cache/History.antt =====
-- The histories of src/cache/storage.rs, of connections and of operations on profiles: lines are appended to
-- a file that is rotated when it would become too long. `Line` is a line with its line break, `size` its
-- bytes. The files are numbered, the one in use 0; a file that is not there is `none`. The calls of the
-- file system succeed here: an operation that fails ends at that call. Permissions, symbolic links and
-- the flushing to the disk are left out.
pub mod Appended
use nm_daemon.Base.{
  ℕ, zero, suc, ◌+◌, Bool, true, false, ◌&&◌, Option, none, some, List, [], ◌∷◌, ◌++◌,
  if◌then◌else◌, ltb, ◌==◌, nat_eq, ◌<◌,
}

module _ (Line : Type 0) (size : Line → ℕ) where
  abbrev pub Files : Type 0
  Files = ℕ → Option (List Line)

  abbrev pub lines : Option (List Line) → List Line
  lines none = []
  lines (some ls) = ls

  abbrev pub bytes : List Line → ℕ
  bytes [] = 0
  bytes (l ∷ ls) = size l + bytes ls

  abbrev pub put : ℕ → Option (List Line) → Files → Files
  put i content f j = if i == j then content else f j

  -- `remove_file_if_exists`
  abbrev pub remove_file : ℕ → Files → Files
  remove_file i f = put i none f

  -- `rename_if_exists`
  abbrev pub rename_if_exists : ℕ → ℕ → Files → Files
  rename_if_exists i j f = elim (f i) [ none ↦ f | some ls ↦ put i none (put j (some ls) f) ]

  -- The loop of `rotate_files`, from its last index down to 1.
  unfoldable pub shift : ℕ → Files → Files
  shift zero f = f
  shift (suc i) f = shift i (rename_if_exists (suc i) (suc (suc i)) f)

  unfoldable pub rotate_files : ℕ → Files → Files
  rotate_files zero f = remove_file 0 f
  rotate_files (suc n) f = rename_if_exists 0 1 (shift n (remove_file (suc n) f))

  -- Whether a line is too much for the file in use; the first line of a file never is.
  abbrev pub overflows : ℕ → Line → Files → Bool
  overflows max_bytes line f =
      let current = bytes (lines (f 0)) in ltb 0 current && ltb max_bytes (current + size line)

  -- `append_json_line_with_rotation`
  unfoldable pub append_line : (max_bytes rotations : ℕ) → Line → Files → Files
  append_line max_bytes rotations line f =
      let g = if overflows max_bytes line f then rotate_files rotations f else f in
      put 0 (some (lines (g 0) ++ line ∷ [])) g
