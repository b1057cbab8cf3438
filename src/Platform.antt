-- ===== src/Platform.antt =====
-- What the program uses of `pathlib`, `shutil` and the disk under them. It is no code of the
-- repository, so every definition that uses it takes a `Platform`, and every theorem that relies on
-- its documented behaviour takes the laws that it needs.
use local_agent_cli.Base.{
  Bool, Eq, List, Option, [], arith, contains, false, if◌then◌else◌, list_eq, nat_eq, none, not,
  some, true, ℕ, ◌&&◌, ◌<◌, ◌==◌, ◌∷◌, ◌≡◌,
}
use local_agent_cli.Base.Text.{Text}

pub record Platform : Type 1 where
  -- `pathlib.Path`
  pub FilePath : Type 0
  -- what the disk holds
  pub Disk : Type 0
  -- `Path(text)` and `str(path)`
  pub from_str : Text → FilePath
  pub to_str : FilePath → Text
  pub as_posix : FilePath → Text
  pub is_absolute : FilePath → Bool
  -- `base / name`, for a path and for a file name
  pub join_path : FilePath → FilePath → FilePath
  pub child : FilePath → Text → FilePath
  pub parent : FilePath → FilePath
  -- `len(path.parts)`
  pub part_count : FilePath → ℕ
  pub parents : FilePath → List FilePath
  pub is_relative_to : FilePath → FilePath → Bool
  -- `path.relative_to(base)`; `none` is its `ValueError`
  pub relative_to : FilePath → FilePath → Option FilePath
  -- whether the home that a leading `~` names is known; `expanduser` raises where it is not
  pub has_home : FilePath → Bool
  pub expanduser : FilePath → FilePath
  -- `path.resolve(strict=False)`, which does not raise from Python 3.13 on
  pub resolve : Disk → FilePath → FilePath
  pub exists : Disk → FilePath → Bool
  pub is_symlink : Disk → FilePath → Bool
  -- the content of a regular file
  pub read : Disk → FilePath → Option Text
  pub write : Disk → FilePath → Text → Disk
  pub unlink : Disk → FilePath → Disk
  -- `path.mkdir(parents=True, exist_ok=True)`, where no file is in its way
  pub mkdir : Disk → FilePath → Disk

-- `path.parent` is the path itself at the top, and has fewer parts anywhere else.
pub record HasParents (P : Platform) ⦃e : Eq P.FilePath⦄ : Type 0 where
  pub parent_shorter :
      (p : P.FilePath) → (P.parent p == p) ≡ false → P.part_count (P.parent p) < P.part_count p

-- Files hold what was last written to them, a directory that is made
-- changes none, and a path that does not exist holds no file. This is so
-- where each file has one spelling among the paths in use: two paths that name one file, by `..`, by a
-- link or by a second hard link, are outside of it.
pub record HasFiles (P : Platform) ⦃e : Eq P.FilePath⦄ : Type 0 where
  pub read-write :
      (d : P.Disk) (p q : P.FilePath) (t : Text)
      → P.read (P.write d p t) q ≡ (if q == p then some t else P.read d q)
  pub read-unlink :
      (d : P.Disk) (p q : P.FilePath)
      → P.read (P.unlink d p) q ≡ (if q == p then none else P.read d q)
  pub read-mkdir : (d : P.Disk) (p q : P.FilePath) → P.read (P.mkdir d p) q ≡ P.read d q
  pub exists-write : (d : P.Disk) (p : P.FilePath) (t : Text) → P.exists (P.write d p t) p ≡ true
  pub read_missing : (d : P.Disk) (p : P.FilePath) → P.exists d p ≡ false → P.read d p ≡ none

-- The name of one file: `dir / name` is an entry of `dir`.
abbrev pub is_file_name : Text → Bool
is_file_name a =
    not (contains a b'/')
    && (not (a == []) && (not (a == b'.' ∷ []) && not (a == b'.' ∷ b'.' ∷ [])))

-- `Path(str(p))` is `p`, and a directory's entries are inside it, two names being two paths.
pub record HasNames (P : Platform) : Type 0 where
  pub from_str-to_str : (p : P.FilePath) → P.from_str (P.to_str p) ≡ p
  pub child-is_relative_to :
      (dir : P.FilePath) (a : Text)
      → is_file_name a ≡ true
      → P.is_relative_to (P.child dir a) dir ≡ true
  pub child-injective :
      (dir : P.FilePath) (a b : Text)
      → is_file_name a ≡ true
      → is_file_name b ≡ true
      → P.child dir a ≡ P.child dir b
      → a ≡ b

-- A resolved path is absolute and has no link in it, so that expanding and resolving it again
-- changes nothing.
pub record Resolves (P : Platform) : Type 0 where
  pub resolve-resolve :
      (d : P.Disk) (p : P.FilePath) → P.resolve d (P.expanduser (P.resolve d p)) ≡ P.resolve d p

module _ (P : Platform) ⦃e : Eq P.FilePath⦄ (files : HasFiles P) where
  pub read-write_self : (d : P.Disk) (p : P.FilePath) (t : Text) → P.read (P.write d p t) p ≡ some t
  read-write_self d p t = ground (arith, files.read-write d p p t)
