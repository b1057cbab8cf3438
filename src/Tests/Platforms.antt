-- ===== src/Tests/Platforms.antt =====
-- Small platforms: texts as paths with files, without and with links, and lists of names as paths.
use mathlib.Core.List.{reverse}
use local_agent_cli.Base.{
  Bool, List, Option, [], append_assoc, arith, contains, drop, false, length, list_eq, nat_eq, none,
  not, refl, some, sym, true, ◌++◌, ◌<◌, ◌==◌, ◌||◌, ◌∷◌, ◌≡◌,
}
use local_agent_cli.Base.Dict.{Dict, erase, insert, lookup, lookup-erase, lookup-insert}
use local_agent_cli.Base.Text.{Text, join, split, starts_with}
use local_agent_cli.Platform.{HasFiles, HasNames, HasParents, Platform, Resolves}

unfoldable pub is_some {ℓ} : {A : Type ℓ} → Option A → Bool
is_some none = false
is_some (some a) = true

-- Paths are absolute texts, and the disk maps them to what they hold.
abbrev pub flat : Platform
flat = record {
  FilePath = Text;
  Disk = Dict Text Text;
  from_str = λ t. t;
  to_str = λ t. t;
  as_posix = λ t. t;
  is_absolute = λ t. starts_with t (b'/' ∷ []);
  join_path = λ base t. base ++ b'/' ∷ t;
  child = λ base t. base ++ b'/' ∷ t;
  parent = λ t. [];
  part_count = λ t. length (split b'/' t);
  parents = λ t. [];
  is_relative_to = λ t base. t == base || starts_with t (base ++ b'/' ∷ []);
  relative_to = λ t base. none;
  has_home = λ t. true;
  expanduser = λ t. t;
  resolve = λ d t. t;
  exists = λ d t. is_some (lookup t d);
  is_symlink = λ d t. false;
  read = λ d t. lookup t d;
  write = λ d t content. insert t content d;
  unlink = λ d t. erase t d;
  mkdir = λ d t. d;
}

pub flat-HasFiles : HasFiles flat
unfolding is_some
flat-HasFiles = record {
  read-write = λ d p q t. lookup-insert q p t d;
  read-unlink = λ d p q. lookup-erase q p d;
  read-mkdir = λ d p q. refl;
  exists-write = λ d p t. rw (lookup-insert p p t d) (ground arith);
  read_missing = λ d p h. ground arith;
}

starts_with-append : (s t : Text) → starts_with (s ++ t) s ≡ true
unfolding starts_with
starts_with-append [] t = refl
starts_with-append (c ∷ s) t = ground (arith, starts_with-append s t)

append-cancel : (s t u : Text) → s ++ t ≡ s ++ u → t ≡ u
append-cancel [] t u h = h
append-cancel (c ∷ s) t u h = append-cancel s t u (cc)

pub flat-HasNames : HasNames flat
flat-HasNames = record {
  from_str-to_str = λ p. refl;
  child-is_relative_to = λ dir a n.
      rw (sym (append_assoc dir (b'/' ∷ []) a), starts_with-append (dir ++ b'/' ∷ []) a)
        (ground arith);
  child-injective = λ dir a b x y h. cc (append-cancel dir (b'/' ∷ a) (b'/' ∷ b) h);
}

-- The same paths, of which some are links: a disk is the files, and what each link resolves to.
abbrev pub linked_files : Platform
linked_files = record {
  FilePath = Text;
  Disk = Dict Text Text × Dict Text Text;
  from_str = flat.from_str;
  to_str = flat.to_str;
  as_posix = flat.as_posix;
  is_absolute = flat.is_absolute;
  join_path = flat.join_path;
  child = flat.child;
  parent = flat.parent;
  part_count = flat.part_count;
  parents = flat.parents;
  is_relative_to = flat.is_relative_to;
  relative_to = flat.relative_to;
  has_home = flat.has_home;
  expanduser = flat.expanduser;
  resolve = λ d t. elim (lookup t d.1) [ none ↦ t | some target ↦ target ];
  exists = λ d t. is_some (lookup t d.0) || is_some (lookup t d.1);
  is_symlink = λ d t. is_some (lookup t d.1);
  read = λ d t. lookup t d.0;
  write = λ d t content. (insert t content d.0, d.1);
  unlink = λ d t. (erase t d.0, d.1);
  mkdir = λ d t. d;
}

pub linked_files-HasFiles : HasFiles linked_files
unfolding is_some
linked_files-HasFiles = record {
  read-write = λ d p q t. lookup-insert q p t d.0;
  read-unlink = λ d p q. lookup-erase q p d.0;
  read-mkdir = λ d p q. refl;
  exists-write = λ d p t. rw (lookup-insert p p t d.0) (ground arith);
  read_missing = λ d p h. ground arith;
}

pub linked_files-HasNames : HasNames linked_files
linked_files-HasNames = record {
  from_str-to_str = λ p. refl;
  child-is_relative_to = flat-HasNames.child-is_relative_to;
  child-injective = flat-HasNames.child-injective;
}

unfoldable pub ancestors : List Text → List (List Text)
ancestors [] = []
ancestors (a ∷ p) = p ∷ ancestors p

-- Paths are lists of names, the last name first; the disk maps links to what they resolve to.
abbrev pub linked : Platform
linked = record {
  FilePath = List Text;
  Disk = Dict (List Text) (List Text);
  from_str = λ t. reverse (split b'/' t);
  to_str = λ p. join (b'/' ∷ []) (reverse p);
  as_posix = λ p. join (b'/' ∷ []) (reverse p);
  is_absolute = λ p. starts_with (join (b'/' ∷ []) (reverse p)) (b'/' ∷ []);
  join_path = λ base p. p ++ base;
  child = λ base t. t ∷ base;
  parent = λ p. drop 1 p;
  part_count = length;
  parents = ancestors;
  is_relative_to = λ p base. p == base || contains (ancestors p) base;
  relative_to = λ p base. none;
  has_home = λ p. not (starts_with (join [] (reverse p)) (b'~' ∷ []));
  expanduser = λ p. p;
  resolve = λ d p. elim (lookup p d) [ none ↦ p | some target ↦ target ];
  exists = λ d p. true;
  is_symlink = λ d p. is_some (lookup p d);
  read = λ d p. none;
  write = λ d p content. d;
  unlink = λ d p. d;
  mkdir = λ d p. d;
}

pub linked-HasParents : HasParents linked
linked-HasParents = record { parent_shorter = shorter }
  where
    shorter : (p : List Text) → (drop 1 p == p) ≡ false → length (drop 1 p) < length p
    shorter [] h = ground arith
    shorter (a ∷ p) h = ground arith

-- Without links, a path resolves to itself.
abbrev pub unlinked : Platform
unlinked = record linked { resolve = λ d p. p }

pub unlinked-Resolves : Resolves unlinked
unlinked-Resolves = record { resolve-resolve = λ d p. refl }
