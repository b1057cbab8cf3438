-- ===== src/Safety/Boundary/Laws.antt =====
-- What a validated path satisfies: `WorkspaceBoundary.validate_path` of
-- localagentcli/safety/boundary.py against the chain of its parent directories.
use local_agent_cli.Base.{
  Bool-cases, Eq, List, [], all, arith, false, inl, inr, nat_eq, not, refl, suc, true, zero, ℕ, ◌<◌,
  ◌==◌, ◌||◌, ◌↔◌, ◌∷◌, ◌≡◌,
}
use local_agent_cli.Base.Result.{Result, ok}
use local_agent_cli.Platform.{HasParents, Platform}
use local_agent_cli.Safety.Boundary.{
  PathArgument, WorkspaceBoundary, candidate_of, components_loop, validate_path, validate_symlink,
  validate_symlinks,
}

module _ (P : Platform) ⦃e : Eq P.FilePath⦄ where
  -- `c` is reached from `p` by going to the parent, and not past the root.
  pub data Above (root : P.FilePath) : P.FilePath → P.FilePath → Type 0 where
    here : {p : P.FilePath} → Above root p p
    up :
        {p c : P.FilePath}
        → (p == root) ≡ false
        → (P.parent p == p) ≡ false
        → Above root (P.parent p) c
        → Above root p c

  -- No link from `c` leads out of the workspace.
  abbrev pub LinkInside : P.Disk → P.FilePath → P.FilePath → Type 0
  LinkInside disk root c =
      (not (P.is_symlink disk c) || P.is_relative_to (P.resolve disk c) root) ≡ true

  -- What a path has to satisfy, independently of the walk.
  pub record IsInside (b : WorkspaceBoundary P) (disk : P.Disk) (p : P.FilePath) : Type 0 where
    pub within : P.is_relative_to (P.resolve disk p) b.root ≡ true
    pub links : (c : P.FilePath) → Above b.root p c → LinkInside disk b.root c

module _ (P : Platform) ⦃e : Eq P.FilePath⦄ (b : WorkspaceBoundary P) (disk : P.Disk) where
  validate_symlink-ok :
      (p : P.FilePath) → (validate_symlink P b disk p ≡ ok tt) ↔ LinkInside P disk b.root p
  unfolding validate_symlink
  validate_symlink-ok p = ground arith

  validate_symlinks-cons :
      (p : P.FilePath) (rest : List P.FilePath)
      → (validate_symlinks P b disk (p ∷ rest) ≡ ok tt)
        ↔ ((validate_symlink P b disk p ≡ ok tt) × (validate_symlinks P b disk rest ≡ ok tt))
  unfolding validate_symlinks
  validate_symlinks-cons p rest = ground arith

  -- The walk has checked every path of the chain, where the fuel exceeds the number of parts.
  loop_sound :
      (parents : HasParents P) (fuel : ℕ) (p c : P.FilePath)
      → P.part_count p < fuel
      → validate_symlinks P b disk (components_loop P disk b.root fuel p) ≡ ok tt
      → Above P b.root p c
      → LinkInside P disk b.root c
  unfolding components_loop
  loop_sound parents zero p c lt h a = absurd (omega arith)
  loop_sound parents (suc fuel) p c lt h here = ground (
    arith,
    validate_symlink-ok p,
    validate_symlinks-cons p (components_loop P disk b.root fuel (P.parent p)),
    validate_symlinks-cons p [],
  )
  loop_sound parents (suc fuel) p c lt h (up r t a) =
      loop_sound parents fuel (P.parent p) c (ground (arith, parents.parent_shorter p))
        (ground (arith, validate_symlinks-cons p (components_loop P disk b.root fuel (P.parent p))))
        a

  loop_complete :
      (fuel : ℕ) (p : P.FilePath)
      → ((c : P.FilePath) → Above P b.root p c → LinkInside P disk b.root c)
      → validate_symlinks P b disk (components_loop P disk b.root fuel p) ≡ ok tt
  unfolding components_loop validate_symlinks
  loop_complete zero p all = refl
  loop_complete (suc fuel) p all = elim (Bool-cases (p == b.root || P.parent p == p)) [
    | inl stop ↦ ground (arith, validate_symlink-ok p, all p here)
    | inr on ↦ ground (
      arith,
      validate_symlink-ok p,
      all p here,
      loop_complete fuel (P.parent p) (λ c a. all c (up (ground arith) (ground arith) a)),
    )
  ]

  -- On a platform where a path's parent has fewer parts: `validate_path` returns a path exactly if
  -- the candidate resolves inside the root and no link on the chain from the candidate up to the
  -- root leads out; and what it returns is the resolved candidate.
  pub validate_path-IsInside :
      (parents : HasParents P) (given : PathArgument P) (r : P.FilePath)
      → (validate_path P b disk given ≡ ok r) ↔ (
          (r ≡ P.resolve disk (P.expanduser (candidate_of P b given)))
          × IsInside P b disk (P.expanduser (candidate_of P b given)))
  unfolding validate_path
  validate_path-IsInside parents given r = (forward, λ (e, i). backward e i)
    where
      c : P.FilePath
      c = P.expanduser (candidate_of P b given)

      walk : Result (Unit {0})
      walk = validate_symlinks P b disk (components_loop P disk b.root (suc (P.part_count c)) c)

      forward : validate_path P b disk given ≡ ok r → (r ≡ P.resolve disk c) × IsInside P b disk c
      forward h = (
        ground arith,
        record {
          within = ground arith;
          links =
              λ d a. loop_sound parents (suc (P.part_count c)) c d (omega arith) (ground arith) a;
        },
      )

      backward : r ≡ P.resolve disk c → IsInside P b disk c → validate_path P b disk given ≡ ok r
      backward q i = ground (arith, i.within, loop_complete (suc (P.part_count c)) c i.links)
