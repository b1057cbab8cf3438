-- ===== src/Safety/Policy/Laws.antt =====
-- Which paths a policy lets a tool write: removing repeated roots changes nothing.
use local_agent_cli.Base.{
  Bool, Eq, List, Option, [], any, ap, arith, contains, false, map, refl, some, string_eq, true,
  ◌∙◌, ◌∷◌, ◌≡◌,
}
use local_agent_cli.Platform.{Platform, Resolves}
use local_agent_cli.Safety.Posture.{danger_full_access, read_only, workspace_write}
use local_agent_cli.Safety.Policy.{can_write_path, from_posture, is_under, normalize_loop}

module _ (P : Platform) ⦃e : Eq P.FilePath⦄ where
  abbrev pub resolved_roots : P.Disk → List P.FilePath → List P.FilePath
  resolved_roots disk roots = map (λ root. P.resolve disk (P.expanduser root)) roots

  any-contains :
      (test : P.FilePath → Bool) (x : P.FilePath) (seen : List P.FilePath)
      → contains seen x ≡ true
      → any test seen ≡ false
      → test x ≡ false
  any-contains test x [] h k = cc
  any-contains test x (y ∷ seen) h k = ground (arith, any-contains test x seen, ap test)

  -- Leaving out what has been seen changes no test for membership, where no seen root passes.
  any-normalize_loop :
      (disk : P.Disk) (test : P.FilePath → Bool) (seen roots : List P.FilePath)
      → any test seen ≡ false
      → any test (normalize_loop P disk seen roots) ≡ any test (resolved_roots disk roots)
  unfolding normalize_loop
  any-normalize_loop disk test seen [] h = refl
  any-normalize_loop disk test seen (root ∷ roots) h =
      let r = P.resolve disk (P.expanduser root) in
      ground (
        arith,
        any-contains test r seen,
        any-normalize_loop disk test seen roots,
        any-normalize_loop disk test (r ∷ seen) roots,
      )

  any-map :
      (test : P.FilePath → Bool) (f : P.FilePath → P.FilePath) (roots : List P.FilePath)
      → any test (map f roots) ≡ any (λ r. test (f r)) roots
  any-map test f [] = refl
  any-map test f (r ∷ roots) = ground (arith, any-map test f roots)

  any-resolved_twice :
      (laws : Resolves P) (disk : P.Disk) (test : P.FilePath → Bool) (roots : List P.FilePath)
      → any (λ r. test (P.resolve disk (P.expanduser r))) (resolved_roots disk roots)
        ≡ any test (resolved_roots disk roots)
  any-resolved_twice laws disk test [] = refl
  any-resolved_twice laws disk test (r ∷ roots) =
      rw (laws.resolve-resolve disk (P.expanduser r), any-resolved_twice laws disk test roots)

  any-normalized_extra :
      (laws : Resolves P) (disk : P.Disk) (test : P.FilePath → Bool) (extra : List P.FilePath)
      → any test (resolved_roots disk (normalize_loop P disk [] extra))
        ≡ any test (resolved_roots disk extra)
  any-normalized_extra laws disk test extra =
      any-map test (λ r. P.resolve disk (P.expanduser r)) (normalize_loop P disk [] extra)
      ∙ (any-normalize_loop disk (λ r. test (P.resolve disk (P.expanduser r))) [] extra refl
          ∙ any-resolved_twice laws disk test extra)

  any-workspace_roots :
      (laws : Resolves P) (disk : P.Disk) (test : P.FilePath → Bool) (root : P.FilePath)
      (extra : List P.FilePath)
      → any test (
          normalize_loop P disk []
            (P.resolve disk (P.expanduser root) ∷ normalize_loop P disk [] extra))
        ≡ any test (resolved_roots disk (root ∷ extra))
  any-workspace_roots laws disk test root extra =
      any-normalize_loop disk test []
        (P.resolve disk (P.expanduser root) ∷ normalize_loop P disk [] extra) refl
      ∙ rw
          (laws.resolve-resolve disk (P.expanduser root), any-normalized_extra laws disk test extra)

  -- On a platform whose `resolve` is idempotent: the read-only posture lets no path be written, full
  -- access lets every path, and the workspace posture lets exactly those that resolve to the
  -- workspace root or one of the extra roots, each resolved, or to a path below one of these.
  pub can_write_path-from_posture :
      (laws : Resolves P) (disk : P.Disk) (root path : P.FilePath) (extra : List P.FilePath)
      (network : Option Bool)
      → (can_write_path P disk (from_posture P disk read_only root (some extra) network) path
          ≡ false)
        × (can_write_path P disk
              (from_posture P disk danger_full_access root (some extra) network)
              path
            ≡ true)
        × (can_write_path P disk
              (from_posture P disk workspace_write root (some extra) network)
              path
            ≡ any
                (is_under P (P.resolve disk (P.expanduser path)))
                (resolved_roots disk (root ∷ extra)))
  unfolding can_write_path from_posture
  can_write_path-from_posture laws disk root path extra network = (
    refl,
    refl,
    any-workspace_roots laws disk (is_under P (P.resolve disk (P.expanduser path))) root extra,
  )
