-- ===== src/Tests/Sessions.antt =====
-- A session of calls on files that are texts, one of which is reached by a link.
use local_agent_cli.Base.{
  List, [], arith, false, list_eq, nat_eq, none, refl, string_eq, true, ◌==◌, ◌∷◌, ◌≡◌, ◌≢◌,
}
use local_agent_cli.Base.Dict.{Dict, insert, lookup, lookup-insert}
use local_agent_cli.Base.Text.{Text, codes, starts_with}
use local_agent_cli.Base.Json.{end, field, get, null, str}
use local_agent_cli.Base.Result.{ok}
use local_agent_cli.Tools.Base.{Tool, success}
use local_agent_cli.Safety.Posture.{workspace_write}
use local_agent_cli.Safety.Approval.{approval_manager}
use local_agent_cli.Safety.Boundary.{WorkspaceBoundary, candidate_of, raw, text, validate_path}
use local_agent_cli.Safety.Rollback.{RollbackEntry, RollbackManager, undo_all}
use local_agent_cli.Safety.Rollback.Views.{outside_storage}
use local_agent_cli.Safety.Layer.{SafetyLayer, State, modification_targets, safety_layer}
use local_agent_cli.Safety.Layer.LocalCall.{Call, IsBackedUp, IsLocal, backed_up, unchanged}
use local_agent_cli.Safety.Layer.Session.{run_calls, undo_all-run_calls}
use local_agent_cli.Tests.Platforms.{linked_files, linked_files-HasFiles, linked_files-HasNames}

-- Two files, and a link to the first of them.
abbrev disk : Dict Text Text × Dict Text Text
disk = (
  (codes "/w/a", codes "old") ∷ (codes "/w/c", codes "same") ∷ [],
  (codes "/w/l", codes "/w/a") ∷ [],
)

abbrev manager : RollbackManager linked_files
manager = record {
  session_id = codes "s";
  storage = codes "/b";
  codec = record { dumps = λ j. []; loads = λ t. ok null; int_of = λ j. ok 0; str_of = λ j. [] };
}

abbrev workspace : WorkspaceBoundary linked_files
workspace = record { root = codes "/w" }

abbrev layer : SafetyLayer linked_files
layer =
    safety_layer linked_files disk (approval_manager "autonomous") workspace manager workspace_write

abbrev file_write : Tool
file_write = record {
  name = "file_write";
  description = [];
  parameters_schema = null;
  requires_approval = true;
  is_read_only = false;
  required_model_capabilities = [];
  minimum_model_default_max_tokens = 0;
}

-- The tool resolves the path on the disk that it is given.
abbrev writing : Text → Text → Call linked_files
writing p content = record {
  now = codes "now";
  tool = file_write;
  args = field "path" (str p) end;
  run = λ d. (
    success (codes "Wrote") [] none (p ∷ []),
    (insert (linked_files.resolve d p) content d.0, d.1),
  );
}

valid-resolve :
    (d : linked_files.Disk) (t p : Text)
    → linked_files.is_absolute t ≡ true
    → validate_path linked_files workspace d (text t) ≡ ok p
    → p ≡ linked_files.resolve d t
unfolding validate_path candidate_of raw
valid-resolve d t p a h = ground arith

valid-inside :
    (d : linked_files.Disk) (t p : Text)
    → validate_path linked_files workspace d (text t) ≡ ok p
    → linked_files.is_relative_to p workspace.root ≡ true
unfolding validate_path candidate_of raw
valid-inside d t p h = ground arith

-- What is inside the workspace is outside the storage.
inside-outside :
    (p : Text)
    → linked_files.is_relative_to p (codes "/w") ≡ true
    → linked_files.is_relative_to p (codes "/b") ≡ false
unfolding codes starts_with list_eq nat_eq
inside-outside [] h = ground arith
inside-outside (a ∷ []) h = ground arith
inside-outside (a ∷ b ∷ p) h = ground arith

-- A backup moves no link.
writes_only :
    (t content p q : Text) {d d' : linked_files.Disk}
    → p ≡ linked_files.resolve d t
    → (q == p) ≡ false
    → IsBackedUp linked_files layer d d'
    → lookup q (insert (linked_files.resolve d' t) content d'.0) ≡ lookup q d'.0
writes_only t content p q {d} {d'} h k unchanged =
    ground (arith, h, lookup-insert q (linked_files.resolve d t) content d.0)
writes_only t content p q {d} {d'} h k (backed_up count p' old) =
    ground (arith, h, lookup-insert q (linked_files.resolve d t) content d'.0)

writing-IsLocal :
    (t content : Text)
    → linked_files.is_absolute t ≡ true
    → t ≢ []
    → IsLocal linked_files layer (writing t content)
unfolding success modification_targets get string_eq safety_layer list_eq nat_eq
writing-IsLocal t content a n = record {
  target = t;
  single = ground arith;
  outside = λ d p h. inside-outside p (valid-inside d t p h);
  only = λ {d} {d'} p q b h k. writes_only t content p q (valid-resolve d t p a h) k b;
  harmless_failure = λ d q h. ground arith;
}

abbrev session : List (Call linked_files)
session =
    writing (codes "/w/l") (codes "newer")
    ∷ writing (codes "/w/b") (codes "new")
    ∷ writing (codes "/w/a") (codes "newest")
    ∷ []

abbrev fresh : State linked_files
fresh = record { world = record { disk = disk; entries = [] }; pending_changes = [] }

undo_all-run_calls_example :
    let after = (run_calls linked_files layer (λ a. []) session fresh).world in
    let (result, restored) = undo_all linked_files layer.rollback after in
    (undone : List RollbackEntry) × (result ≡ ok undone)
    × (restored.entries ≡ [])
    × (outside_storage linked_files layer.rollback (linked_files.read restored.disk)
        ≡ outside_storage linked_files layer.rollback (linked_files.read fresh.world.disk))
unfolding codes starts_with list_eq nat_eq safety_layer
undo_all-run_calls_example =
    undo_all-run_calls linked_files linked_files-HasFiles linked_files-HasNames layer (λ a. [])
      session fresh
      (
        writing-IsLocal (codes "/w/l") (codes "newer") refl (λ q. cc),
        (
          writing-IsLocal (codes "/w/b") (codes "new") refl (λ q. cc),
          (writing-IsLocal (codes "/w/a") (codes "newest") refl (λ q. cc), tt),
        ),
      )
      refl
