-- ===== src/Tests/Rollbacks.antt =====
-- Runs of the rollback log and of a session of calls on files that are texts.
use local_agent_cli.Base.{
  Option, [], arith, if◌then◌else◌, list_eq, nat_eq, none, refl, string_eq, ℕ, ◌==◌, ◌∷◌, ◌≡◌,
}
use local_agent_cli.Base.Dict.{Dict, lookup}
use local_agent_cli.Base.Text.{Text, codes, replace, starts_with}
use local_agent_cli.Base.Json.{Json, null, num, str}
use local_agent_cli.Safety.Rollback.{
  Codec, RollbackEntry, RollbackManager, RoundTrips, World, backup_name, load_log, payload,
  undo_all, write_log,
}
use local_agent_cli.Safety.Rollback.Log.{load_log-write_log}
use local_agent_cli.Safety.Rollback.Names.{backup_name-injective}
use local_agent_cli.Safety.Rollback.Views.{created, outside_storage}
use local_agent_cli.Safety.Rollback.Undo.{undo_all-outside_storage}
use local_agent_cli.Tests.Platforms.{flat, flat-HasFiles, flat-HasNames}
use local_agent_cli.Base.Result.{Result, err, ok, type_error}

abbrev disk : Dict Text Text
disk = (codes "/w/a", codes "old") ∷ (codes "/w/c", codes "same") ∷ []

-- A codec that keeps numbers and texts, and whose documents are all the log of one session.
int_of : Json → Result ℕ
int_of (num n) = ok n
int_of _ = err (type_error (codes "int() argument"))

str_of : Json → Text
str_of (str t) = t
str_of _ = []

abbrev created_entry : RollbackEntry
created_entry = record {
  index = 1;
  timestamp = codes "now";
  tool = codes "file_write";
  file_path = codes "/w/b";
  backup_path = none;
  action = codes "created";
  summary = [];
}

abbrev codec_of : Json → Codec
codec_of document = record {
  dumps = λ j. [];
  loads = λ t. ok document;
  int_of = int_of;
  str_of = str_of;
}

abbrev manager_with : Codec → RollbackManager flat
manager_with codec = record { session_id = codes "s"; storage = codes "/b"; codec = codec }

abbrev document : Json
document = payload flat (manager_with (codec_of null)) (created_entry ∷ [])

abbrev manager : RollbackManager flat
manager = manager_with (codec_of document)

abbrev one_creation : World flat
one_creation = record { disk = (codes "/w/b", codes "new") ∷ disk; entries = created_entry ∷ [] }

manager-RoundTrips : RoundTrips manager.codec document
unfolding int_of str_of
manager-RoundTrips = record { loads-dumps = refl; int_of_num = λ n. refl; str_of_str = λ t. refl }

load_log-write_log_example :
    load_log flat manager (write_log flat manager one_creation).1.disk ≡ ok (created_entry ∷ [])
load_log-write_log_example =
    load_log-write_log flat manager flat-HasFiles one_creation manager-RoundTrips (tt, tt)

backup_name-injective_example : ◌≡◌ {A = ℕ} 2 2
unfolding backup_name codes replace nat_eq
backup_name-injective_example =
    backup_name-injective flat manager flat-HasNames 2 2 (codes "/w/a_b") (codes "/w/a/b") refl

unfoldable pub original : Text → Option Text
original q = lookup q disk

-- A new key hidden is a key not there.
hidden-lookup :
    (q k v : Text) (d : Dict Text Text)
    → lookup k d ≡ none
    → (if q == k then none else lookup q ((k, v) ∷ d)) ≡ lookup q d
unfolding lookup
hidden-lookup q k v d h = ground arith

undo_all-outside_storage_example :
    ((undo_all flat manager one_creation).0 ≡ ok (created_entry ∷ []))
    × ((undo_all flat manager one_creation).1.entries ≡ [])
    × (outside_storage flat manager (flat.read (undo_all flat manager one_creation).1.disk)
        ≡ outside_storage flat manager original)
unfolding original lookup list_eq codes nat_eq starts_with
undo_all-outside_storage_example =
    undo_all-outside_storage flat manager flat-HasFiles flat-HasNames (created_entry ∷ [])
      one_creation original refl
      (created refl refl refl, tt, λ q h. hidden-lookup q (codes "/w/b") (codes "new") disk refl)
