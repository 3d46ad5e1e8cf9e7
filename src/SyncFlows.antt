-- ===== src/SyncFlows.antt =====
-- src/services/design-mgmt-service.ts: `syncToRepo` and `syncToCouch`, which move design documents
-- between CouchDB and a git repository.
--
-- A call is a `Run`: the writes it issues, in order, and its result or the error it throws. What
-- CouchDB, the git provider and the metadata store answer is the parameter `Remote`; a request that
-- fails is `none` or `false` there. `Dict` is the `Map` from path to blob sha.
pub mod Reading
pub mod Answers
pub mod Classifying
pub mod ToRepo
pub mod ToCouch
mod Tests
use couch_companion_ui.Prelude.{
  ℕ, ◌+◌, Bool, true, false, not, ◌&&◌, ◌||◌, Option, none, some, List, [], ◌∷◌, ◌++◌, Text,
  if◌then◌else◌, ◌===◌, text_eq,
}
use couch_companion_ui.DesignSync.{Json, SyncStatus}

-- The `sync:` document.
pub record SyncState : Type 0 where
  pub ddoc_id : Text
  pub git_repo_id : Text
  pub git_sha : Option Text
  pub ddoc_rev : Option Text

-- The `conflict:` document.
pub record Conflict : Type 0 where
  pub ddoc_id : Text
  pub git_repo_id : Text
  pub couch_rev : Text
  pub git_sha : Text
  pub conflict_branch : Text
  pub resolved : Bool
  pub detected_at : Text

pub record FileChange : Type 0 where
  pub path : Text
  pub content : Text

pub record FileSha : Type 0 where
  pub path : Text
  pub blob_sha : Text

-- What `GET` of a document gives: the document, a 404, or another failure.
pub data Answer : Type 0 where
  found : Json → Answer
  not_found : Answer
  failure : Answer

pub record Target : Type 0 where
  pub repo_id : Text
  pub db_name : Text
  pub branch : Text
  pub path : Text

pub record Remote : Type 0 where
  pub list_tree : Option (List FileSha)
  pub get_ddoc : Text → Answer
  pub get_file : Text → Option (Option Text)
  pub get_sync_state : Text → Option (Option SyncState)
  pub get_conflict : Text → Option (Option Conflict)
  pub commit : List FileChange → Option (List FileSha)
  pub put_ddoc : Text → Json → Option Text
  pub saves : SyncState → Bool
  pub parse : Text → Option Json
  pub stringify : Json → Text
  pub now : Text

-- What a sync writes.
pub data Effect : Type 0 where
  store_conflict : Conflict → Effect
  store_sync_state : SyncState → Effect
  commit_files : List FileChange → Effect
  put_document : Text → Json → Effect

-- Why a sync throws.
pub data SyncError : Type 0 where
  request_failed : SyncError
  conflicts_found : List Text → SyncError
  stopped_halfway :
      (written : List Text) (not_recorded : List Text) (never_written : List Text) → SyncError

pub data Result {ℓ} (A : Type ℓ) : Type ℓ where
  done : A → Result A
  failed : SyncError → Result A

pub record Run {ℓ} (A : Type ℓ) : Type ℓ where
  pub effects : List Effect
  pub result : Result A

abbrev pub run_pure {ℓ} : {A : Type ℓ} → A → Run A
run_pure a = record { effects = []; result = done a }

abbrev pub run_fail {ℓ} : {A : Type ℓ} → List Effect → SyncError → Run A
run_fail es e = record { effects = es; result = failed e }

-- What follows the effects `es`.
abbrev pub after {ℓ} : {A : Type ℓ} → List Effect → Run A → Run A
after es m = record { effects = es ++ m.effects; result = m.result }

infixl 5 ◌>>=◌
abbrev pub ◌>>=◌ {ℓ κ} : {A : Type ℓ} {B : Type κ} → Run A → (A → Run B) → Run B
m >>= f = elim m.result [ done a ↦ after m.effects (f a) | failed e ↦ run_fail m.effects e ]
