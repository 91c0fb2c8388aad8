-- ===== src/Sync.antt =====
-- packages/core/src/sync.ts: the data of the sync of the own knowledge repository. What git, the
-- network and the disk answer is an oracle that sees all the calls so far; `Sync A` is a step that
-- makes calls and returns or throws.
pub mod Remote
pub mod Preflight
pub mod Own
pub mod Init
pub mod Rules
pub mod Quiet
pub mod Cleared
pub mod Locked
pub mod Received
pub mod Watch
pub mod Pushes
pub mod Restrained
pub mod Made
pub mod Started
pub mod Undone
pub mod Verdicts
pub mod Reports
pub mod Tests
use caveat.Common.{ℕ, Bool, true, false, Option, none, some, List, [], ◌∷◌, ◌++◌, Text}
use caveat.Lock.{LockFile, Probe}
use caveat.AutoSync.{
  SyncErrorCode, SyncPhase, SyncFailure, sync_error, remote_error, other_error, RemoteAccess,
}

-- What a call gives: a value, or an error with the code that `githubCredentialFailureCode` sees.
pub data Answer {ℓ} (A : Type ℓ) : Type ℓ where
  gave : A → Answer A
  threw : Option SyncErrorCode → Answer A

-- The calls, in the order of the program. A probe stands with its verdict.
pub data Call : Type 0 where
  create_git check_is_repo show_toplevel symbolic_ref list_remotes get_url : Call
  -- The push URLs, as git has named them.
  targets : (urls : List Text) → Call
  git_path : (name : Text) → Call
  probed : (url : Text) → RemoteAccess → Call
  common_dir status add_all rebase_abort reindex : Call
  commit : (changed_files : ℕ) → Call
  ls_remote pushed : (branch : Text) → Call
  pulled : (branch : Text) → (autostash : Bool) → Call
  -- Those of `initOwnSync`.
  make_dir git_init remove_git_dir scaffolded remove_scaffold count_entries : Call
  add_remote remote_url ls_heads ls_symref : (url : Text) → Call
  fetched checked_out : (branch : Text) → Call
  head_name : Call

-- `new URL(text)`
pub record Url : Type 0 where
  pub protocol : Text
  pub host : Text
  pub hostname : Text
  pub username : Text
  pub password : Text
  pub pathname : Text
  pub search : Text
  pub hash : Text
  pub href : Text

pub record Env : Type 0 where
  pub text : Call → List Call → Answer Text
  -- `git remote get-url --push --all origin`
  pub push_urls : List Call → Answer Text
  pub is_repo : List Call → Answer Bool
  pub files : List Call → Answer (List Text)
  pub entry_count : List Call → Answer ℕ
  pub is_directory : List Call → Bool
  pub exists : Text → List Call → Bool
  pub verdict : Option Text → List Call → Answer RemoteAccess
  pub realpath : Text → Option Text
  -- `resolve(path)`, `normalizePathCase` and `resolve(base, path)`.
  pub resolve : Text → Text
  pub normalize_case : Text → Text
  pub resolve_in : Text → Text → Text
  pub parse_url : Text → Option Url
  pub kill : ℕ → Probe
  pub me : ℕ

pub record World : Type 0 where
  pub trace : List Call
  pub index_lock : LockFile
  pub repo_lock : LockFile

pub data Result {ℓ} (A : Type ℓ) : Type ℓ where
  ok : A → Result A
  failed : SyncFailure → Result A

abbrev pub Sync {ℓ} : Type ℓ → Type ℓ
Sync A = World → World × Result A

-- What follows a result.
abbrev pub then_run {ℓ κ} :
    {A : Type ℓ} {B : Type κ} → (A → Sync B) → World × Result A → World × Result B
then_run f (w, ok a) = f a w
then_run f (w, failed e) = (w, failed e)

infixl 5 ◌>>=◌ ◌>>◌
unfoldable pub ◌>>=◌ {ℓ κ} : {A : Type ℓ} {B : Type κ} → Sync A → (A → Sync B) → Sync B
◌>>=◌ m f w = then_run f (m w)

abbrev pub ◌>>◌ {ℓ κ} : {A : Type ℓ} {B : Type κ} → Sync A → Sync B → Sync B
m >> k = m >>= λ a. k

abbrev pub done {ℓ} : {A : Type ℓ} → A → Sync A
done a w = (w, ok a)

abbrev pub throw {ℓ} : {A : Type ℓ} → SyncFailure → Sync A
throw e w = (w, failed e)

abbrev pub log : Call → World → World
log c w = record w { trace = w.trace ++ c ∷ [] }

-- An error passes as it is, and is no `SyncError`.
abbrev pub plain {ℓ} : {A : Type ℓ} → Answer A → Result A
plain (gave a) = ok a
plain (threw code) = failed other_error

-- `remoteOperation`
abbrev pub remote {ℓ} : {A : Type ℓ} → SyncPhase → Answer A → Result A
remote phase (gave a) = ok a
remote phase (threw none) = failed (remote_error phase)
remote phase (threw (some code)) = failed (sync_error code)

-- An error that is a `SyncError` already, as `createGit` throws it.
abbrev pub coded {ℓ} : {A : Type ℓ} → Answer A → Result A
coded (gave a) = ok a
coded (threw none) = failed other_error
coded (threw (some code)) = failed (sync_error code)

-- One call, and what its answer counts as.
abbrev pub ask {ℓ} : {A : Type ℓ} → Call → (Answer A → Result A) → (List Call → Answer A) → Sync A
ask c as_result answer w = (log c w, as_result (answer w.trace))

abbrev pub ensure : Bool → SyncFailure → Sync (Unit {0})
ensure true e w = (w, ok tt)
ensure false e w = (w, failed e)
