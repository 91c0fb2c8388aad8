-- ===== src/Sync/Init.antt =====
-- `initOwnSync` of packages/core/src/sync.ts. The scaffold and the count of the entries are calls.
use caveat.Common.{
  ℕ, Bool, true, false, not, ◌&&◌, ◌||◌, Option, none, some, [], ◌∷◌, Text, codes, if◌then◌else◌,
  ltb, length, drop, starts_with, is_space, trim,
}
use caveat.AutoSync.{
  own_repo_exists, both_have_entries, inspect, push, fetch, sync_error, recovery_error, other_error,
  SyncFailure,
}
use caveat.Sync.{
  Answer, gave, threw, make_dir, git_init, remove_git_dir, scaffolded, remove_scaffold,
  count_entries, add_remote, remote_url, ls_heads, ls_symref, fetched, checked_out, head_name,
  add_all, commit, pushed, reindex, Env, World, Result, ok, failed, Sync, ◌>>=◌, ◌>>◌, done, throw,
  log, plain, remote, ask, ensure,
}
use caveat.Sync.Remote.{is_line_end, assert_named_github_targets}
use caveat.Sync.Preflight.{
  PreflightOptions, create_git_client, inspect_repo, raw, effective_push_urls,
  assert_private_remotes,
}

-- `InitOwnSyncOptions`
pub record InitOwnSyncOptions : Type 0 where
  pub own_dir : Text
  pub url : Text
  pub preflight : PreflightOptions

-- `InitOwnSyncResult`
pub record InitOwnSyncResult : Type 0 where
  pub own_dir : Text
  pub branch : Text
  pub remote_was_empty : Bool

-- `$` with the flag `m`.
abbrev at_line_end : Text → Bool
at_line_end [] = true
at_line_end (c ∷ cs) = is_line_end c

-- `[^\s]+` and what is behind it.
abbrev word : Text → Text × Text
word [] = ([], [])
word (c ∷ cs) = let (name, rest) = word cs in if is_space c then ([], c ∷ cs) else (c ∷ name, rest)

-- `\s*`
abbrev behind_spaces : Text → Text
behind_spaces [] = []
behind_spaces (c ∷ cs) = if is_space c then behind_spaces cs else c ∷ cs

abbrev first_space : Text → Bool
first_space [] = false
first_space (c ∷ cs) = is_space c

-- `\s+HEAD$`
abbrev is_head : Text → Bool
is_head rest =
    let name = behind_spaces rest in
    first_space rest && starts_with (codes "HEAD") name && at_line_end (drop 4 name)

-- `\s*$`
abbrev ends_line : Text → Bool
ends_line [] = true
ends_line (c ∷ cs) = let rest = ends_line cs in is_line_end c || (is_space c && rest)

abbrev named : (Text → Bool) → Text × Text → Option Text
named good ([], rest) = none
named good (c ∷ cs, rest) = if good rest then some (c ∷ cs) else none

abbrev or_else : Option Text → Option Text → Option Text
or_else (some found) later = some found
or_else none later = later

abbrev symref_prefix : Text
symref_prefix = codes "ref: refs/heads/"

abbrev symref_here : Bool → Text → Option Text
symref_here at_start text =
    if at_start && starts_with symref_prefix text
    then named is_head (word (drop (length symref_prefix) text))
    else none

-- The first match of `/^ref: refs\/heads\/([^\s]+)\s+HEAD$/m`; the flag says that a line starts here.
unfoldable pub symref_branch : Bool → Text → Option Text
symref_branch at_start [] = none
symref_branch at_start (c ∷ cs) =
    or_else (symref_here at_start (c ∷ cs)) (symref_branch (is_line_end c) cs)

abbrev heads_prefix : Text
heads_prefix = codes "refs/heads/"

abbrev head_here : Text → Option Text
head_here text =
    if starts_with heads_prefix text
    then named ends_line (word (drop (length heads_prefix) text))
    else none

-- The first match of `/refs\/heads\/([^\s]+)\s*$/m`.
unfoldable pub first_head : Text → Option Text
first_head [] = none
first_head (c ∷ cs) = or_else (head_here (c ∷ cs)) (first_head cs)

abbrev pub is_text : Text → Bool
is_text [] = false
is_text (c ∷ cs) = true

module _ (env : Env) where
  abbrev pub branch_or_throw : Option Text → Sync Text
  branch_or_throw none = throw other_error
  branch_or_throw (some branch) = done branch

  abbrev pub after_symref : Text → Option Text → Sync Text
  after_symref url (some branch) = done branch
  after_symref url none = ask (ls_heads url) (remote inspect) (env.text (ls_heads url)) >>= λ heads.
      branch_or_throw (first_head heads)

  -- `defaultRemoteBranch`
  unfoldable pub default_remote_branch : Text → Sync Text
  unfolding symref_branch first_head
  default_remote_branch url =
      ask (ls_symref url) (remote inspect) (env.text (ls_symref url)) >>= λ out.
      after_symref url (symref_branch true out)

  -- With a named user, the URL that git makes of the one given.
  unfoldable pub assert_fetch_target : Text → Option Text → Sync (Unit {0})
  unfolding raw assert_named_github_targets
  assert_fetch_target url none = done tt
  assert_fetch_target url (some user) = raw env (remote_url url) >>= λ out.
      assert_named_github_targets env.parse_url (out ∷ []) (some user)

  -- The first import into an empty remote.
  unfoldable pub import_own : InitOwnSyncOptions → ℕ → Sync InitOwnSyncResult
  unfolding raw
  import_own opts entry_count = do
    ask scaffolded plain (env.text scaffolded)
    ask add_all plain (env.text add_all)
    ask (commit entry_count) plain (env.text (commit entry_count))
    branch ← raw env head_name
    ask (pushed branch) (remote push) (env.text (pushed branch))
    ask reindex plain (env.text reindex)
    done (record { own_dir = env.resolve opts.own_dir; branch = branch; remote_was_empty = true })

  -- The checkout of a remote that has branches.
  unfoldable pub join_own : InitOwnSyncOptions → Sync InitOwnSyncResult
  unfolding default_remote_branch
  join_own opts = do
    branch ← default_remote_branch opts.url
    ask (fetched branch) (remote fetch) (env.text (fetched branch))
    ask remove_scaffold plain (env.text remove_scaffold)
    ask (checked_out branch) plain (env.text (checked_out branch))
    ask reindex plain (env.text reindex)
    done (record { own_dir = env.resolve opts.own_dir; branch = branch; remote_was_empty = false })

  abbrev pub import_or_join : InitOwnSyncOptions → Text → ℕ → Sync InitOwnSyncResult
  import_or_join opts [] entry_count = import_own opts entry_count
  import_or_join opts (c ∷ cs) entry_count = join_own opts

  -- The `try` block.
  unfoldable pub connect : InitOwnSyncOptions → Text → ℕ → Sync InitOwnSyncResult
  unfolding import_own join_own effective_push_urls assert_private_remotes
      assert_named_github_targets
  connect opts refs entry_count = do
    ask (add_remote opts.url) plain (env.text (add_remote opts.url))
    urls ← effective_push_urls env
    assert_named_github_targets env.parse_url urls opts.preflight.github_user
    assert_private_remotes env opts.preflight.trust_remote_private urls
    import_or_join opts refs entry_count

  abbrev pub removed : SyncFailure → Answer Text → World → World × Result InitOwnSyncResult
  removed e (gave out) w = (log remove_git_dir w, failed e)
  removed e (threw code) w = (log remove_git_dir w, failed recovery_error)

  -- The `catch`: the `.git` that was just made is removed.
  unfoldable pub rolled_back : World × Result InitOwnSyncResult → World × Result InitOwnSyncResult
  rolled_back (w, ok r) = (w, ok r)
  rolled_back (w, failed e) = removed e (env.text remove_git_dir w.trace) w

  unfoldable pub with_rollback : Sync InitOwnSyncResult → Sync InitOwnSyncResult
  unfolding rolled_back
  with_rollback m w = rolled_back (m w)

  -- `git.init()`, which stands before the `try` block.
  unfoldable pub init_repo : Sync Text
  init_repo = ask git_init plain (env.text git_init)

  -- `initOwnSync`
  unfoldable pub init_own_sync : InitOwnSyncOptions → Sync InitOwnSyncResult
  unfolding create_git_client inspect_repo assert_fetch_target connect with_rollback init_repo
      assert_named_github_targets
  init_own_sync opts = do
    assert_named_github_targets env.parse_url (opts.url ∷ []) opts.preflight.github_user
    ask make_dir plain (env.text make_dir)
    create_git_client env
    repo ← inspect_repo env
    ensure (not repo) (sync_error own_repo_exists)
    create_git_client env
    assert_fetch_target opts.url opts.preflight.github_user
    heads ← ask (ls_heads opts.url) (remote inspect) (env.text (ls_heads opts.url))
    entry_count ← ask count_entries plain env.entry_count
    ensure (not (is_text (trim heads) && ltb 0 entry_count)) (sync_error both_have_entries)
    create_git_client env
    init_repo
    with_rollback (connect opts (trim heads) entry_count)
