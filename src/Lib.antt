-- ===== src/Lib.antt =====
-- Caveat keeps traps that coding agents ran into as Markdown entries, surfaces them through agent
-- hooks and keeps the private knowledge repository in sync. This library models the parts of
-- packages/core/src whose logic is its own:
--
-- Lock: autoReindex.ts, the lock file that the reindex worker and the autosync worker take;
-- call by call (`step`) and as a whole (`acquire_file_lock`).
-- Transcript: transcriptSignals.ts (Transcript/Claude) and codexTranscriptSignals.ts
-- (Transcript/Codex), which read the struggle signals out of a session's transcript.
-- AutoSync: autoSync.ts, the periodic cycle that syncs the knowledge repository: its data in
-- AutoSync/State, one cycle in AutoSync/Cycle (on the locks of Lock; the call of `syncOwn` is logged
-- where `own_step` makes it), the wait of a write in AutoSync/Wait. AutoSync/Counter is about rows
-- of cycles.
-- Retrieval: claudeHooks.ts, the search behind the hooks: Retrieval/Paths and Retrieval/Candidates
-- make the search tokens of a prompt, Retrieval/Search finds the rows (`findCaveatsForText` up to
-- `toSearchResult`), Retrieval/Surfaces is what each hook asks for and
-- Retrieval/Reminder and Retrieval/Stop what a hook says of the hits.
-- Pending: pendingReminders.ts, the claims and reminders of one session; Pending/Once is about many
-- processes, Pending/Build about one that builds and publishes; Pending/Queue is the drain,
-- the peek and the acknowledgement of what waits, Pending/Sweep the sweep of old session directories.
-- Sync: sync.ts, remoteVisibility.ts and parts of githubCredential.ts. A step is a function of a world: the
-- calls so far and the two lock files; what git, the network and the disk answer is an oracle
-- that sees the calls so far. Sync/Preflight is `preflightSync`, Sync/Own `syncOwn`, Sync/Init
-- `initOwnSync`, Sync/Remote the probes; Sync/Rules has the rules by which the other
-- files say what steps keep, Sync/Watch the watch over the pushes.
-- Entry: entryConstraints.ts, the size of the arguments and, in Entry/Graph, the limits on a
-- frontmatter; a value carries the identities of its objects.
-- Common and Json: what the parts share: text, `Map` and `Set`, sorting, JSON values.
--
-- A JavaScript string is a list of UTF-16 code units. Times are numbers of milliseconds from 1970.
-- A number of JSON is an integer or `fraction`. The file system, git, the network, the clock, processes, `JSON.parse`,
-- `Date.parse`, SHA-256 and the database are parameters: a function, or a field of the record of
-- answers that an operation is given. What runs under the queue lock of Pending is one step, and its
-- random tokens are arguments. `wait_loop` has 301 units of fuel, one for each pause and one for the
-- last cycle: a pause takes 100 ms or the rest of the 30 seconds after which the wait stops.
-- `count_bytes` has `value_fuel`, one unit for each task that the loop takes from its stack. All
-- other loops recur on the data that they run through.
--
-- Not modelled: the git client, the community repositories and the GitHub credentials, the SQLite
-- store and its index, the global deployment and its recovery, the publication of sealed bundles,
-- the command line, the web and MCP front ends.
pub mod AutoSync
pub mod Common
pub mod Entry
pub mod Json
pub mod Lock
pub mod Pending
pub mod Retrieval
pub mod Sync
pub mod Transcript
