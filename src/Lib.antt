-- ===== src/Lib.antt =====
-- livegit mirrors a remote directory, Source, as a mount on the user's machine, Ghost. Ghost keeps a
-- full-tree metadata index and a cache of file contents, and records every local edit in a write
-- journal, from which a worker pushes the edits to the agent that runs on Source.
--
-- Which file models which part of the repository:
--   Prefix.antt    hasPathPrefix (internal/fuse/journal.go), underPrefix (internal/fuse/xattr.go)
--   Paths.antt     internal/config/paths.go and parentRel of internal/fuse/index.go. The functions of
--                  Go's path and strings packages that they call are written out on byte strings.
--   Journal.antt   internal/fuse/journal.go. A method takes the journal and returns it with its
--                  result. Each system call that may fail is an argument (AppendIo, CompactIo). The
--                  log file is the list of its lines; a line that json.Unmarshal refuses is `torn`. A
--                  write that stops short leaves a text without its newline, and the next write goes
--                  on in that line (`write_line`).
--   Index.antt     internal/fuse/index.go. The two Go maps are association lists. `put_locked`,
--                  `remove_locked` and `ensure_ancestors` are putLocked, removeLocked and
--                  ensureAncestors; the snapshot file is the list of entries in it.
--   Remote.antt    `write`, `stat`, `read`, `rename`, `del` and the walks of
--                  internal/agent/fileserver.go on Source's
--                  disk, a map from absolute paths to files. The hash of hashx and the answers of the
--                  system calls are parameters.
--   Upload.antt    writeFile of internal/fuse/source.go, with the call to Source as a parameter that
--                  passes a state along. Upload/Complete.antt runs it against `write` of Remote.antt.
--   Trees.antt     treePage of internal/agent/fileserver.go and fetchTree of internal/fuse/source.go:
--                  the full-tree snapshot in pages. Walk, digest and page encoding are parameters.
--   Flush.antt     internal/fuse/flush.go: flushEntry, the inner loop of RunFlush, FlushAll. Source is
--                  a state behind the calls of SourceRPC.
--   Backend.antt   internal/fuse/backend.go and internal/fuse/invalidate.go between journal, index and
--                  cache: SyncTree (in two steps), Invalidate, RecordWrite, RecordDelete, DropPending.
--   Xattrs.antt    internal/fuse/xattr.go: the store of extended attributes and the calls on it.
--   Shellq.antt    internal/shellq/shellq.go.
--   Codec.antt     internal/proto/codec.go: the framing of messages on a stream.
--   Ignore.antt    internal/config/ignore.go: the rules and what they match.
--   Fetch.antt     internal/fuse/fetch.go: the table of running downloads, who waits for whom.
--   Download.antt  `doFetch` of internal/fuse/fetch.go: one download and its staging.
--   Reading.antt   `readStream` of internal/fuse/source.go, and `doFetch` with it as its source.
--   Endpoint.antt  internal/transport/endpoint.go: the pending calls of a connection, in any order of
--                  the goroutines.
--   Changes.antt   the renames of internal/fuse/backend.go: by way of the journal, and on Source with
--                  the local mirror (Changes/OnSource.antt).
--   Attributes.antt
--                  `RecordSetattr` of internal/fuse/backend.go, `Getattr` and `Readdir` of
--                  internal/fuse/attr.go.
--   Evict.antt     internal/fuse/cache.go: the sweeps over the content cache.
--   Nodes.antt     internal/fuse/node.go: the calls of the kernel on nodes and, in Nodes/Handles.antt, on
--                  open files; Nodes/Inodes.antt the inodes that a rename moves.
--   Jobs.antt      internal/agent/jobs.go, detached jobs: Jobs/Start.antt the launching, with resolveDir
--                  of internal/agent/exec.go; Jobs/Tail.antt the loop that follows a log.
--   Cli.antt       internal/cli/pending.go, internal/cli/cache.go, pendingEntries of internal/cli/status.go
--                  and takeRequests of internal/fuse/mount.go: the commands on the queue and the cache.
--   Exec.antt      internal/agent/exec.go, the hub that runs commands on Source, and RunRemote of
--                  internal/shell/run.go, which asks it.
--   Watch.antt     internal/agent/watcher.go, the watcher of Source's tree.
--   Config.antt    internal/config/config.go: defaults, checks and the mountpoint.
--   Run.antt       internal/cli/run.go: `lg run` with its barrier; the ignore patterns from remoteAgentCmd of
--                  internal/transport/dial.go to internal/cli/serve.go.
-- Prelude.antt and its children hold what these share: tests on numbers and byte strings, list
-- lemmas, sets and maps.
--
-- A string is the list of its bytes; a number is a natural number, and the counters of the journal and
-- of the calls of a connection wrap at 2 ^ 64. `ensure_ancestors` recurses on fuel, the length of the
-- path, which is enough since a parent is shorter than its child. `remove_locked` recurses on the lengths of the indexed paths together,
-- and `walk` on a number given, enough where it exceeds the levels of the subtree.
-- `send_chunks` recurses on the length of the file: a round sends a byte at least. `make_pages`
-- recurses on one more than the number of entries, `drain` and `flush_all` on one more than the
-- number of entries that wait and are not parked, for `drain` with the number of appends beside it.
--
-- `read_stream` recurses on a number of rounds, of which a file that stays as it is needs one more
-- than it has bytes; a varint has ten bytes at most. What the rounds of `wait` and `waitTurn` find is
-- modelled, not how long they sleep. `read` looks at a file twice, at its size and time and then at its
-- bytes, and the two looks may differ.
--
-- In Fetch.antt, Endpoint.antt, Exec.antt and Jobs/Tail.antt every order of the goroutines' steps, or of
-- the processes', is a sequence of steps, each of which is what happens under a lock
-- or on a channel. The methods of the journal and of the index run under their locks, and each call is
-- one step. Everywhere else a function runs by itself, though the code takes no lock over it: nothing is appended to the journal while `flush_all` or `evict_once` runs (what is
-- appended beside `drain` is an argument of it), and a download, a sync of the tree and a command are
-- not interleaved with the calls of the kernel.
--
-- Not modelled: the text of JSON records and the 16 MiB limit on a log line, what of a log is lost
-- where the machine stops although a sync was answered, timers, negative sizes and times, path.Match of
-- one segment (a parameter), the mounting itself, the sessions and the dialing of the transport and
-- the supervisor that connects again, the commands cancel, flush, status and scan, the
-- bytes between a terminal and a pty, the setting up of a project, its configuration file and its
-- secrets, and the printing and the prompts of the commands.
pub mod Prelude
pub mod Prefix
pub mod Paths
pub mod Journal
pub mod Index
pub mod Remote
pub mod Upload
pub mod Trees
pub mod Flush
pub mod Backend
pub mod Xattrs
pub mod Shellq
pub mod Codec
pub mod Ignore
pub mod Fetch
pub mod Download
pub mod Reading
pub mod Endpoint
pub mod Changes
pub mod Attributes
pub mod Evict
pub mod Nodes
pub mod Jobs
pub mod Cli
pub mod Exec
pub mod Watch
pub mod Config
pub mod Run
