-- ===== src/Lib.antt =====
-- Agent dashboard: a terminal and web dashboard for coding agents that run in tmux panes.
--
-- The parts. Hooks of the agents write one JSON file per session into a directory; the dashboard
-- reads the files, lets a transcript override a state, resolves each agent against tmux and git,
-- shows the agents in order, pins worktrees and removes the files of the dead. Both it and the hooks
-- write under a lock file. It starts agents through a harness, which builds a shell command, and
-- serves a web page behind a sign-in. All parts are functions on values: a directory, a set of
-- markers, a folder of staging files or a game goes in and comes out. Git, tmux, the clock, time
-- parsing, hashing and encoding are parameters.
--
-- Which file models which part:
-- - Domain: `Agent` and the priorities of internal/domain/types.go.
-- - State.Arbitration, .Order, .Disk, .Orphan, .Prune, .Targets, .Branches, .Markers:
--   internal/state/state.go. `ApplyStateArbitration`, `SortedAgents`, `ReadState` with `ReadAgent`,
--   `PinAgentState` and `stampAgentFields`, `IsResumableOrphan`, `PruneDead`, `ResolveAgentTargets`,
--   `ResolveAgentBranches`, and `claimMarker` with `ResolveAgentWorktree`.
-- - State.FileLock: `withFileLock` of internal/state/filelock.go, as a step function on any number
--   of processes; one step is one file operation, and a schedule is a list of steps.
-- - State.SpawnPin: internal/state/spawnpin.go.
-- - Git: `ListWorktrees` and `parsePorcelain` of internal/git/worktree.go, on texts.
-- - Harness, .Claude, .Codex, .Options, .Input, .Registry: internal/harness and the guard of
--   internal/web/actions.go on a requested effort. Harness.Shell is the reader of shell words that
--   the command lines are compared with.
-- - Tmux: the targets, keys, windows and panes of internal/tmux/tmux.go, over any runner of commands.
--   Repowin: internal/repowin/repowin.go.
-- - Web.Actions: `handleCreate` and `handleResume` with `spawnInRepoWindow`, `handleAnswerQuestion`
--   with the drivers of the pickers, `handleCleanup`, `handleStop` and `handleClose` of
--   internal/web/actions.go, which put the models of the agent files, the pins, the harnesses and
--   tmux together. Web.Trust: internal/web/trust.go.
-- - Usage: internal/usage/usage.go and usage_cache.go.
-- - Conversation: internal/conversation/conversation.go. `Texts` and `Entries` make entries of lines,
--   `Reader` is `ReadConversationIncremental`, `Pending` the readers of the call that waits for the
--   user; `Pending.Answers` puts them under the arbitration of states; `Sessions` finds a session's
--   directory, plan, branch and rate limits. Rollout: the same for Codex,
--   internal/codex/conversation/parser.go.
-- - Topology: internal/repo/topology.go, over git's answers.
-- - Tui.Dino: the game of internal/tui/dino.go. Tui.InputLine: the wrapping, the cursor and the
--   colours of internal/tui/wrapped_input.go. Web.Auth: tokens and callback of internal/web/auth.go.
-- - Common: tests, lists, dictionaries and texts over native numbers. Modules named Examples hold
--   the theorems at concrete inputs, and tests by evaluation.
--
-- Bounds. Every loop of the source but five is a recursion on the list or the text that it walks. The
-- loop that sends a text in chunks runs on the length of the text as fuel, which is enough since each
-- chunk is at least a byte; the digits of a number run on the number plus one; the removal of a tag from a
-- text runs on the length of the text, and the marks of notifications on the number of entries, as
-- the source's loop does; the wrapping of a line runs on its number of runes, of which each row takes
-- at least one. The retry loop of the
-- lock is unrolled into steps, and a process takes at most 4 steps for each of its 400 attempts, and
-- one to give up. Numbers are natural; where the source's could be negative (the speed of a jump, the
-- place of an obstacle, an index that is parsed, a window before a cut-off) the module says how it is
-- kept. Machine overflow of counters is not modelled.
--
-- Not modelled: JSON text (a file is its fields, or unreadable), file errors other than those a
-- module names, the views and key handling of the terminal interface, the other HTTP handlers, the
-- activity log and the subagents of a conversation, the database, and the hooks, which are JavaScript.
mod Common
pub mod Domain
pub mod State
pub mod Git
pub mod Harness
pub mod Tui
pub mod Web
pub mod Tmux
pub mod Repowin
pub mod Usage
pub mod Conversation
pub mod Rollout
pub mod Topology
