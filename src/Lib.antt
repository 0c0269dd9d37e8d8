-- ===== src/Lib.antt =====
-- HWRun OS, a system of plugins around a bus: a verification library.
--
-- The bus (bus/src/bus.c) discovers plugins, keeps a node for each and drives their life cycles
-- through the loader (bus/src/loader.c). A plugin that starts registers the protocols that it provides
-- with the registry of protocols (bus/src/metaproto.c), where the others resolve them; a stop takes
-- them off again. Parameters (bus/src/hwrun.c, bus/src/param.c), permissions
-- (permission/src/permission_impl.c), volumes and their snapshots (storage/src/storage_impl.c), path
-- handling (fsp/src/fsp_path.c) and the audit log (audit/src/audit_impl.c) are services of the bus and of its plugins.
--
-- Prelude and its children hold what the modules share: C strings as lists of bytes without the NUL,
-- `fit` for a copy by snprintf into a buffer, lists with searches, integers, and strtol with its
-- saturation. Prelude.Lines is the reading of lines by fgets and their trimming, Prelude.Decimal the
-- printing of numbers and their reading by strtoull and atoi. Errno has the return codes of include/hwrun.h.
--
-- Metaproto models bus/src/metaproto.c: a registry is a record with the route list and the subscriber
-- list, and an operation returns the new registry, its code and the calls of subscribers. Version is
-- the parsing, compatibility and comparison of versions. Providers, Unique, Resolve and LongNames hold
-- the proofs about the route table, and Refine compares the registry with a plain table.
--
-- Bus.Plugin is the descriptor of a plugin from include/hwrun.h. Bus.Loader models bus/src/loader.c:
-- its callbacks are functions on a world that is a parameter, and act on that world only. They may
-- return any code. Whether the registration of a protocol finds memory is a parameter too. Its
-- children hold the proofs: what a node owns on the registry (Owned, Holds, Keeps, Provided), and what
-- a start, a stop and an unload do (Start, Started, Outcome, Stop).
-- Bus.Chain models bus/src/bus.c: the list of nodes, the discovery from parsed descriptors on, load,
-- stop, unload, the boot order and the shutdown; the watcher that the boot chain adds to the
-- parameters at its end is not part of it. Invariant, Preserve and Reach are about its invariant and its
-- reachable states, and Bare about plugins without requirements. Bus.Loader.LoadSo is the load of a library, with dlopen and its entry point as
-- parameters, and Bus.Kernel the resolution that falls back to the kernel's table.
--
-- Permission models the lists of roles and bindings of permission/src/permission_impl.c. Glob is the
-- matcher, Check the access check, Valid, Roles and Keeps the invariant of the policy, and Ops the
-- interface over the operations, with the write of the state file as a flag. Words and Text are the
-- state file: its lines, and the loops that read them. Text.Lines, Passes and Others follow single lines
-- and the two loops, Text.RoundTrip the whole file, and Text.Blank and Widened entries made of blanks. State is the
-- writing and loading of that file, with open, fdopen, fclose, rename and fopen as a parameter.
--
-- Storage models storage/src/storage_impl.c: a context is a record with the volumes, the snapshots and the
-- state of the file system, which the calls of the record Fs change. Fs has those calls and the routines
-- over trees, Text the state file and the loop that reads it, State its writing, the start and the end,
-- Volumes the calls on volumes, Usage the sizes, and Snapshots the calls on snapshots. The creation of a
-- snapshot is cut at its two locked sections, and its deletion behind its locked one. Text.Printed, Blocks and RoundTrip are about the file,
-- Restart about a start after a write, Labels about names and descriptions, Registry with Copies and Reach
-- about the two lists under any order of calls, Outcome and Removal about results, Race about two threads,
-- and Total about sizes.
--
-- Param models the tree as first children and siblings, with the number of nodes that find memory as a
-- budget, and the context with its watchers; fnmatch is a parameter. Param.Tree holds the proofs.
--
-- Fsp.Path models fsp/src/fsp_path.c, with what getcwd returns as a parameter. Render is its output
-- loop; Canonical, Join and Parent hold the proofs. Audit.Field models the text fields of an audit line,
-- Audit.Line the whole line, Audit.Query the selection of events, Audit.Config the settings, and Audit.Log
-- the segments of the log, with the calls of the system as a parameter. Audit.Export is the
-- export of a query to a file, on a second parameter, Sink. Numbers and Selected are about the
-- numbers that are handed out and the events that a query returns.
--
-- Samples and its children run the functions on small data.
--
-- Bounds: buffers are those of the source (64 bytes for a protocol or a plugin's id, 16 for a version,
-- 128 and 256 for a parameter's key and value, 4096 for a path, 64 path components, 64 entries for a
-- role). All loops are structural but three: the comparison of versions runs on fuel, the sum of the two
-- lengths and one, since each round reads at least one byte of either text, and the matcher of permissions follows the pattern.
--
-- The copy of a tree runs on a depth, since a file system may be deeper than any number; a deeper one ends
-- in an error of its own. The loader of the storage's state file has a budget of records that find memory,
-- and its statement asks for one that is as large as the file. A text has no NUL.
--
-- Locks are not modelled: each locked section is one step, and a callback runs after it. Log output,
-- the discovery of plugin directories, the bytes of a file copy, the removal of one entry of a tree and
-- the status of the audit log are left out, as are the plugins
-- that mainly call the system or external libraries.
pub mod Prelude
pub mod Errno
pub mod Metaproto
pub mod Bus
pub mod Permission
pub mod Audit
pub mod Fsp
pub mod Storage
pub mod Param
mod Samples
