-- ===== src/Lib.antt =====
-- AstraStore Xion keeps files for its users: an HTTP gateway stores each file as an object and a JSON
-- manifest below a data directory, with a recycle bin, uploads in chunks and a byte quota for every
-- owner. This library models the package that does so, pkg/files, and proves what its operations
-- promise, together with the jobs of pkg/replication.
--
-- Base holds the shared names, lists measured by native numbers, dictionaries that are sorted by key
-- (Base.Dict, for Go maps and for directories) and Go's int64 as 64-bit patterns (Base.Int64).
--
-- Files.Model and Files.Text are pkg/files/model.go and the text functions of pkg/files/store.go: ids,
-- owners, display names, checksums. Files.Usage is the index of bytes per owner (`usageIndex`,
-- `moveUsage`). Files.Disk is the data directory: five directories of named entries. Files.World is
-- the store's fields together with the disk. Files.Io is what the operations are written in: a world
-- and a plan of faults go in, a result, a world and the rest of the plan come out. A plan says of each
-- system call that is still to come whether it passes or fails, and how many bytes a failing write has
-- written; the empty plan is a run without faults. What was written before an error stays written, as
-- on a real disk, and deferred clean-ups run under the same plan.
--
-- Files.Read models `Get`, `GetUpload`, `Open` and the readers of manifests; Files.Account
-- `enforceQuotaUnlocked`, `rebuildUsageLocked`, `Capacity`, `Quota` and `writesPausedUnlocked`;
-- Files.Put models `Put`; Files.Sweep `SweepUploads` of pkg/files/recovery.go; Files.Upload
-- `StartUpload`, `AppendUpload`, `CompleteUpload` and `AbortUpload`; Files.Trash `Delete`, `Restore`
-- and `PurgeTrash`; Files.Listing `Count`, `List`, `ListTrash` and `ListUploads`. The child modules of
-- each hold its lemmas and theorems. Files.Tests runs the theorems at concrete inputs.
--
-- The operations call one another as the code does: each one locks the store, so that it is one step
-- on the world. They share the manifest readers, the accounting and the atomic writer of manifests.
--
-- Replication models pkg/replication/manager.go, which carries uploads, deletions and restorations to
-- another site: Replication.Jobs its records, Replication.Manager `enqueue`, `Retry`, `claimNext`,
-- `ProcessPending`, `loadJobs` and `persistJob`, Replication.Backoff `backoffFor`. Each critical
-- section is a function that is given what its write to disk comes to; Replication.Steps has them as
-- the steps of a system in which the worker runs one job at a time and the process may start again. The
-- outcome of the HTTP calls is given to the step that records it.
--
-- Balance models pkg/balance: Balance.Model its records, Balance.Ring the hash ring (`AddNode`,
-- `RemoveNode`, `GetNode` with the binary search of `sort.Search`), Balance.Shards `MigrateShard`,
-- `checkAndBalance` and `rebalance`, Balance.Hot `TrackFileAccess` and `GetHotFiles`. The mutex of the
-- load balancer is part of the state of `checkAndBalance` and `ForceRebalance` (`Guarded`): a call that
-- locks it while it is held ends in `blocks`. Balance.Steps has the calls in any order, each of them
-- made while the mutex is free, and Balance.Deadlock has the call that waits for itself. The checksum and the floating-point tests are the record `Platform`. The
-- search runs on fuel, one round for each key and one more, which is proved to be enough.
--
-- Files.Ready models `Ready`, the checks before a store takes requests. Files.Ready.Described tells what
-- a consistent data directory is by its entries, the records in them and the lengths of its files, and
-- Files.Ready.Consistent is the same as a test. Files.Recovery models `Recover` of pkg/files/recovery.go with
-- the quarantine, a sixth directory of groups of artifacts. Files.Tests.Starts runs both.
--
-- Auth models pkg/auth/auth.go: Auth.Model its records, Auth.Tokens the users and their tokens, with
-- the JWT library as the record `Jwt`, Auth.Permissions the authorizer. Metadata models the service of
-- pkg/metadata/service.go that keeps its records in memory, with Go's slice expressions and their
-- panics.
--
-- Gateway models core/apigateway/handlers.go, the HTTP handlers in front of the store and the
-- replication manager: Gateway.Model the requests, the responses with the mapping from errors to them,
-- and the handlers as steps that answer early or go on; Gateway.Text the content range, the query
-- numbers and the bearer token; Gateway.Multipart `upload` with its parts and its limit, and
-- Gateway.Limits the limit one read at a time;
-- Gateway.Entered what it means that the replicator has taken a job over; Gateway.Handlers the other handlers and the routes (`newRouter`, whose path patterns are the
-- router's). Decoding JSON and reading durations and times is the record `Formats`. The file service of
-- pkg/files/service.go passes each call on to the store, so the handlers call its operations.
--
-- What the code takes from outside is the record `Env`: fresh UUIDs, the clock, SHA-256, MIME types by
-- file name, the file system's statistics and the JSON texts of the records. Decoding a manifest gives
-- back the record that was encoded. Times are natural numbers of nanoseconds. All loops but that search are structural.
-- The jobs of a replication manager are kept in the order of their ids where Go's map has none; a claim may take any
-- job that is eligible.
--
-- Not modelled: the construction of a store in pkg/files, the SQL repository of pkg/metadata, and the
-- packages beside them (storage nodes, the command line tool, the starts of the processes, raft,
-- monitoring, compression, encryption and the clients). Of the gateway the messages
-- of its responses are left out. A percentage that is only shown, `UsedPercent`, is left out of `Capacity`. The error texts are left out; an error is the value
-- that `errors.Is` finds.
pub mod Base
pub mod Files
pub mod Replication
pub mod Balance
pub mod Auth
pub mod Metadata
pub mod Gateway
