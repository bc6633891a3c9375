-- ===== src/Lib.antt =====
-- apack, a tool that packs models and data into OCI artifacts: the index of artifacts with its
-- garbage collector, the local repository with its pulls, pushes and bundles, the description of
-- an artifact, the downloads, the tasks with the progress that they report, and the models that
-- run. Loops recurse on their lists; no function here takes fuel but the retry of a download and
-- the doublings of Transfer.Float.
--
-- LayerDb (pkg/layerdb/layerdb.go, pkg/layerdb/layout.go). LayerDb.Kv is the type `kv`, a bolt
-- bucket; LayerDb.Entries has the loops over the index's entries, LayerDb.Store the methods that
-- read the index, run a loop and write it back, LayerDb.Gc the collector, LayerDb.Blobs the
-- reads and writes of blobs and LayerDb.Verify the reader that checks a digest. The state of a
-- store is the database (`Bolt`) and the object store (`Objects`). bbolt, mindb, easyjson,
-- filepath and go-digest are the fields of the record Engine in LayerDb.Engine; what the
-- theorems rely on is IsLawful, which the sample engine of LayerDb.Tests.Sample satisfies. A
-- blob's path is known to differ from the index's file only for a valid digest, which the source
-- does not ask for, so theorems on reads after a write of the index do.
--
-- Transfer (internal/transfer/download.go). Transfer.Float is the quotient of two float64 and
-- its ceiling, with 53 significant bits (an int64 has ten more, for which the eleven doublings
-- are enough, and a quotient from 1 needs at most 53 to fill the bits), Transfer.Chunks cuts a
-- file, Transfer.Backoff is the wait before a retry, Transfer.Sync tells the progress what is on
-- disk already, Transfer.Part downloads one range into one file, Transfer.Whole is `Start`: one
-- range, or the chunks and their merge. What an attempt meets is the record Outside: how the
-- opening of the file fails, and the answer of the server, by the number of the attempt and the
-- range; errors of waits and of the merge are values of Env. Sizes are ℕ, and theorems on the
-- chunks are about files below 2^53. The retry loop recurses on the rounds that are left,
-- `max_retries + 1` at first, as the source's loop does; the loop over the chunks on their
-- count.
--
-- Spec (internal/spec/gen.go, internal/spec/spec.go). Spec.Types has the sections of an artifact
-- and the directories, Spec.Kinds the kinds of files, Spec.Media the media types, and Spec.Gen
-- `Gen` with `addDirToArtifact`, one function for each of its loops and closing steps. Lower
-- case, the reading of files and the license scan are the record Tools.
--
-- Task (internal/task). Task.Types is the task and its events, Task.Manager the methods of the
-- manager and the handler of a cancel request (internal/api/base/base.go), Task.Manager.Steps
-- the manager as a state machine, with one step for each call. A channel is its capacity and
-- what waits in it.
--
-- Progress (pkg/progress/client.go). Progress.Client is the client of a task's events: the loop
-- on what comes in, which ends with it, the retries, and the lines that are written;
-- Progress.Stream is the same connection as a channel of events. Both take the events of Task.
-- Progress.Writers (pkg/progress/progress.go, writer.go and logger.go) is the other side: the
-- writers that count bytes, and the events that they publish to a task.
--
-- Repo (internal/repo/local.go, internal/repo/utils.go). Repo.Layers is the store of layers as
-- the repository uses it, a record of operations with a record of laws, and Repo.Layers.FromDb
-- fills both from LayerDb. Repo.World is the state (the store, the files and the link files of
-- the directory of snapshots) and what comes from outside: the remote repository, the file
-- system, and the encodings. Repo.Loop is the loop of `Pull` and `Push` over the descriptors,
-- Repo.Pull and Repo.Push the two methods with the work of their goroutines. Goroutines run one
-- after the other, in an order that is a parameter; Repo.Pull.Effect is one goroutine's effect
-- on the repository as a relation. Repo.Bundle makes an artifact of files (`Layering`, which
-- makes a layer, is a parameter), Repo.Sink and Repo.Extract write the files of an artifact to a
-- directory, with the same loop. Repo.Links is `Tag` and the link files, Repo.Artifacts the list
-- of artifacts, Repo.Statuses the raw bucket of running models.
--
-- Runtime (internal/runtime, internal/types/types.go). Runtime.State has the state of a running
-- model and the words for it, Runtime.Infer the table of processes, Runtime.Service `Run`,
-- `Kill` and `Ps` over an interface that Repo.Statuses fills. A process is a parameter.
--
-- Diff (cmd/diff/util.go) compares two manifests.
--
-- Not modelled: the streams (tar, compression, the making of digests), which stand as parameters
-- where they are used; the service, HTTP routing and clients, the rest of the command line,
-- generated JSON code, and what only calls other libraries.
mod Base
pub mod LayerDb
pub mod Progress
pub mod Repo
pub mod Runtime
pub mod Diff
pub mod Spec
pub mod Task
pub mod Transfer
