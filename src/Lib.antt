-- ===== src/Lib.antt =====
-- gmux shares GPUs among jobs: a daemon seats fractions of cards to jobs, starts and stops them,
-- fences their network, keeps a ledger of what they used, and serves it all over HTTP.
--
-- The parts, and the files that model them:
--
-- Share models internal/share/share.go: a float64 fraction is an exact Ratio (denominator 0 stands
--   for NaN and the infinities), Seats is `seats`, ComputePercent `compute_percent`;
--   Share.Memory has ParseMem and FormatMem on texts, with the part of strconv.ParseFloat that reads
--   decimals.
-- Scheduler models internal/scheduler/scheduler.go. Scheduler.State has Card, Request, Slot,
--   Placed, Scheduler and the use of a card (`usage` is `seats_used` and `mem_used`, need is
--   `need`); Scheduler.Seating has occupied and pickSeats; Scheduler.Fit has slot, fit and victims;
--   Scheduler.Operations has Admit (`admit`), Release, Evict, Requeue, Cancel, Resize, SetDown,
--   drain, Placement and Available. A method takes the state and returns its result beside the next
--   state; the Go map of running jobs is an association list. Scheduler.Steps has a sequence of
--   calls as one value, and the daemon's calls are of that form.
-- Fence models internal/fence: Fence.Filter the seccomp programs of supervisor_linux.go (the
--   kernel's BPF machine is a parameter with its documented laws), Fence.Supervisor its Supervisor
--   (handle, onSocket, onConnect, onDup, dial), whose every system call is answered by an input;
--   Fence.Job has the kernel's side of a job with one process. Fence.Allowlist, Fence.Heads and
--   Fence.Dns model proxy.go: Set and Allows, SNI and HostHeader and the decision of handle, and
--   DNSAnswer, on lists of bytes. A loop there has as many rounds as there are bytes, since each
--   round goes on by at least one. Names are ASCII: strings.ToLower is modelled on the letters A to
--   Z only, where Go's also changes other letters and rewrites what is not UTF-8.
-- Accounting models internal/accounting/accounting.go: Begin, End, Usage and keyOf on a list of the
--   written intervals and a map of the open ones, with exact sums. What read makes of the file is an
--   input of Usage, also that it fails.
-- Daemon models internal/daemon/daemon.go: Daemon.Jobs has Job, Daemon, startLocked and pauseLocked,
--   Daemon.Calls Submit, reap, Stop and Resize. What the daemon asks of the system (launching a
--   process, the time, the cards' vendors, the ledger's file) is an input of each call. Daemon.Billing
--   has the calls one after another as a relation.
-- Commands models cmd/gmux: Commands.Hosts the choice of a host, with the sign of a share, and the
--   changes of the configuration of hosts.go, Commands.Flags the parser of flags.go. What Go makes
--   of a float64 that is no number, where it wants an int, is a parameter of bestHost.
-- Session models internal/session/session.go: the checks of digests, ids and paths, HasBlob, Missing,
--   PutBlob, PutBlobFrom, Workspace and Delete; Session.Apply has Apply over the tree of files of a
--   workspace, and the record of what it wrote (applied.json). The digest of a content is a
--   parameter, and Go's reads and writes of files are inputs that say whether they went well and, of
--   a temporary file, how far.
-- Remote models internal/remote: Remote.Cache hashFile and save of hashcache.go, Remote.Walk
--   buildManifest over a directory tree, Remote.Sync the client's Sync with the handlers of
--   internal/api/remote.go that answer it from the model of the host's store, where any request or
--   answer may be lost.
-- Gpu models internal/gpu: Gpu.Masks has seatCUMask of amd.go with a mask as the list of its bits,
--   Gpu.Envs JobEnv of every vendor and the loop of startLocked that gathers the variables of a
--   job's slots. `strided`, the loop over the rounds of a seat, takes its limit as fuel, which is
--   enough since each round goes on by at least one.
-- Runtime models internal/runtime/runtime.go: Runtime.Launch has env, Start, startFenced and
--   exitCode, and fenceChild of cmd/gmux/main.go, which the fenced command lines start.
-- Maps has Go's maps keyed by strings of bytes, Decimals strconv.Itoa.
-- Api models internal/api and the requests of internal/remote/client.go: Api.Routes has `handler`,
--   the mux of New and the handlers of api.go and remote.go down to the call that each makes of the
--   daemon or the store, Api.Requests the method, path and header of each call of the client, and
--   Api.Stream the goroutines of exec, whose steps are turns in any order, and the client's Exec,
--   with the limits of both scanners; Api.Text what the scanner drops of a line, what JSON makes of
--   a byte that is not UTF-8, and how long an event is as JSON.
-- Prelude has the names, the integers (Prelude.Int), the association lists, the stable sort and the
-- lemmas that the parts share. Examples runs the code on small inputs.
--
-- Integers: an `int` that may be negative is in ℤ without its 64-bit bounds, which no amount of
-- memory or count of cards comes near; a card's seats are in ℕ, where 0 stands for every number
-- below 1, since the code replaces each of those by the default. Go ranges over a map in any order:
-- where the order could matter, the code sorts, and the model sorts alike. The loops are structural
-- recursion on the list that they go over or on the number of rounds that the code writes out; where
-- a loop takes fuel, its part above says why it is enough.
--
-- Not modelled: JSON but for the texts of a streamed line, HTTP, TLS, the system calls for processes and sockets, the probes of vendor
-- tools, tar archives, the C shim and the Python client, all of which only carry the decisions
-- modelled here; symbolic links in a workspace; the mutex of a component, which each method holds
-- throughout, but for the ledger's Usage, which reads the file before it takes the mutex, and End,
-- which writes after it.
pub mod Accounting
pub mod Api
pub mod Commands
pub mod Daemon
pub mod Decimals
pub mod Examples
pub mod Fence
pub mod Gpu
pub mod Maps
pub mod Prelude
pub mod Remote
pub mod Runtime
pub mod Scheduler
pub mod Session
pub mod Share
