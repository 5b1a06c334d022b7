-- ===== src/Lib.antt =====
-- embedshim is a containerd runtime plugin without a shim process: containerd itself creates,
-- watches and reaps the containers. runc starts each init process, a BPF program (exitsnoop) keeps
-- the exit status of each traced pid in kernel maps, and an epoller of pidfds tells when a process
-- has ended.
--
-- Parts and files:
-- - Prelude: names of the library, Boolean tests, maps with numeric keys and with text keys.
-- - GoError: Go's error values with wrapping, errors.Is and Error().
-- - Host, Host/Calls, Host/Values, and Host/Quiet, Keeps, Ran, Logged, Ledger, Stuck for proofs: the world
--   outside. A record `Env` holds what runc, the kernel, bbolt and the libraries answer: any function
--   of the log of earlier calls and of the call, so every theorem holds of every such environment,
--   but for laws that it names. `M S` is the monad of the code: a state, the log, and an outcome that
--   is a value, an error or a panic. Deferred clean-ups are `on_error` and `finally`.
-- - InitProcess (init_process.go), InitProcess/States (init_process_state.go), DeletedState (delete_state.go): the
--   init process, its five states and the exported methods that dispatch on the state under the
--   lock. InitProcess/Load makes one from the files of its bundle (with runtime_utils.go,
--   platform.go, reload.go). InitProcess/Lifecycle, Waiters, Recording, Promise, Frame hold the
--   proofs.
-- - Monitor (monitor.go): newMonitor, traceInitProcess, repollingInitProcess and the callback of
--   the pidfd. Monitor/Trace, Calls, Reports, Repoll hold the proofs; Delivery puts the monitor and
--   the tracepoint together; Opening is about newMonitor.
-- - Bpf (bpf/exitsnoop.bpf.c): the program on the kernel's tracepoint of exits. Bpf/Tables is the
--   interface of the kernel's hash maps. Bpf/History reads the log of calls, with the exits between
--   them, as a history of the two maps. Bpf/Tracked and Fresh hold the proofs.
-- - ExitSnoop (pkg/exitsnoop/map.go): the maps of traced tasks and of exit events. ExitSnoop/Load
--   (pkg/exitsnoop/load.go): the BPF program and the pins of it and its maps. ExitSnoop/Pins reads
--   from the log what is pinned; CleanUp and Recovery hold the proofs about it.
-- - PidFd (pkg/pidfd/epoll.go): the epoller. Run takes the results of the waits as a list and ends
--   where the list ends. PidFd/SysCalls (pkg/pidfd/syscall.go): the system calls on pidfds.
--   PidFd/Once holds the proof about the callbacks.
-- - RuncExt (pkg/runcext/sync.go): the messages of the pipe to the exec wrapper; the decoder's
--   results are a list, which ends with the stream. RuncExt/Command (pkg/runcext/utils.go): the
--   command line and the environment of runc and of the wrapper. RuncExt/Filtering holds the proof
--   about the latter.
-- - Wrapper (cmd/embedshim-runcext/exec.go), Wrapper/Args (also utils.go and app.go there): the
--   program that runs runc exec and tells the shim of the new process; it has calls and a log of
--   its own. Wrapper/Acts, Talk, Reap, Forwarding hold the proofs. Wrapper/Flags (app.go, exec.go):
--   the flags that it declares; Wrapper/CommandLine says which command lines urfave/cli documents
--   to accept, and Reading, Asked, Carried and Started hold the proofs about the shim's.
-- - RuncLog (runtime_utils.go): the runc log, the meaning of kill errors, the exec fifo of runc
--   init. RuncLog/Latest holds the proof about the log.
-- - Io (io.go), Platform (platform.go): pipes, fifos and consoles. Io/Leaks and Io/Frame hold the
--   proofs.
-- - ExecProcess (exec_process.go, exec_process_state.go): processes beside the init process.
--   ExecProcess/Exits, Synced, Told, Failure, DoubleClose and Requests hold the proofs, the last
--   with Lifecycle, Obeys and Starts.
-- - Shim (shim.go): the task, its creation and end, and the exec IDs. Shim/ExecIds models
--   concurrent calls of Exec as sequences of their locked sections; Shim/Waiting and Agreement hold
--   the proofs about Wait and State.
-- - Bundle (pkg/bundle/bundle.go), IdAllocator (id_allocator.go): folders and trace IDs.
--   Bundle/Rollback holds the proof about NewBundle. BundleFiles (bundle_utils.go): the files of a
--   bundle; a file is a list of bytes as numbers. BundleFiles/TraceId holds the proof
--   about the trace ID.
-- - Reload (reload.go, newShim of shim.go): the tasks that are found at the start. Reload/Loading,
--   Rounds, Survival, Unlisted and Hidden hold the proofs.
-- - Plugin (plugin.go): the start of the plugin and the creation of a task. Plugin/Creation holds
--   the proof about Create, Plugin/Opening and Abandoning those about the start.
-- - World: the shared state. A pointer to a process is a number, and the processes stand in total
--   functions of these numbers, since Go's pointers here are never dangling.
-- - Tests, with Tests/Wrapper, CommandLine, Restart, Delivery, Exec and Parts: concrete runs.
--
-- A callback of the epoller is a value (`Callback`) that names its process, in place of a closure.
-- A method runs as one step, because the code holds the lock of the process or of the monitor
-- around it. The loops run over lists, which the code has or the environment supplies. Only the
-- loop over wait4 in the wrapper takes a number of rounds: it ends within them if one of its calls
-- is not interrupted, and if all of them are, the model panics, which the results name.
--
-- Not modelled: the registration of the plugin and the methods of TaskManager that hand a call on
-- to containerd's task list (plugin.go); main of cmd/embedshim-runcext; GetFd, which nothing calls
-- (pkg/pidfd/syscall.go); the socket pair and the pid file (pkg/runcext/utils.go), which are calls of
-- the environment; the conversion of the cgroup metrics (Stats of shim.go) and the getters; the
-- containerd command and the interface of a process (process.go). The goroutines that copy the
-- stdio are single calls.
pub mod Prelude
pub mod GoError
pub mod Host
pub mod ExitSnoop
pub mod Bpf
pub mod PidFd
pub mod RuncExt
pub mod RuncLog
pub mod Io
pub mod Platform
pub mod DeletedState
pub mod ExecProcess
pub mod InitProcess
pub mod IdAllocator
pub mod Bundle
pub mod BundleFiles
pub mod Shim
pub mod World
pub mod Monitor
pub mod Wrapper
pub mod Reload
pub mod Plugin
pub mod Tests
