-- ===== src/Host/Calls.antt =====
-- The calls of code that is not under this repository, with the arguments that they are given, and
-- the log of those made with their replies.
use embedshim.Prelude.{
  ◌≡◌, refl, ◌⊎◌, inl, inr, ℕ, ◌+◌, String, Bool, List, [], ◌∷◌, ◌==◌, if◌then◌else◌,
}
use embedshim.ExitSnoop.Types.{StoreId, init_store, TaskInfo, ExitStatus}
use embedshim.RuncExt.Types.{ProcSync}
use embedshim.GoError.{Err}

pub data Call : Type 0 where
  -- go-runc
  runc_create runc_start runc_delete runc_resume runc_update : String → Call
  runc_kill : String → ℕ → Bool → Call
  -- descriptors: a call that opens one gives its number
  os_pipe null_io close_null_io : Call
  open_file open_fifo stat_file make_fifo : String → Call
  pidfd_open close_fd fchown : ℕ → Call
  pidfd_send_signal : ℕ → ℕ → Call
  epoll_add epoll_del : ℕ → Call
  -- consoles and copies
  console_socket socket_close console_receive platform_close : Call
  console_epoll_add console_shutdown console_resize : ℕ → Call
  copy_loop : ℕ → Call
  read_pid_file unmount_rootfs wait_group : Call
  stat_pidns read_proc_fds : ℕ → Call
  -- the BPF maps
  trace_task : StoreId → ℕ → TaskInfo → Call
  insert_event : StoreId → ℕ → ExitStatus → Call
  lookup_task delete_task lookup_event delete_event : StoreId → ℕ → Call
  close_maps : StoreId → Call
  load_pinned_map pin : List String → Call
  load_spec new_collection close_collection_maps close_programs attach_tracepoint : Call
  statfs mount_bpffs : List String → Call
  -- the epollers
  epoll_create console_epoller : Call
  -- the sync pipe and the commands
  write_message : ProcSync → Call
  socketpair wait_command kill_command encode_spec : Call
  start_command : String → List String → List String → Call
  run_command : String → List String → Call
  create_file remove_file : String → Call
  kill_process reap : ℕ → Call
  waitid : ℕ → Call
  -- (*os.File).Close: the descriptor is closed by the first call only
  file_close : ℕ → Call
  -- bbolt
  bolt_begin bolt_commit create_bucket next_sequence bolt_close : Call
  bolt_open : List String → Call
  -- folders and files of a bundle; a path is its components, the last one first
  mkdir mkdir_all remove_all remove_path read_link stat_path unmount_all : List String → Call
  rename symlink : List String → List String → Call
  write_file : List String → List ℕ → Call
  read_file read_dir : List String → Call
  -- mounts, cgroups, the metadata store
  load_cgroup cgroup_stats : Call
  mount_rootfs get_container tasks_delete : String → Call
  tasks_add : String → ℕ → Call
  namespace_required : Call
  validate_id : String → Call
  -- decoding of protobuf and JSON
  decode : String → Call

-- What one outside call answers: an error, or two numbers: a pid, a descriptor, a handle, and where
-- the call has a second result, the other end of a pipe, an inode.
pub data Reply : Type 0 where
  fails : Err → Reply
  gives : ℕ → ℕ → Reply

-- to split on the reply of a call and keep the equation
pub Reply-cases : (r : Reply) → ((x : Err) × (r ≡ fails x)) ⊎ ((n : ℕ) × (m : ℕ) × (r ≡ gives n m))
Reply-cases (fails x) = inl (x, refl)
Reply-cases (gives n m) = inr (n, m, refl)

pub record Event : Type 0 where
  pub call : Call
  pub reply : Reply

-- The newest event stands first.
abbrev pub Log : Type 0
Log = List Event

-- how often a successful call opened descriptor `n`
abbrev opens_by : ℕ → Call → ℕ → ℕ → ℕ
opens_by n os_pipe r w = (if r == n then 1 else 0) + (if w == n then 1 else 0)
opens_by n (open_file path) r w = if r == n then 1 else 0
opens_by n (open_fifo path) r w = if r == n then 1 else 0
opens_by n (pidfd_open pid) r w = if r == n then 1 else 0
opens_by n _ r w = 0

abbrev opened_by : ℕ → Call → Reply → ℕ
opened_by n c (fails e) = 0
opened_by n c (gives r w) = opens_by n c r w

-- close(2) frees the number also when it reports an error
abbrev closed_by : ℕ → Call → ℕ
closed_by n (close_fd m) = if m == n then 1 else 0
closed_by n _ = 0

abbrev pub opens : ℕ → Log → ℕ
opens n [] = 0
opens n (e ∷ l) = opened_by n e.call e.reply + opens n l

abbrev pub closes : ℕ → Log → ℕ
closes n [] = 0
closes n (e ∷ l) = closed_by n e.call + closes n l

-- how often a row for `pid` was inserted into the maps of the init processes, and how often the row
-- was deleted
abbrev inserts_row : ℕ → Call → Reply → ℕ
inserts_row pid (trace_task init_store k info) (gives a b) = if k == pid then 1 else 0
inserts_row pid _ _ = 0

abbrev deletes_row : ℕ → Call → ℕ
deletes_row pid (delete_task init_store k) = if k == pid then 1 else 0
deletes_row pid _ = 0

abbrev pub rows_inserted : ℕ → Log → ℕ
rows_inserted pid [] = 0
rows_inserted pid (e ∷ l) = inserts_row pid e.call e.reply + rows_inserted pid l

abbrev pub rows_deleted : ℕ → Log → ℕ
rows_deleted pid [] = 0
rows_deleted pid (e ∷ l) = deletes_row pid e.call + rows_deleted pid l
