-- ===== src/Host/Values.antt =====
-- Values of outside packages whose fields the code reads.
use embedshim.Prelude.{ℕ, ◌⊎◌, String, Bool, Option, List}
use embedshim.GoError.{Err}

-- containerd's stdio.Stdio
pub record Stdio : Type 0 where
  pub stdin : String
  pub stdout : String
  pub stderr : String
  pub terminal : Bool

-- What one call of json.Decoder.Decode on the runc log does: it sets the fields that the entry has,
-- or fails. After the last entry it fails with io.EOF.
pub data Decoded : Type 0 where
  entry : Option String → Option String → Decoded
  broken : Err → Decoded

-- An entry of /proc/<pid>/fd: its name as a number if it is one, and what its link reads as.
pub data FdInfo : Type 0 where
  bad_name : Err → FdInfo
  fd : ℕ → Err ⊎ String → FdInfo

-- the fields of containerd's runc options that the code reads
pub record Options : Type 0 where
  pub root : String
  pub binary_name : String
  pub systemd_cgroup : Bool
  pub io_uid : ℕ
  pub io_gid : ℕ
  pub no_pivot_root : Bool
  pub no_new_keyring : Bool

-- protobuf's Any
pub record Any : Type 0 where
  pub type_url : String
  pub value : List ℕ

-- os.FileInfo, as ioutil.ReadDir returns it
pub record FileInfo : Type 0 where
  pub name : String
  pub is_dir : Bool
