-- ===== src/GoError.antt =====
-- Go's error values: fmt.Errorf with and without %w, package-level sentinels, errors.Is, Error().
use embedshim.Prelude.{String, Bool, true, false, cat}

-- The sentinels that the code compares against. They live in errdefs, cilium/ebpf, syscall, io and os.
pub data Sentinel : Type 0 where
  not_found already_exists failed_precondition not_implemented : Sentinel
  key_exist key_not_exist : Sentinel
  esrch eintr : Sentinel
  eof os_not_exist os_exist : Sentinel

-- The `==` of two sentinels.
abbrev pub same : Sentinel → Sentinel → Bool
same not_found not_found = true
same already_exists already_exists = true
same failed_precondition failed_precondition = true
same not_implemented not_implemented = true
same key_exist key_exist = true
same key_not_exist key_not_exist = true
same esrch esrch = true
same eintr eintr = true
same eof eof = true
same os_not_exist os_not_exist = true
same os_exist os_exist = true
same _ _ = false

pub data Err : Type 0 where
  -- fmt.Errorf("…"), errors.New
  msg : String → Err
  -- fmt.Errorf("…: %w", err)
  wrap : String → Err → Err
  -- fmt.Errorf("…: %w", nil): a %w verb that was handed no error
  wrap_nil : String → Err
  sentinel : Sentinel → Err

-- errors.Is
abbrev pub is : Err → Sentinel → Bool
is (msg s) t = false
is (wrap s e) t = is e t
is (wrap_nil s) t = false
is (sentinel u) t = same u t

-- err.Error(), over the texts of the sentinels
abbrev pub text : (Sentinel → String) → Err → String
text names (msg s) = s
text names (wrap s e) = cat s (cat ": " (text names e))
text names (wrap_nil s) = cat s ": %!w(<nil>)"
text names (sentinel u) = names u
