-- ===== src/Credentials.antt =====
-- tlpi/tlpi_credentials.cpp, the class tlpi_credentials of tlpi/tlpi.h: the ids of the process. The system
-- calls are parameters, which change the state of the process and give a number.
pub mod FileSystem
use chromatic_imap_cplus_plu.Prelude.{ℕ, Bool, true, false, if◌then◌else◌}
use chromatic_imap_cplus_plu.Prelude.Int.{ℤ, pos, eqb_ℤ}
use chromatic_imap_cplus_plu.Text.{Str, codes}

-- The system calls on the ids. `fsuid` and `fsgid` are the ids for files, and `gids` the real and the
-- effective group, which seteuid leaves alone. setfsuid and setfsgid give the id from before, whether
-- they have changed it or not.
pub record System : Type 1 where
  pub Process : Type 0
  pub fsuid : Process → ℕ
  pub fsgid : Process → ℕ
  pub gids : Process → ℕ × ℕ
  pub setuid : ℕ → Process → ℤ × Process
  pub setgid : ℕ → Process → ℤ × Process
  pub seteuid : ℕ → Process → ℤ × Process
  pub setreuid : ℕ → ℕ → Process → ℤ × Process
  pub setregid : ℕ → ℕ → Process → ℤ × Process
  pub setfsuid : ℕ → Process → ℤ × Process
  pub setfsgid : ℕ → Process → ℤ × Process

-- How a method ends: it returns, or raises a system_error with permission_denied and a text.
pub data SetResult (P : Type 0) : Type 0 where
  set : P → SetResult P
  not_permitted : Str → P → SetResult P

abbrev pub left_process : {P : Type 0} → SetResult P → P
left_process (set p) = p
left_process (not_permitted text p) = p

abbrev pub checked : {P : Type 0} → Str → ℤ × P → SetResult P
checked text r = if eqb_ℤ r.0 (pos 0) then set r.1 else not_permitted text r.1

abbrev for_user : Str
for_user = codes "not enough privileges for user"

module _ (system : System) where
  open system use {Process, setuid, setgid, seteuid, setreuid, setregid, setfsuid, setfsgid}

  unfoldable pub set_process_uid : ℕ → Process → SetResult Process
  set_process_uid uid p = checked for_user (setuid uid p)

  unfoldable pub set_process_gid : ℕ → Process → SetResult Process
  set_process_gid gid p = checked (codes "not enough privileges for group") (setgid gid p)

  unfoldable pub set_effective_process_uid : ℕ → Process → SetResult Process
  set_effective_process_uid euid p = checked for_user (seteuid euid p)

  -- It calls seteuid too.
  unfoldable pub set_effective_process_gid : ℕ → Process → SetResult Process
  set_effective_process_gid egid p = checked for_user (seteuid egid p)

  unfoldable pub set_real_effective_process_uids : ℕ → ℕ → Process → SetResult Process
  set_real_effective_process_uids ruid euid p = checked for_user (setreuid ruid euid p)

  unfoldable pub set_real_effective_process_gids : ℕ → ℕ → Process → SetResult Process
  set_real_effective_process_gids rgid egid p = checked for_user (setregid rgid egid p)

  unfoldable pub set_file_system_uid : ℕ → Process → SetResult Process
  set_file_system_uid fsuid p = checked for_user (setfsuid fsuid p)

  unfoldable pub set_file_system_gid : ℕ → Process → SetResult Process
  set_file_system_gid fsgid p = checked for_user (setfsgid fsgid p)
