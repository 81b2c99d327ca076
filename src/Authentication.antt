-- ===== src/Authentication.antt =====
-- tlpi/tlpi_authentication_assist.cpp, the class tlpi_authentication_assist of tlpi/tlpi.h: users, groups
-- and passwords. The calls of the C library are parameters. A `struct passwd` holds its numbers, and
-- pointers into storage that the library may write again; what they point to is read when it is used.
pub mod Peek
pub mod Objects
use chromatic_imap_cplus_plu.Prelude.{
  ℕ, zero, suc, Bool, true, false, not, List, [], ◌∷◌, Option, none, some, ltb, if◌then◌else◌,
  length,
}
use chromatic_imap_cplus_plu.Text.{Str, is_empty, c_str}
use chromatic_imap_cplus_plu.Manager.Types.{Table, insert_entry, find_entry}

pub data PwdStat : Type 0 where
  ps_no_login_required ps_shadow_by_default ps_length_out_of_range : PwdStat
  ps_shadow_default_exists_shadow ps_shadow_default_no_exists_shadow ps_no_stat : PwdStat

abbrev pub pwd_field_size : ℕ
pwd_field_size = 13

-- A turn of the loop of `passwd_peek`. A `break` leaves the switch, and the loop begins the next turn with
-- the same status.
unfoldable pub peek_turn : Str → PwdStat → PwdStat
peek_turn passwd_field ps_no_login_required =
    if is_empty passwd_field then ps_no_login_required else ps_length_out_of_range
peek_turn passwd_field ps_length_out_of_range =
    if ltb pwd_field_size (length passwd_field)
    then ps_length_out_of_range
    else ps_shadow_by_default
peek_turn passwd_field ps_shadow_by_default =
    if ltb (length passwd_field) pwd_field_size then ps_shadow_by_default else ps_no_stat
peek_turn passwd_field ps = ps

unfoldable pub peek_loop : ℕ → Str → PwdStat → Option PwdStat
unfolding peek_turn
peek_loop turns passwd_field ps_no_stat = some ps_no_stat
peek_loop zero passwd_field ps = none
peek_loop (suc turns) passwd_field ps = peek_loop turns passwd_field (peek_turn passwd_field ps)

unfoldable pub passwd_peek : ℕ → Str → Str → Option PwdStat
unfolding peek_loop
passwd_peek turns passwd_field user_name = peek_loop turns passwd_field ps_no_login_required

-- struct passwd, with pointers of a type.
pub record Passwd (P : Type 0) : Type 0 where
  pub pw_name : P
  pub pw_passwd : P
  pub pw_uid : ℕ
  pub pw_gid : ℕ
  pub pw_gecos : P
  pub pw_dir : P
  pub pw_shell : P

-- struct spwd, as far as it is read.
pub record Spwd : Type 0 where
  pub sp_pwdp : Str

-- The C library: what a pointer reads now, and its look-ups. `getspnam` says as well whether errno is
-- EACCES behind it.
pub record Library : Type 1 where
  pub Pointer : Type 0
  pub text : Pointer → Str
  pub getpwuid : ℕ → Option (Passwd Pointer)
  pub getpwnam : Str → Option (Passwd Pointer)
  pub getgrgid : ℕ → Option Str
  pub getgrnam : Str → Option ℕ
  pub getspnam : Str → Option Spwd × Bool

-- A password record: name, password, ids, gecos, directory, shell.
abbrev pub PwdRecord : Type 0
PwdRecord = Str × Str × ℕ × ℕ × Str × Str × Str

pub data Shadow : Type 0 where
  answered : Bool → Str → Shadow
  no_access : Shadow

module _ (library : Library) where
  open library use {Pointer, text, getpwuid, getpwnam, getgrgid, getgrnam, getspnam}

  unfoldable pub insert_all :
      List (Str × Passwd Pointer) → Table (Passwd Pointer) → Table (Passwd Pointer)
  unfolding insert_entry
  insert_all [] uad = uad
  insert_all (pr ∷ entries) uad = insert_all entries (insert_entry pr.0 pr.1 uad)

  -- The dictionary, made of what the calls of getpwent give, each with the name that it has then.
  unfoldable pub populate_info_dictionary : List (Str × Passwd Pointer) → Table (Passwd Pointer)
  unfolding insert_all
  populate_info_dictionary entries = insert_all entries []

  -- `none` stands for user_passwd_info_error.
  unfoldable pub info_from_name : Table (Passwd Pointer) → Str → Option (Passwd Pointer)
  unfolding find_entry
  info_from_name uad user_name = find_entry user_name uad

  unfoldable pub passwd_fields : Table (Passwd Pointer) → Str → PwdRecord → Bool × PwdRecord
  unfolding info_from_name
  passwd_fields uad user_name prt = elim (info_from_name uad user_name) [
    | none ↦ (false, prt)
    | some pw ↦ (
      true,
      (
        text pw.pw_name,
        text pw.pw_passwd,
        pw.pw_uid,
        pw.pw_gid,
        text pw.pw_gecos,
        text pw.pw_dir,
        text pw.pw_shell,
      ),
    )
  ]

  -- The look-ups give the variable that they are passed, changed or not.
  unfoldable pub user_name_from_id : ℕ → Str → Bool × Str
  user_name_from_id uid user_name =
      let found : Str = elim (getpwuid uid) [ none ↦ user_name | some pwd ↦ text pwd.pw_name ] in
      (not (is_empty found), found)

  unfoldable pub user_id_from_name : Str → ℕ → Bool × ℕ
  user_id_from_name user_name uid =
      if is_empty user_name
      then (false, uid)
      else elim (getpwnam (c_str user_name)) [ none ↦ (false, uid) | some pwd ↦ (true, pwd.pw_uid) ]

  unfoldable pub group_name_from_id : ℕ → Str → Bool × Str
  group_name_from_id gid group_name =
      if is_empty group_name then (false, group_name) else elim (getgrgid gid) [
        | none ↦ (true, group_name)
        | some name ↦ (not (is_empty name), name)
      ]

  unfoldable pub group_id_from_name : Str → ℕ → Bool × ℕ
  group_id_from_name group_name gid =
      if is_empty group_name
      then (false, gid)
      else elim (getgrnam (c_str group_name)) [ none ↦ (false, gid) | some found ↦ (true, found) ]

  -- The encrypted password, in the variable that is passed.
  unfoldable pub retrieve_shadow_passwd : Str → Str → Shadow
  retrieve_shadow_passwd user_name encrypted_pwd =
      let answer = getspnam (c_str user_name) in
      elim answer.0 [
        | some pwd ↦ answered true pwd.sp_pwdp
        | none ↦ if answer.1 then no_access else answered false encrypted_pwd
      ]

  -- The overload with a pointer sets its own copy of it, and tests for EACCES where it cannot be.
  unfoldable pub retrieve_shadow_struct : Str → Spwd → Bool × Spwd
  retrieve_shadow_struct user_name pwd = elim (getspnam (c_str user_name)).0 [
    | none ↦ (false, pwd)
    | some found ↦ (true, pwd)
  ]
