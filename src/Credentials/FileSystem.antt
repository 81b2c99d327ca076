-- ===== src/Credentials/FileSystem.antt =====
-- What the setters of tlpi/tlpi_credentials.cpp do to the ids for files and to the groups.
use chromatic_imap_cplus_plu.Prelude.{ℕ, ◌≡◌, ◌≢◌, refl, ap, ◌∙◌, Bool-cases, ◌⊎◌, inl, inr, arith}
use chromatic_imap_cplus_plu.Prelude.Int.{ℤ, pos, eqb_ℤ}
use chromatic_imap_cplus_plu.Text.{Str}
use chromatic_imap_cplus_plu.Credentials.{
  System, SetResult, set, checked, not_permitted, left_process, set_file_system_uid,
  set_file_system_gid, set_effective_process_gid,
}

-- What is documented of the calls: setfsuid and setfsgid give the id from before, and seteuid leaves
-- the groups alone.
pub record Documented (system : System) : Type 0 where
  pub previous_uid :
      (fsuid : ℕ) (p : system.Process) → (system.setfsuid fsuid p).0 ≡ pos (system.fsuid p)
  pub previous_gid :
      (fsgid : ℕ) (p : system.Process) → (system.setfsgid fsgid p).0 ≡ pos (system.fsgid p)
  pub same_groups :
      (euid : ℕ) (p : system.Process) → system.gids (system.seteuid euid p).1 ≡ system.gids p

abbrev pub Denied : {P : Type 0} → SetResult P → Type 0
Denied (set p) = ⊥
Denied (not_permitted text p) = Unit

module _ {P : Type 0} (text : Str) (r : ℤ × P) where
  checked-previous :
      {n : ℕ}
      → r.0 ≡ pos n
      → ((n ≡ 0) × (checked text r ≡ set r.1)) ⊎ ((n ≢ 0) × Denied (checked text r))
  checked-previous {n} e = elim (Bool-cases (eqb_ℤ r.0 (pos 0))) [
    | inl zero_id ↦ inl (ground arith, rw zero_id refl)
    | inr other ↦ inr (ground arith, rw other tt)
  ]

  left_process-checked : left_process (checked text r) ≡ r.1
  left_process-checked = elim (Bool-cases (eqb_ℤ r.0 (pos 0))) [
    | inl zero_id ↦ rw zero_id refl
    | inr other ↦ rw other refl
  ]

-- Of a process that has not root's id for files the setters for that id raise, whether the system has
-- changed it or not, and of one that has it they return, even where the system refused.
-- `set_effective_process_gid` never changes a group.
pub setters-ids :
    (system : System)
    → Documented system
    → (id : ℕ) (p : system.Process)
    → ((system.fsuid p ≡ 0) × (set_file_system_uid system id p ≡ set (system.setfsuid id p).1)
        ⊎ (system.fsuid p ≢ 0) × Denied (set_file_system_uid system id p))
      × ((system.fsgid p ≡ 0) × (set_file_system_gid system id p ≡ set (system.setfsgid id p).1)
          ⊎ (system.fsgid p ≢ 0) × Denied (set_file_system_gid system id p))
      × (system.gids (left_process (set_effective_process_gid system id p)) ≡ system.gids p)
unfolding set_file_system_uid set_file_system_gid set_effective_process_gid
setters-ids system d id p = (
  checked-previous _ (system.setfsuid id p) (d.previous_uid id p),
  checked-previous _ (system.setfsgid id p) (d.previous_gid id p),
  ap system.gids (left_process-checked _ (system.seteuid id p)) ∙ d.same_groups id p,
)
