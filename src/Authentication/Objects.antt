-- ===== src/Authentication/Objects.antt =====
-- The objects of tlpi/tlpi.h, with the methods of tlpi/tlpi_authentication_assist.cpp and
-- tlpi/tlpi_credentials.cpp that say "todo": how they are made, copied and assigned.
use chromatic_imap_cplus_plu.Prelude.{ℕ, ◌≡◌, refl, Bool, true, [], List, Option, none, some}
use chromatic_imap_cplus_plu.Text.{Str}
use chromatic_imap_cplus_plu.Manager.Types.{Table}
use chromatic_imap_cplus_plu.Authentication.{
  Library, Passwd, populate_info_dictionary, info_from_name,
}

-- tlpi_credentials
pub record TlpiCredentials : Type 0 where
  pub user_name : Str
  pub pci_real : ℕ × ℕ
  pub pci_effective : ℕ × ℕ

-- A pair without arguments has zeros.
unfoldable pub new_credentials : Str → TlpiCredentials
new_credentials user_name = record {
  user_name = user_name;
  pci_real = (0, 0);
  pci_effective = (0, 0);
}

unfoldable pub process_real_ids : TlpiCredentials → ℕ × ℕ
process_real_ids credentials = (0, 0)

unfoldable pub process_effective_ids : TlpiCredentials → ℕ × ℕ
process_effective_ids credentials = (0, 0)

-- tlpi_process_info, over what a struct stat holds.
pub record ProcessInfo (S : Type 0) : Type 0 where
  pub pid : ℕ
  pub stat : S

module _ {S : Type 0} where
  unfoldable pub copy_process_info : ProcessInfo S → ProcessInfo S
  copy_process_info tpi = record { pid = tpi.pid; stat = tpi.stat }

  unfoldable pub assign_process_info : ProcessInfo S → ProcessInfo S → ProcessInfo S
  assign_process_info target tpi = record target { stat = tpi.stat }

-- tlpi_authentication_assist: m_ptr_uad, which may be null, and m_ptr_credentials.
pub record Assist (P : Type 0) : Type 0 where
  pub dictionary : Option (Table (Passwd P))
  pub credentials : TlpiCredentials

-- How a method that reads the dictionary ends: undefined or with a failed assertion where the pointer is
-- null, with user_passwd_info_error, or with its result.
pub data Looked (P : Type 0) : Type 0 where
  null_dictionary : Looked P
  info_error : Looked P
  info : Passwd P → Looked P

module _ (library : Library) where
  open library use {Pointer}

  unfoldable pub new_assist : List (Str × Passwd Pointer) → Assist Pointer
  unfolding populate_info_dictionary new_credentials
  new_assist entries = record {
    dictionary = some (populate_info_dictionary library entries);
    credentials = new_credentials [];
  }

  -- The constructor of a copy gives it no dictionary.
  unfoldable pub copy_assist : Assist Pointer → Assist Pointer
  copy_assist tas = record { dictionary = none; credentials = tas.credentials }

  unfoldable pub assign_assist : Assist Pointer → Assist Pointer → Assist Pointer
  assign_assist target tas = record target { credentials = tas.credentials }

  unfoldable pub assist_info : Assist Pointer → Str → Looked Pointer
  unfolding info_from_name
  assist_info tas user_name = elim tas.dictionary [
    | none ↦ null_dictionary
    | some uad ↦ elim (info_from_name library uad user_name) [
      | none ↦ info_error
      | some pw ↦ info pw
    ]
  ]

  -- The record that is passed is left as it is.
  unfoldable pub sdwpasswd_fields : {R : Type 0} → Assist Pointer → Str → R → Bool × R
  sdwpasswd_fields tas user_name prt = (true, prt)

  unfoldable pub authenticate_user : Assist Pointer → Str → Bool
  authenticate_user tas user_name = true

  unfoldable pub authenticate_name : Assist Pointer → Str → Bool
  authenticate_name tas user_name = true

  unfoldable pub authenticate_token : Assist Pointer → ℕ → Bool
  authenticate_token tas token = true

  -- A copy finds no user and no error: it follows a null pointer, whatever it is a copy of, also where the
  -- copy has then been assigned to. An object that is assigned to keeps its own users.
  copy_assist-info :
      (tas other : Assist Pointer) (user_name : Str)
      → (assist_info (copy_assist tas) user_name ≡ null_dictionary)
        × (assist_info (assign_assist (copy_assist tas) other) user_name ≡ null_dictionary)
        × (assist_info (assign_assist tas other) user_name ≡ assist_info tas user_name)
        × ((assign_assist tas other).credentials ≡ other.credentials)
  unfolding assist_info copy_assist assign_assist
  copy_assist-info tas other user_name = (refl, refl, refl, refl)
