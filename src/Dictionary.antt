-- ===== src/Dictionary.antt =====
-- The strings of chromatic_imap_strings/chromatic_strings.cpp with include/chromatic_strings.h: the class
-- chromatic_fetch_strings and the names of the return codes of DDS. A locale other than the classic one
-- is not modelled: it has no part in writing a string to a stream.
use chromatic_imap_cplus_plu.Prelude.{
  ℕ, ◌≡◌, refl, ◌==◌, List, [], ◌∷◌, Option, none, some, if◌then◌else◌,
}
use chromatic_imap_cplus_plu.Text.{Str, codes}
use chromatic_imap_cplus_plu.Handler.Strings.{lcase, ucase}
use chromatic_imap_cplus_plu.Manager.Fetch.Requests.{
  FetchConst, fetch_flags, fetch_internaldate, fetch_rfc822, fetch_rfc822size, fetch_rfc822text,
  fetch_all, fetch_envelope, fetch_full, fetch_fast, fetch_body, fetch_bodystructure, fetch_uid,
  fetch_bodypeek, fetch_header, fetch_headerfields, fetch_unknown, fetch_string,
}

-- lex_case
pub data LexCase : Type 0 where
  lc_upper lc_lower : LexCase

-- The value of a chromatic_imap_fetch_const.
unfoldable pub fetch_code : FetchConst → ℕ
fetch_code fetch_flags = 0
fetch_code fetch_internaldate = 1
fetch_code fetch_rfc822 = 2
fetch_code fetch_rfc822size = 3
fetch_code fetch_rfc822text = 4
fetch_code fetch_all = 5
fetch_code fetch_envelope = 6
fetch_code fetch_full = 7
fetch_code fetch_fast = 8
fetch_code fetch_body = 9
fetch_code fetch_bodystructure = 10
fetch_code fetch_uid = 11
fetch_code fetch_bodypeek = 12
fetch_code fetch_header = 13
fetch_code fetch_headerfields = 14
fetch_code fetch_unknown = 15

-- dds_retcode
pub data DdsRetcode : Type 0 where
  dds_retcode_ok dds_retcode_error dds_retcode_unsupported dds_retcode_bad_parameter : DdsRetcode
  dds_retcode_precondition_not_met dds_retcode_out_of_resources : DdsRetcode
  dds_retcode_not_enabled dds_retcode_immutable_policy dds_retcode_inconsistent_policy : DdsRetcode
  dds_retcode_already_deleted dds_retcode_timeout dds_retcode_no_data : DdsRetcode
  dds_retcode_illegal_operation : DdsRetcode

-- The value of a dds_retcode.
unfoldable pub retcode_code : DdsRetcode → ℕ
retcode_code dds_retcode_ok = 0
retcode_code dds_retcode_error = 1
retcode_code dds_retcode_unsupported = 2
retcode_code dds_retcode_bad_parameter = 3
retcode_code dds_retcode_precondition_not_met = 4
retcode_code dds_retcode_out_of_resources = 5
retcode_code dds_retcode_not_enabled = 6
retcode_code dds_retcode_immutable_policy = 7
retcode_code dds_retcode_inconsistent_policy = 8
retcode_code dds_retcode_already_deleted = 9
retcode_code dds_retcode_timeout = 10
retcode_code dds_retcode_no_data = 11
retcode_code dds_retcode_illegal_operation = 12

-- A std::map whose keys are the values of an enumeration.
abbrev pub NameTable : Type 0 → Type 0
NameTable K = List (K × Str)

-- The entries as they are written; a map keeps the first of those with the same key.
unfoldable pub imap_fetch_dictionary : NameTable FetchConst
imap_fetch_dictionary =
    (fetch_flags, codes "flags")
    ∷ (fetch_internaldate, codes "internaldate")
    ∷ (fetch_rfc822size, codes "rfc822.size")
    ∷ (fetch_rfc822text, codes "rfc822.text")
    ∷ (fetch_rfc822, codes "rfc822")
    ∷ (fetch_all, codes "all")
    ∷ (fetch_envelope, codes "envelope")
    ∷ (fetch_full, codes "full")
    ∷ (fetch_body, codes "body")
    ∷ (fetch_fast, codes "fast")
    ∷ (fetch_bodystructure, codes "bodystructure")
    ∷ (fetch_bodypeek, codes "bodypeek")
    ∷ (fetch_uid, codes "uid")
    ∷ (fetch_header, codes "header")
    ∷ (fetch_headerfields, codes "header.fields")
    ∷ (fetch_unknown, codes "unknown")
    ∷ []

-- chromatic_fetch_strings::sm
unfoldable pub status_names : NameTable DdsRetcode
status_names =
    (dds_retcode_ok, codes "dds_retcode_ok")
    ∷ (dds_retcode_error, codes "dds_retcode_error")
    ∷ (dds_retcode_unsupported, codes "dds_retcode_unsupported")
    ∷ (dds_retcode_bad_parameter, codes "dds_retcode_bad_parameter")
    ∷ (dds_retcode_precondition_not_met, codes "dds_retcode_precondition_not_met")
    ∷ (dds_retcode_out_of_resources, codes "dds_retcode_out_of_resources")
    ∷ (dds_retcode_not_enabled, codes "dds_retcode_not_enabled")
    ∷ (dds_retcode_immutable_policy, codes "dds_retcode_immutable_policy")
    ∷ (dds_retcode_inconsistent_policy, codes "dds_retcode_inconsistent_policy")
    ∷ (dds_retcode_already_deleted, codes "dds_retcode_already_deleted")
    ∷ (dds_retcode_timeout, codes "dds_retcode_timeout")
    ∷ (dds_retcode_no_data, codes "dds_retcode_no_data")
    ∷ (dds_retcode_illegal_operation, codes "dds_retcode_illegal_operation")
    ∷ []

module _ {K : Type 0} (code : K → ℕ) where
  -- dictionary.find( moniker )
  unfoldable pub find_name : K → NameTable K → Option Str
  find_name moniker [] = none
  find_name moniker (entry ∷ rest) =
      if code moniker == code entry.0 then some entry.1 else find_name moniker rest

  unfoldable pub resource_from_moniker : K → NameTable K → Str
  unfolding find_name
  resource_from_moniker moniker dictionary = elim (find_name moniker dictionary) [
    | none ↦ []
    | some name ↦ name
  ]

-- The attribute m_case of the class.
pub record FetchStrings : Type 0 where
  pub lex : LexCase

-- chromatic_fetch_strings()
abbrev pub new_fetch_strings : FetchStrings
new_fetch_strings = record { lex = lc_lower }

-- The variable `str` of `_R` before the last assignment.
unfoldable pub cased_resource : FetchStrings → FetchConst → Str
unfolding find_name lcase ucase
cased_resource strings moniker = elim (find_name fetch_code moniker imap_fetch_dictionary) [
  | none ↦ []
  | some name ↦ elim strings.lex [ lc_upper ↦ ucase name | lc_lower ↦ lcase name ]
]

-- The variables of `_R`: `str`, with what each assignment leaves in it.
unfoldable pub resource : FetchStrings → FetchConst → Str
unfolding cased_resource resource_from_moniker
resource strings moniker =
    let str = cased_resource strings moniker in
    let str' = resource_from_moniker fetch_code moniker imap_fetch_dictionary in str'

-- The name of a part of a FETCH is the same for both cases that can be set, and the manager's.
pub resource-fetch_string :
    (strings : FetchStrings) (moniker : FetchConst)
    → resource strings moniker ≡ fetch_string moniker
unfolding resource resource_from_moniker find_name fetch_code imap_fetch_dictionary fetch_string
resource-fetch_string strings fetch_flags = refl
resource-fetch_string strings fetch_internaldate = refl
resource-fetch_string strings fetch_rfc822 = refl
resource-fetch_string strings fetch_rfc822size = refl
resource-fetch_string strings fetch_rfc822text = refl
resource-fetch_string strings fetch_all = refl
resource-fetch_string strings fetch_envelope = refl
resource-fetch_string strings fetch_full = refl
resource-fetch_string strings fetch_fast = refl
resource-fetch_string strings fetch_body = refl
resource-fetch_string strings fetch_bodystructure = refl
resource-fetch_string strings fetch_uid = refl
resource-fetch_string strings fetch_bodypeek = refl
resource-fetch_string strings fetch_header = refl
resource-fetch_string strings fetch_headerfields = refl
resource-fetch_string strings fetch_unknown = refl

-- Every return code has a name.
retcode-named :
    (r : DdsRetcode) → (name : Str) × (find_name retcode_code r status_names ≡ some name)
unfolding find_name retcode_code status_names
retcode-named dds_retcode_ok = (_, refl)
retcode-named dds_retcode_error = (_, refl)
retcode-named dds_retcode_unsupported = (_, refl)
retcode-named dds_retcode_bad_parameter = (_, refl)
retcode-named dds_retcode_precondition_not_met = (_, refl)
retcode-named dds_retcode_out_of_resources = (_, refl)
retcode-named dds_retcode_not_enabled = (_, refl)
retcode-named dds_retcode_immutable_policy = (_, refl)
retcode-named dds_retcode_inconsistent_policy = (_, refl)
retcode-named dds_retcode_already_deleted = (_, refl)
retcode-named dds_retcode_timeout = (_, refl)
retcode-named dds_retcode_no_data = (_, refl)
retcode-named dds_retcode_illegal_operation = (_, refl)
