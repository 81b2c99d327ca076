-- ===== src/Manager/Responses.antt =====
-- The untagged responses that chromatic_imap/chromatic_imap_mgr.cpp writes.
use chromatic_imap_cplus_plu.Prelude.{List, [], ◌∷◌, ◌++◌, if◌then◌else◌}
use chromatic_imap_cplus_plu.Prelude.Int.{ℤ}
use chromatic_imap_cplus_plu.Text.{Str, codes, same}
use chromatic_imap_cplus_plu.Flags.{mbx_flags_to_str, stream_all}
use chromatic_imap_cplus_plu.Handler.Strings.{lcase, ucase, rtrim}
use chromatic_imap_cplus_plu.Manager.Types.{MailboxInfo, show_long}

-- The manager's `crlf`.
abbrev pub line_end : Str
line_end = 13 ∷ 10 ∷ []

unfoldable pub store_response : Str → Str → Str
store_response msg_id payload =
    codes "* " ++ msg_id ++ codes " FETCH (" ++ payload ++ codes ")" ++ line_end

unfoldable pub fetch_response : Str → Str → Str
fetch_response msg_id payload =
    codes "* " ++ msg_id ++ codes " FETCH (" ++ payload ++ codes ")" ++ line_end

unfoldable pub select_response : MailboxInfo → Str
unfolding mbx_flags_to_str
select_response info =
    codes "* "
    ++ show_long info.exists
    ++ codes " EXISTS"
    ++ line_end
    ++ codes "* "
    ++ show_long info.recent
    ++ codes " RECENT"
    ++ line_end
    ++ codes "* FLAGS ("
    ++ mbx_flags_to_str info.changeable_flags
    ++ codes ")"
    ++ line_end
    ++ codes "* OK [UNSEEN "
    ++ show_long info.unseen
    ++ codes "]"
    ++ line_end
    ++ codes "* OK [UIDVALIDITY "
    ++ info.uid_validity
    ++ codes "] UIDs valid"
    ++ line_end
    ++ codes "* OK [PERMANENTFLAGS ("
    ++ mbx_flags_to_str info.flags
    ++ codes ")]"
    ++ line_end

abbrev pub status_item : MailboxInfo → Str → Str
status_item info atom =
    let str = lcase atom in
    if same str (codes "messages")
    then codes "messages " ++ show_long info.exists ++ codes " "
    else if same str (codes "uidnext")
    then codes "uidnext " ++ info.uid_next ++ codes " "
    else if same str (codes "recent")
    then codes "recent " ++ show_long info.recent ++ codes " "
    else if same str (codes "uidvalidity")
    then codes "uidvalidity " ++ info.uid_validity ++ codes " "
    else if same str (codes "unseen")
    then codes "unseen " ++ show_long info.unseen ++ codes " "
    else []

unfoldable pub status_response : MailboxInfo → List Str → Str
unfolding lcase ucase rtrim
status_response info atoms = rtrim (ucase (stream_all (status_item info) atoms)) (codes " ")

abbrev pub numbered : ℤ → Str
numbered n = show_long n ++ codes " "

unfoldable pub search_response : List ℤ → Str
unfolding rtrim
search_response v_ints =
    rtrim (codes "*" ++ codes " SEARCH " ++ stream_all numbered v_ints) (codes " ") ++ line_end
