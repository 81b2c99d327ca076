-- ===== src/Manager/Urls.antt =====
-- The addresses of messages in chromatic_imap/chromatic_imap_mgr.cpp.
use chromatic_imap_cplus_plu.Prelude.{Option, ℕ, ◌+◌, ◌-◌, [], ◌∷◌, ◌++◌, none, some, drop}
use chromatic_imap_cplus_plu.Text.{Str, codes, find, find_first_of, substr, substr_len}
use chromatic_imap_cplus_plu.Handler.Strings.{lcase}

-- find( text , pos ), for a position within the text
abbrev pub find_from : Str → ℕ → Str → Option ℕ
find_from t i s = elim (find t (drop i s)) [ none ↦ none | some k ↦ some (i + k) ]

abbrev pub exchange_url : Str → Str → Str
exchange_url server path = codes "http://" ++ server ++ codes "/exchange/" ++ path

-- str.substr( idx ) behind its first slash
abbrev pub behind_slash : Str → Str
behind_slash str = elim (find_first_of (codes "/") str) [
  | none ↦ str
  | some idx ↦ substr (idx + 1) str
]

unfoldable pub file_to_http_url : Str → Str → Str
file_to_http_url [] server = []
file_to_http_url (c ∷ s) server =
    let fileurl = c ∷ s in
    elim (find (codes "file://./backofficestorage") fileurl) [
      | none ↦ fileurl
      | some start ↦ elim (find (codes "MBX") fileurl) [
        | some idx ↦ exchange_url server (behind_slash (substr idx fileurl))
        | none ↦ elim (find (codes "Public Folders") fileurl) [
          | none ↦ fileurl
          | some idx ↦ exchange_url server (substr (idx + 1) fileurl)
        ]
      ]
    ]

-- `strServer` of `message_tag`: what stands between the slash behind the tag and the next one.
unfoldable pub server_of : Str → Str
server_of fileurlstr = elim (find (codes "backofficestorage") fileurlstr) [
  | none ↦ []
  | some start ↦ elim (find_from (codes "/") (start + 17) fileurlstr) [
    | none ↦ []
    | some idx ↦ elim (find_from (codes "/") (idx + 2) fileurlstr) [
      | none ↦ []
      | some end ↦ substr_len (idx + 1) (end - (idx + 1)) fileurlstr
    ]
  ]
]

unfoldable pub message_tag : Str → Str
unfolding file_to_http_url server_of lcase
message_tag [] = []
message_tag (c ∷ s) = file_to_http_url (c ∷ s) (lcase (server_of (c ∷ s)))
