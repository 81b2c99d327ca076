-- ===== src/Handler/Parse/RoundTrip.antt =====
-- `parse_command` of chromatic_imap/chromatic_imap_handler.cpp against the lines that a client writes.
use chromatic_imap_cplus_plu.Handler.Strings.Laws.{
  chomp-line, rtrimlast-line, find_first_of-at, find_first_of-none, Without,
}
use chromatic_imap_cplus_plu.Handler.Output.{crlf}
use chromatic_imap_cplus_plu.Handler.Parse.{
  chomp, insert_part, error_packet, substr, codes, find_first_of, const_max_token_length,
  parse_token, parse_command, length, payload_part, no_packet_error, token_part, command_part,
  Handler, Parts, parse_rest,
}
use chromatic_imap_cplus_plu.Text.{Str}
use chromatic_imap_cplus_plu.Prelude.{
  drop-length_one, take-length, All-append, take, ◌+◌, ◌≤◌, ℕ, ◌≡◌, ◌≢◌, refl, ◌∙◌, [], ◌∷◌, ◌++◌,
  some, none, Option, arith,
}

-- A command line: the token, the command and, if there is one, the payload, with spaces between.
abbrev pub print_rest : Str → Option Str → Str
print_rest word none = word ++ crlf
print_rest word (some payload) = word ++ 32 ∷ (payload ++ crlf)

abbrev pub print_command : Str → Str → Option Str → Str
print_command token word payload = token ++ 32 ∷ print_rest word payload

abbrev pub IsLine : Option Str → Type 0
IsLine none = Unit
IsLine (some payload) = Without 10 payload

abbrev pub printed_parts : Str → Option Str → Parts → Parts
printed_parts word none parts = parts ++ (command_part, word) ∷ []
printed_parts word (some payload) parts =
    parts ++ (command_part, word) ∷ (payload_part, payload) ∷ []

pub print_command-nonempty :
    (token word : Str) (payload : Option Str) → print_command token word payload ≢ []
print_command-nonempty [] word payload e = ground arith
print_command-nonempty (c ∷ token) word payload e = ground arith

crlf-Without : Without 32 crlf
crlf-Without = (omega arith, (omega arith, tt))

cr-Without : Without 10 (13 ∷ [])
cr-Without = (omega arith, tt)

module _ {S : Type 0} where
  parse_rest-found :
      (str : Str) (idx : ℕ) (parts : Parts) (h : Handler S)
      → find_first_of (codes " ") str ≡ some idx
      → parse_rest str parts h ≡ (
        error_packet no_packet_error (record h { command_text = take idx str }),
        insert_part payload_part
            (chomp (substr (idx + 1) str) (codes "\n"))
            (insert_part command_part (take idx str) parts),
      )
  unfolding parse_rest
  parse_rest-found str idx parts h e = rw (e, parse_rest) refl

  parse_rest-print :
      (word : Str) (payload : Option Str) (token : Str) (h : Handler S)
      → Without 32 word
      → IsLine payload
      → parse_rest (print_rest word payload) ((token_part, token) ∷ []) h ≡ (
        record h { command_text = word; error = no_packet_error },
        printed_parts word payload ((token_part, token) ∷ []),
      )
  unfolding parse_rest
  parse_rest-print word none token h w l =
      rw
        (
          find_first_of-none 32 (word ++ crlf) (All-append (λ d. d ≢ 32) word crlf w crlf-Without),
          parse_rest,
          rtrimlast-line word 13,
        )
        refl
  parse_rest-print word (some payload) token h w l =
      parse_rest-found (print_rest word (some payload)) (length word) ((token_part, token) ∷ []) h
        (find_first_of-at 32 word (payload ++ crlf) w)
      ∙ rw
          (
            take-length word (32 ∷ (payload ++ crlf)),
            drop-length_one word (payload ++ crlf) 32,
            chomp-line payload [] 13 (All-append (λ d. d ≢ 10) payload (13 ∷ []) l cr-Without),
          )
          refl

  parse_token-print :
      (token word : Str) (payload : Option Str) (h : Handler S)
      → parse_token token (print_rest word payload) [] h
        ≡ parse_rest
            (print_rest word payload)
            ((token_part, token) ∷ [])
            (record h { token = token })
  unfolding parse_token
  parse_token-print token [] none h = refl
  parse_token-print token [] (some payload) h = refl
  parse_token-print token (c ∷ word) none h = refl
  parse_token-print token (c ∷ word) (some payload) h = refl

  parse_command-found :
      (packet : Str) (idx : ℕ) (h : Handler S)
      → find_first_of (codes " ") packet ≡ some idx
      → length (take idx packet) ≤ const_max_token_length
      → parse_command packet [] h ≡ parse_token (take idx packet) (substr (idx + 1) packet) [] h
  unfolding parse_command
  parse_command-found [] idx h e l = ground arith
  parse_command-found (c ∷ packet) idx h e l = rw (e, parse_command) (ground arith)

  -- A command line is read back as its token, its command and its payload: the token and the
  -- command without a space, the token of at most 10 bytes, and the payload without a line feed.
  -- The token and the command are stored and the error is cleared.
  pub parse_command-print :
      (token word : Str) (payload : Option Str) (h : Handler S)
      → Without 32 token
      → length token ≤ const_max_token_length
      → Without 32 word
      → IsLine payload
      → parse_command (print_command token word payload) [] h ≡ (
        record h { token = token; command_text = word; error = no_packet_error },
        printed_parts word payload ((token_part, token) ∷ []),
      )
  parse_command-print token word payload h t short w l =
      parse_command-found (print_command token word payload) (length token) h
        (find_first_of-at 32 token (print_rest word payload) t)
        (rw (take-length token (32 ∷ print_rest word payload)) short)
      ∙ rw
          (
            take-length token (32 ∷ print_rest word payload),
            drop-length_one token (print_rest word payload) 32,
          )
          (parse_token-print token word payload h
            ∙ parse_rest-print word payload token (record h { token = token }) w l)
