-- ===== src/Handler/Process/Answers.antt =====
-- What `process` of chromatic_imap/chromatic_imap_handler.cpp sends for a request.
use chromatic_imap_cplus_plu.Handler.Process.Reading.{process-one_piece}
use chromatic_imap_cplus_plu.Handler.Session.Refusal.{
  noted, run_keyword-refused, refusal, need, meets,
}
use chromatic_imap_cplus_plu.Handler.Dispatch.Keywords.{perform-print, received, keyword_text}
use chromatic_imap_cplus_plu.Handler.Strings.{lcase}
use chromatic_imap_cplus_plu.Handler.Parse.{error_packet, const_max_token_length}
use chromatic_imap_cplus_plu.Handler.Strings.Laws.{Without}
use chromatic_imap_cplus_plu.Handler.Parse.RoundTrip.{print_rest, IsLine, print_command}
use chromatic_imap_cplus_plu.Handler.Dispatch.{run_keyword, payload_of, Keyword}
use chromatic_imap_cplus_plu.Handler.Session.{final}
use chromatic_imap_cplus_plu.Prelude.Int.{ℤ}
use chromatic_imap_cplus_plu.Handler.Output.{
  format_packet_error, crlf, flush_stream_to_connector, error_text,
}
use chromatic_imap_cplus_plu.Text.{Str}
use chromatic_imap_cplus_plu.Handler.Process.{
  pos, no_packet_error, take_request, process, is_append, is_error, length, is_logout, done,
  format_packet_error, find, codes, found, flush_stream_to_connector, respond,
}
use chromatic_imap_cplus_plu.Handler.Types.{Command, Server, Handler}
use chromatic_imap_cplus_plu.Prelude.{
  length-append, Option, ◌==◌, append_assoc, append-nil, ◌&&◌, ◌||◌, not, ℕ, ◌≡◌, refl, ap, ◌∙◌, [],
  ◌∷◌, ◌++◌, some, none, List, arith, ◌≤◌, ◌<◌, true, false, Bool, if◌then◌else◌,
}

-- What is added to the stream for an error: a NUL stands behind the token.
abbrev pub error_line : {S : Type 0} → Handler S → Str
error_line h = (h.token ++ 0 ∷ []) ++ codes " NO " ++ error_text h.error ++ crlf

line_assoc : (s a b c d : Str) → s ++ a ++ b ++ c ++ d ++ [] ≡ s ++ (a ++ b ++ c ++ d)
line_assoc s a b c d =
    rw
      (
        append-nil (s ++ a ++ b ++ c ++ d),
        append_assoc s a b,
        append_assoc s (a ++ b) c,
        append_assoc s (a ++ b ++ c) d,
      )
      refl

found-behind :
    (c : ℕ) (s t : Str) → found (find (c ∷ []) t) ≡ true → found (find (c ∷ []) (s ++ t)) ≡ true
found-behind c [] t e = e
found-behind c (d ∷ s) t e = ground (arith, found-behind c s t e)

print_rest-line :
    (word : Str) (payload : Option Str) → found (find (codes "\n") (print_rest word payload)) ≡ true
print_rest-line word none = found-behind 10 word crlf refl
print_rest-line word (some payload) =
    found-behind 10 word (32 ∷ (payload ++ crlf))
      (found-behind 10 (32 ∷ []) (payload ++ crlf) (found-behind 10 payload crlf refl))

print_command-line :
    (token word : Str) (payload : Option Str)
    → found (find (codes "\n") (print_command token word payload)) ≡ true
print_command-line token word payload =
    found-behind 10 token (32 ∷ print_rest word payload)
      (found-behind 10 (32 ∷ []) (print_rest word payload) (print_rest-line word payload))

length-print_rest : (word : Str) (payload : Option Str) → 2 ≤ length (print_rest word payload)
length-print_rest word none = omega (arith, length-append word crlf)
length-print_rest word (some payload) =
    omega (arith, length-append word (32 ∷ (payload ++ crlf)), length-append payload crlf)

noted-goes_on : (k : Keyword) (c : Command) → is_logout c ≡ false → is_logout (noted k c) ≡ false
noted-goes_on k c e = ground arith

refusal-is_error : (k : Keyword) → is_error (refusal k) ≡ true
refusal-is_error k = ground arith

-- A line that `process` reads as it is: shorter than the buffer, with no NUL, control-C or control-Z.
abbrev pub Readable : ℕ → Str → Type 0
Readable n line = (length line < n) × (Without 0 line × Without 3 line × Without 26 line)

-- A token, a word and a payload of a command line for the command.
abbrev pub NamesCommand : Keyword → Str → Str → Option Str → Type 0
NamesCommand k token word payload =
    Without 32 token
    × (length token ≤ const_max_token_length)
    × Without 32 word
    × IsLine payload
    × (lcase word ≡ keyword_text k)

-- A session that answers: not silent, nothing left to send, and no APPEND or LOGOUT before.
abbrev pub Ready : {S : Type 0} → Handler S → Type 0
Ready h =
    (h.silent ≡ false)
    × (h.stream ≡ [])
    × (is_append h.command ≡ false)
    × (is_logout h.command ≡ false)

module _ (server : Server) where
  open server use {State}

  -- The text is a line feed behind some byte, and nothing more.
  abbrev pub blank : Str → Bool
  blank text = found (find (codes "\n") text) && length text == 2

  abbrev pub closing : Str → Handler State → Str
  closing text h =
      if blank text || is_logout h.command || not (is_error h.error) then [] else error_line h

  -- After a command everything that it wrote is sent, with a line for the error behind it if there is one
  -- (but none for a blank line or a LOGOUT), or nothing at all if the session is silent.
  pub respond-sends :
      (text : Str) (h : Handler State) (ret : ℤ)
      → (final (respond server text (done h ret))).sent
        ≡ (if h.silent then h.sent else h.sent ++ (h.stream ++ closing text h))
  unfolding respond flush_stream_to_connector format_packet_error
  respond-sends text h ret = ground (
    arith,
    append-nil h.stream,
    ap (◌++◌ h.sent)
        (line_assoc h.stream (h.token ++ 0 ∷ []) (codes " NO ") (error_text h.error) crlf),
  )

  respond-stream :
      (text : Str) (h : Handler State) (ret : ℤ)
      → (final (respond server text (done h ret))).stream ≡ []
  unfolding respond flush_stream_to_connector format_packet_error
  respond-stream text h ret = ground arith

  blank-print :
      (token word : Str) (payload : Option Str) → blank (print_command token word payload) ≡ false
  blank-print token word payload = ground (
    arith,
    length-append token (32 ∷ print_rest word payload),
    length-print_rest word payload,
    found (find (codes "\n") (print_command token word payload)),
  )

  respond-error :
      (text : Str) (h : Handler State)
      → blank text ≡ false
      → h.silent ≡ false
      → h.stream ≡ []
      → is_logout h.command ≡ false
      → is_error h.error ≡ true
      → (final (respond server text (done h (pos 0)))).sent ≡ h.sent ++ error_line h
  respond-error text h b q st o e = respond-sends text h (pos 0) ∙ rw (q, st, b, o, e) refl

  -- A command line runs its command and then answers, and the pieces behind it are left unread.
  -- The line comes in one piece, is shorter than the buffer and has no NUL, control-C or
  -- control-Z; its word is the command's name in any case of the letters, the token and the word
  -- are without a space, the token of at most 10 bytes, the payload without a line feed; and the
  -- last command was no APPEND.
  pub process-print :
      (n : ℕ) (k : Keyword) (token word : Str) (payload : Option Str) (pieces : List Str)
      (h : Handler State)
      → Readable n (print_command token word payload)
      → NamesCommand k token word payload
      → is_append h.command ≡ false
      → process server n (print_command token word payload ∷ pieces) h ≡ (
        respond server (print_command token word payload) (
            run_keyword server k
              (payload_of server payload)
              (received server token word (error_packet no_packet_error h))),
        pieces,
      )
  unfolding take_request
  process-print n k token word payload pieces h r m a =
      process-one_piece server n (print_command token word payload) pieces h r.0 r.1
        (print_command-line token word payload)
      ∙ rw
          (
            a,
            perform-print server k token word payload (error_packet no_packet_error h) m.0 m.1 m.2
                m.3 m.4,
          )
          refl

  -- A command line for a command whose need is not met is answered by exactly one line, the
  -- error's, and nothing else is sent. The line comes in one piece, is shorter than the buffer
  -- and has no NUL, control-C or control-Z; its word is the command's name in any case of the
  -- letters, the token and the word are without a space, the token of at most 10 bytes, the
  -- payload without a line feed; and the session is not silent, has nothing left to send, and its
  -- last command was no APPEND or LOGOUT.
  pub process-refused :
      (n : ℕ) (k : Keyword) (token word : Str) (payload : Option Str) (pieces : List Str)
      (h : Handler State)
      → Readable n (print_command token word payload)
      → NamesCommand k token word payload
      → Ready h
      → meets (need k) h.states ≡ false
      → (final (process server n (print_command token word payload ∷ pieces) h).0).sent
        ≡ h.sent ++ ((token ++ 0 ∷ []) ++ codes " NO " ++ error_text (refusal k) ++ crlf)
  process-refused n k token word payload pieces h r m q e =
      rw
        (
          process-print n k token word payload pieces h r m q.2,
          run_keyword-refused server k (payload_of server payload)
              (received server token word (error_packet no_packet_error h)) e,
        )
        (respond-error (print_command token word payload) _ (blank-print token word payload) q.0 q.1
          (noted-goes_on k h.command q.3) (refusal-is_error k))
