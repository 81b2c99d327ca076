-- ===== src/Handler/Parse.antt =====
-- `parse_command` and `parse_params` of chromatic_imap/chromatic_imap_handler.cpp.
pub mod RoundTrip
use chromatic_imap_cplus_plu.Prelude.{
  ℕ, ◌+◌, ◌-◌, List, [], ◌∷◌, ◌++◌, Option, none, some, ltb, ◌==◌, if◌then◌else◌, length, take,
}
use chromatic_imap_cplus_plu.Text.{Str, codes, find, find_first_of, substr, substr_len}
use chromatic_imap_cplus_plu.Handler.Types.{
  PacketError, token_too_long, no_command, invalid_syntax, no_packet_error, PacketPart, token_part,
  command_part, payload_part, uid_part, Handler,
}
use chromatic_imap_cplus_plu.Handler.Strings.{chomp, rtrimlast}

-- map_of_parts
abbrev pub Parts : Type 0
Parts = List (PacketPart × Str)

abbrev part_code : PacketPart → ℕ
part_code token_part = 0
part_code command_part = 1
part_code payload_part = 2
part_code uid_part = 3

abbrev pub find_part : PacketPart → Parts → Option Str
find_part p [] = none
find_part p (q ∷ parts) = if part_code p == part_code q.0 then some q.1 else find_part p parts

-- std::multimap::insert adds behind what the key has; `find_part` finds the first.
abbrev pub insert_part : PacketPart → Str → Parts → Parts
insert_part p text parts = parts ++ (p, text) ∷ []

abbrev pub const_max_token_length : ℕ
const_max_token_length = 10

module _ {S : Type 0} where
  abbrev pub error_packet : PacketError → Handler S → Handler S
  error_packet e h = record h { error = e }

  -- The text behind the token: the command, and the payload if a space follows the command.
  unfoldable pub parse_rest : Str → Parts → Handler S → Handler S × Parts
  unfolding chomp rtrimlast
  parse_rest str parts h = elim (find_first_of (codes " ") str) [
    | none ↦
        let str_command = rtrimlast str (codes "\n") in
        (
          error_packet no_packet_error (record h { command_text = str_command }),
          insert_part command_part str_command parts,
        )
    | some idx ↦ (
      error_packet no_packet_error (record h { command_text = take idx str }),
      insert_part payload_part (chomp (substr (idx + 1) str) (codes "\n"))
          (insert_part command_part (take idx str) parts),
    )
  ]

  unfoldable pub parse_token : Str → Str → Parts → Handler S → Handler S × Parts
  unfolding parse_rest
  parse_token str_token [] parts h = (
    error_packet invalid_syntax (record h { token = str_token }),
    insert_part token_part str_token parts,
  )
  parse_token str_token (c ∷ str) parts h =
      parse_rest (c ∷ str) (insert_part token_part str_token parts) (record h { token = str_token })

  -- The token stays stored when the text behind it is refused.
  unfoldable pub parse_command : Str → Parts → Handler S → Handler S × Parts
  unfolding parse_token
  parse_command [] parts h = (error_packet invalid_syntax h, parts)
  parse_command (c ∷ packet) parts h = elim (find_first_of (codes " ") (c ∷ packet)) [
    | none ↦ (error_packet no_command h, parts)
    | some idx ↦
        if ltb const_max_token_length (length (take idx (c ∷ packet)))
        then (error_packet token_too_long h, parts)
        else parse_token (take idx (c ∷ packet)) (substr (idx + 1) (c ∷ packet)) parts h
  ]

  -- The parameters, added behind `strings`. Without a parenthesis, the position `npos` is raised to
  -- 0 and the text that is tested is always empty.
  unfoldable pub parse_params : Str → List Str → Handler S → Handler S × List Str
  unfolding chomp
  parse_params params strings h = elim (find (codes "(") params) [
    | none ↦ (h, strings ++ chomp params (codes "\n") ∷ [])
    | some open_idx ↦
        let str = substr 1 params in
        elim (find_first_of (codes " ") str) [
          | none ↦ (error_packet invalid_syntax h, strings)
          | some idx ↦
              let with_param = strings ++ take idx str ∷ [] in
              elim (find (codes ")") str) [
                | none ↦ (error_packet invalid_syntax h, with_param)
                | some jdx ↦
                    -- A length below 0 wraps to one past every end.
                    let len = if ltb jdx (idx + 1) then length str else jdx - (idx + 1) in
                    (h, with_param ++ chomp (substr_len (idx + 1) len str) (codes "\n") ∷ [])
              ]
        ]
  ]
