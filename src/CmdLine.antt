-- ===== src/CmdLine.antt =====
-- crs/cmdLine.cpp and crs/cmdLine.h: the reader of a command line, with the scripts that it names.
pub mod Scripts
pub mod Commands
mod Tests
use crs.Base.{
  ℕ, zero, suc, ◌+◌, ◌-◌, Bool, true, false, List, [], ◌∷◌, ◌++◌, Option, none, some, ltb, ◌==◌,
  ◌&&◌, ◌||◌, if◌then◌else◌, length, take, drop, get_or, is_empty, ◌>>=◌,
}
use crs.Parsing.Stream.{scan_stream}

-- `NEXT_COMMAND`, `SCRIPT_PREFFIX`, `MINUS` and `SLASH`
abbrev pub next_command_mark : ℕ
next_command_mark = 38

abbrev pub script_preffix : ℕ
script_preffix = 64

abbrev pub minus : ℕ
minus = 45

abbrev pub slash : ℕ
slash = 47

-- `s [i]`: the null character stands behind the last one
unfoldable pub char_at : List ℕ → ℕ → ℕ
char_at s i = get_or s i 0

-- `s.size () > 1 && s [1] == mark`: the mark stands for itself
unfoldable pub is_doubled : ℕ → List ℕ → Bool
is_doubled mark s = ltb 1 (length s) && (char_at s 1 == mark)

-- What `pprocess` leaves in `_script`, and the name of a file that `ErrOpen` reports.
pub record Script : Type 0 where
  tokens : List (List ℕ)
  err_open : Option (List ℕ)

-- after a file in a file: the exception that it threw, or what follows
unfoldable pub unless_thrown : Option (List ℕ) → Option Script → Option Script → Option Script
unless_thrown none thrown next = next
unless_thrown (some name) thrown next = thrown

-- a file by its name, when it can be opened
module _ (subscript_file : List ℕ → Option (List ℕ)) where
  -- The `for` of `pprocess` over the rest `is` of a file. Fuel is for the tokens, the files in
  -- files, and the characters of a token: without it the result is `none`.
  unfoldable pub pprocess_loop : ℕ → List ℕ → List (List ℕ) → Option Script
  pprocess_loop zero is script = none
  pprocess_loop (suc fuel) is script = scan_stream fuel is >>= λ scanned.
      let (one_token, rest) = scanned in
      let unmarked = drop 1 one_token in
      let escaped = pprocess_loop fuel rest (script ++ unmarked ∷ []) in
      let pushed = pprocess_loop fuel rest (script ++ one_token ∷ []) in
      let opened : Option Script = elim (subscript_file unmarked) [
        | none ↦ some (record { tokens = script; err_open = some unmarked })
        | some text ↦ pprocess_loop fuel text script
      ] in
      let included =
        opened >>= λ r. unless_thrown r.err_open (some r) (pprocess_loop fuel rest r.tokens) in
      if is_empty one_token
      then some (record { tokens = script; err_open = none })
      else if char_at one_token 0 == script_preffix
      then if is_doubled script_preffix one_token then escaped else included
      else pushed

  unfoldable pub pprocess : ℕ → List ℕ → List (List ℕ) → Option Script
  pprocess fuel s_name script = elim (subscript_file s_name) [
    | none ↦ some (record { tokens = script; err_open = some s_name })
    | some text ↦ pprocess_loop fuel text script
  ]

-- The members of a reader: `script` is what is left of `_script` from `_script_iter` on.
pub record Reader : Type 0 where
  av : List (List ℕ)
  sw_position : ℕ
  script : List (List ℕ)
  command : List (List ℕ)

unfoldable pub new_reader : List (List ℕ) → Reader
new_reader av = record { av = av; sw_position = 0; script = []; command = [] }

-- what `get_sw` gives: a switch, nothing more, or the exception of `pprocess`
pub data Switch : Type 0 where
  switch : List ℕ → Switch
  no_switch : Switch
  err_open : List ℕ → Switch

module _ (subscript_file : List ℕ → Option (List ℕ)) where
  -- `get_sw`: the `while` is on fuel. A script that cannot be opened leaves `_script_iter` at the
  -- end of `_script`.
  unfoldable pub get_sw : ℕ → Reader → Option (Switch × Reader)
  get_sw zero r = none
  get_sw (suc fuel) r =
      let position = r.sw_position + 1 in
      let csw = get_or r.av position [] in
      let moved = record r { sw_position = position } in
      let used = pprocess subscript_file fuel (drop 1 csw) [] >>= λ script.
      let again = get_sw fuel (record moved { script = script.tokens }) in
      elim script.err_open [ none ↦ again | some name ↦ some (err_open name, moved) ] in
      elim r.script [
        | s ∷ rest ↦ some (switch s, record r { script = rest })
        | [] ↦
            if ltb position (length r.av)
            then if char_at csw 0 == script_preffix then used else some (switch csw, moved)
            else some (no_switch, moved)
      ]

  -- the `while` of `next_command`: the name that `ErrOpen` reports, or none when it returns
  unfoldable pub command_loop : ℕ → Reader → Option (Option (List ℕ) × Reader)
  command_loop zero r = none
  command_loop (suc fuel) r = get_sw fuel r >>= λ got.
      let (sw, s) = got in
      elim sw [
        | no_switch ↦ some (none, s)
        | err_open name ↦ some (some name, s)
        | switch cur_sw ↦
            let skipped = command_loop fuel s in
            let unescaped =
              command_loop fuel (record s { command = s.command ++ drop 1 cur_sw ∷ [] }) in
            let pushed = command_loop fuel (record s { command = s.command ++ cur_sw ∷ [] }) in
            if is_empty cur_sw
            then skipped
            else if char_at cur_sw 0 == next_command_mark
            then if is_doubled next_command_mark cur_sw then unescaped else some (none, s)
            else pushed
      ]

  -- the reader after it: the switches are in `command`
  unfoldable pub next_command : ℕ → Reader → Option (Option (List ℕ) × Reader)
  next_command fuel r = command_loop fuel (record r { command = [] })

  unfoldable pub reset : ℕ → Reader → Option (Option (List ℕ) × Reader)
  reset fuel r = next_command fuel (record r { sw_position = 0 })

-- `parseSwitch`: whether it is a switch, and `sw` and `swState` afterwards. The state is set only
-- for a switch. Of a single character, `substr (1, sw.size () - 2)` is empty.
unfoldable pub parse_switch : List ℕ → Bool × List ℕ × Option Bool
parse_switch sw =
    if (char_at sw 0 == minus) || (char_at sw 0 == slash)
    then if char_at sw (length sw - 1) == minus
      then (true, take (length sw - 2) (drop 1 sw), some false)
      else (true, drop 1 sw, some true)
    else (false, sw, none)
