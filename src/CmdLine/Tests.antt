-- ===== src/CmdLine/Tests.antt =====
-- A command line of two commands, and a script.
use crs.Base.{
  ℕ, ◌≡◌, refl, true, false, List, [], ◌∷◌, ◌++◌, Option, none, some, inl, arith, is_empty, ◌==◌,
  if◌then◌else◌,
}
use crs.Parsing.{double_quote}
use crs.Parsing.Stream.{
  scan_stream, scan_stream-end, predicate_scan_stream, stream_loop, get_char, skip_stream,
}
use crs.CmdLine.{
  char_at, is_doubled, unless_thrown, pprocess, pprocess_loop, get_sw, command_loop, next_command,
  new_reader, reset, parse_switch, minus,
}
use crs.CmdLine.Scripts.{IsWord, script_text, script_fuel, pprocess_loop-words, pprocess_loop-end}
use crs.CmdLine.Commands.{IsArgument, reading, command_of, next_command_lem, parse_switch_lem}

-- "-a-", "&&" and "&"
abbrev word : List ℕ
word = 45 ∷ 97 ∷ 45 ∷ []

abbrev doubled : List ℕ
doubled = 38 ∷ 38 ∷ []

abbrev single : List ℕ
single = 38 ∷ []

-- the only file there is: "s" with the words "-a-" and "", the end of it
abbrev script : List ℕ → Option (List ℕ)
script [] = none
script (c ∷ name) = if c == 115 then some (word ++ 32 ∷ 34 ∷ 34 ∷ []) else none

-- "name" "" "&&" "&" "-a-"
abbrev line : List (List ℕ)
line = word ∷ [] ∷ doubled ∷ single ∷ word ∷ []

word-IsArgument : IsArgument word
unfolding char_at
word-IsArgument = record { no_script = refl; no_end = λ e. absurd cc }

empty-IsArgument : IsArgument []
unfolding char_at
empty-IsArgument = record { no_script = refl; no_end = λ e. absurd cc }

doubled-IsArgument : IsArgument doubled
unfolding char_at is_doubled
doubled-IsArgument = record { no_script = refl; no_end = λ e. refl }

next_command_lem_run :
    next_command script 9 (reading line 0 [])
    ≡ some (none, reading line 3 (command_of ([] ∷ doubled ∷ [])))
unfolding char_at is_doubled
next_command_lem_run =
    next_command_lem script (word ∷ []) ([] ∷ doubled ∷ []) (single ∷ word ∷ []) [] 0 9
      (empty-IsArgument, (doubled-IsArgument, tt)) (refl, refl) refl (omega arith)

parse_switch_lem_run :
    (parse_switch (45 ∷ 97 ∷ []) ≡ (true, 97 ∷ [], some true))
    × (parse_switch (45 ∷ ((97 ∷ []) ++ minus ∷ [])) ≡ (true, 97 ∷ [], some false))
unfolding char_at
parse_switch_lem_run = parse_switch_lem 45 (97 ∷ []) (inl refl) refl

word-IsWord : IsWord word
unfolding char_at is_empty
word-IsWord = record {
  plain = (refl, refl, (refl, refl, (refl, refl, tt)));
  nonempty = refl;
  unmarked = refl;
}

pprocess_loop-words_run :
    pprocess_loop script 9 ([] ++ script_text (word ∷ []) (double_quote ∷ double_quote ∷ [])) []
    ≡ some (record { tokens = [] ++ word ∷ []; err_open = none })
unfolding script_fuel
pprocess_loop-words_run =
    pprocess_loop-words script (word ∷ []) [] [] 9 [] (word-IsWord, tt) tt (omega arith)

pprocess_loop-end_example : pprocess_loop script 9 ([] ++ script_text (word ∷ []) []) [] ≡ none
pprocess_loop-end_example = pprocess_loop-end script (word ∷ []) [] 9 [] (word-IsWord, tt) tt

scan_stream-end_run : scan_stream 100 (32 ∷ 10 ∷ []) ≡ none
scan_stream-end_run = scan_stream-end 100 (32 ∷ 10 ∷ []) (refl, (refl, tt))

-- the argument "@s" stands for the words of the script
from_script :
    reset script 9 (new_reader ([] ∷ (64 ∷ 115 ∷ []) ∷ doubled ∷ []))
    ≡ some (none, reading ([] ∷ (64 ∷ 115 ∷ []) ∷ doubled ∷ []) 3 (word ∷ (38 ∷ []) ∷ []))
unfolding reset next_command command_loop get_sw pprocess pprocess_loop new_reader unless_thrown
    scan_stream predicate_scan_stream stream_loop get_char skip_stream is_empty char_at is_doubled
from_script = refl

-- a script that cannot be opened
no_script :
    next_command script 9 (reading ([] ∷ (64 ∷ 116 ∷ []) ∷ []) 0 [])
    ≡ some (some (116 ∷ []), reading ([] ∷ (64 ∷ 116 ∷ []) ∷ []) 1 [])
unfolding next_command command_loop get_sw pprocess char_at is_empty
no_script = refl
