-- ===== src/IniFile.antt =====
-- crs/oio/iniFile.cpp: variables, sections and files of the form
-- `name=contents;description`. A character is its code, a string the list of its characters.
pub mod Lines
pub mod Entries
pub mod Sections
pub mod LastHeader
pub mod Roundtrip
pub mod Order
pub mod Returns
pub mod Size
pub mod Access
pub mod Names
pub mod Values
pub mod Edits
mod Tests
use crs.Base.{
  ℕ, zero, suc, ◌+◌, Bool, true, false, List, [], ◌∷◌, ◌++◌, Option, none, some, ◌==◌,
  if◌then◌else◌, ◌>>=◌, length, drop, add_size, map,
}
use crs.Parsing.{skip_spaces}
unfoldable pub use crs.Base.{is_empty}

-- `SLAP_L`, `SLAP_R`, `REM`, `EQU` and `EOL`
abbrev pub slap_l : ℕ
slap_l = 91

abbrev pub slap_r : ℕ
slap_r = 93

abbrev pub rem : ℕ
rem = 59

abbrev pub equ : ℕ
equ = 61

abbrev pub eol : ℕ
eol = 10

abbrev pub carriage_return : ℕ
carriage_return = 13

-- the characters up to the first `c`, or all of them: `substr (0, find (c))`
unfoldable pub before : ℕ → List ℕ → List ℕ
before c [] = []
before c (x ∷ s) = if x == c then [] else x ∷ before c s

-- the characters behind the first `c`, or none
unfoldable pub after : ℕ → List ℕ → List ℕ
after c [] = []
after c (x ∷ s) = let rest = after c s in if x == c then s else rest

-- what it returns, and what it leaves in `line`
unfoldable pub cutfrom : List ℕ → ℕ → List ℕ × List ℕ
cutfrom line from = (after from line, before from line)

unfoldable pub firstchar : List ℕ → List ℕ
firstchar buf = drop (skip_spaces buf) buf

pub record Var : Type 0 where
  name : List ℕ
  contents : List ℕ
  description : List ℕ

-- The contents pass through `c_str`, which ends at the first null character.
unfoldable pub create : List ℕ → Var
create str =
    let (description, line) = cutfrom str rem in
    let (contents, name) = cutfrom line equ in
    record { name = name; contents = before 0 contents; description = description }

-- `if (_description.length () != 0)`
unfoldable pub write_description : List ℕ → List ℕ
write_description description = if is_empty description then [] else rem ∷ description

-- `Var::write`: the characters written
unfoldable pub write_var : Var → List ℕ
write_var v =
    (if is_empty v.name then [] else v.name ++ equ ∷ v.contents) ++ write_description v.description

-- The lines that `getline` gives one by one. It meets the end of the stream at the last of them.
unfoldable pub add_char : ℕ → List (List ℕ) → List (List ℕ)
add_char c [] = (c ∷ []) ∷ []
add_char c (l ∷ ls) = (c ∷ l) ∷ ls

unfoldable pub lines : List ℕ → List (List ℕ)
lines [] = [] ∷ []
lines (c ∷ s) = let rest = lines s in if c == eol then [] ∷ rest else add_char c rest

-- `firstchar (buf.substr (0, buf.find ('\r')))`
unfoldable pub trim : List ℕ → List ℕ
trim buf = firstchar (before carriage_return buf)

-- `Var::read`: the variable of the next line, and whether `msgEOF` is thrown
unfoldable pub read_var : List (List ℕ) → Var × Bool
read_var [] = (create (trim []), true)
read_var (buf ∷ stream) = (create (trim buf), is_empty stream)

-- `buf.size () && (buf [0] == *SLAP_L)`
unfoldable pub is_header : List ℕ → Bool
is_header [] = false
is_header (c ∷ s) = c == slap_l

-- `Hub::read`: the variables appended, whether `msgEOF` is thrown, and the lines not read. A
-- header is left for the next read. At the end of the stream `getline` leaves `buf` empty.
unfoldable pub hub_read : List (List ℕ) → List Var × Bool × List (List ℕ)
hub_read [] = (create (trim []) ∷ [], true, [])
hub_read (buf ∷ stream) =
    let last = is_empty stream in
    let (vars, thrown, rest) = hub_read stream in
    if is_header (trim buf)
    then ([], last, buf ∷ stream)
    else if last
    then (create (trim buf) ∷ [], true, [])
    else (create (trim buf) ∷ vars, thrown, rest)

-- A section. `vars` is `olist`: in the files that are read here a section holds variables.
pub record Hub : Type 0 where
  name : List ℕ
  description : List ℕ
  vars : List Var

-- an entry of a file
pub data Item : Type 0 where
  a_var : Var → Item
  a_hub : Hub → Item

-- `entries () == -1`
unfoldable pub is_var : Item → Bool
is_var (a_var v) = true
is_var (a_hub h) = false

-- the hub of a header line, without its variables
unfoldable pub create_hub : List ℕ → List Var → Hub
create_hub buf vars =
    let (description, line) = cutfrom (drop 1 buf) rem in
    let (rest, name) = cutfrom line slap_r in
    record { name = name; description = description; vars = vars }

-- `cINIFile::read`: the `for` over the lines, on fuel
unfoldable pub read_loop : ℕ → List (List ℕ) → Option (List Item)
read_loop zero stream = none
read_loop (suc fuel) [] = some (a_var (create (trim [])) ∷ [])
read_loop (suc fuel) (buf ∷ stream) =
    let last = is_empty stream in
    let (vars, thrown, rest) = hub_read stream in
    let var = a_var (create (trim buf)) in
    let hub = a_hub (create_hub (trim buf) vars) in
    let after_hub = read_loop fuel rest in
    let after_var = read_loop fuel stream in
    if is_header (trim buf)
    then (if last
        then some (hub ∷ [])
        else if thrown
        then some (hub ∷ [])
        else (after_hub >>= λ items. some (hub ∷ items)))
    else if last
    then some (var ∷ [])
    else (after_var >>= λ items. some (var ∷ items))

unfoldable pub read_file : List ℕ → Option (List Item)
read_file text = read_loop (length (lines text)) (lines text)

-- the lines of `_write_contents`, each with the line feed in front
unfoldable pub newline_each : List (List ℕ) → List ℕ
newline_each [] = []
newline_each (s ∷ rest) = eol ∷ (s ++ newline_each rest)

-- the same, but for the first one: `startFromNewLine` is false
unfoldable pub newline_between : List (List ℕ) → List ℕ
newline_between [] = []
newline_between (s ∷ rest) = s ++ newline_each rest

unfoldable pub hub_write : Hub → List ℕ
hub_write h =
    slap_l
    ∷ (h.name ++ slap_r ∷ (write_description h.description ++ newline_each (map write_var h.vars)))

unfoldable pub write_item : Item → List ℕ
write_item (a_var v) = write_var v
write_item (a_hub h) = hub_write h

-- The sort of `_write_contents`, with the entries before `i`, from `i` to `p`, and from `p` on: a
-- variable at `p` moves to `i`, and the entries between go up by one.
unfoldable pub sort_loop : List Item → List Item → List Item → List Item
sort_loop front between [] = front ++ between
sort_loop front between (x ∷ rest) =
    let moved = sort_loop (front ++ x ∷ []) between rest in
    let kept = sort_loop front (between ++ x ∷ []) rest in if is_var x then moved else kept

-- the `while` over the variables at the start, and then the `for`
unfoldable pub sort_from : List Item → List Item → List Item
sort_from front [] = front
sort_from front (x ∷ rest) =
    let further = sort_from (front ++ x ∷ []) rest in
    if is_var x then further else sort_loop front [] (x ∷ rest)

unfoldable pub sort_items : List Item → List Item
sort_items items = sort_from [] items

-- `cINIFile::write`
unfoldable pub write_file : List Item → List ℕ
write_file items = newline_between (map write_item (sort_items items))

-- `get_hub_size`, for a variable
unfoldable pub add_var_size : ℕ → Var → ℕ
add_var_size sz v =
    let with_name =
      if is_empty v.name then sz else add_size sz (length v.name + 1 + length v.contents) in
    let with_description =
      if is_empty v.description then with_name else add_size with_name (1 + length v.description) in
    add_size with_description 1

-- `Hub::size`, over the variables in the order of the multimap
unfoldable pub size_loop : ℕ → List Var → ℕ
size_loop sz [] = sz
size_loop sz (v ∷ rest) = size_loop (add_var_size sz v) rest

unfoldable pub hub_size : List Var → ℕ
hub_size in_order = size_loop 0 in_order
