-- ===== src/CmdLine/Commands.antt =====
-- The commands of a command line without scripts, and the switches.
use mathlib.Core.List.{append-nil, append_assoc}
use crs.Base.{
  ℕ, zero, suc, ◌+◌, ◌-◌, ◌≤◌, ◌≡◌, ◌∙◌, true, false, List, [], ◌∷◌, ◌++◌, Option, none, some,
  arith, ◌==◌, ltb, lt→ltb, le→ltb, if◌then◌else◌, length, length-append, is_empty,
  get_or-append_end, ◌⊎◌, inl, inr, Bool-cases, drop, take-append, ◌||◌,
}
use crs.CmdLine.{
  next_command_mark, script_preffix, minus, slash, char_at, is_doubled, Reader, switch, no_switch,
  get_sw, command_loop, next_command, parse_switch,
}

-- what `next_command` pushes for an argument
unfoldable pub command_of : List (List ℕ) → List (List ℕ)
command_of [] = []
command_of (a ∷ args) =
    let rest = command_of args in
    if is_empty a
    then rest
    else if char_at a 0 == next_command_mark
    then drop 1 a ∷ rest
    else a ∷ rest

-- an argument that names no script and ends no command
pub record IsArgument (a : List ℕ) : Type 0 where
  pub no_script : char_at a 0 == script_preffix ≡ false
  pub no_end : (char_at a 0 == next_command_mark ≡ true) → is_doubled next_command_mark a ≡ true

abbrev pub AllArguments : List (List ℕ) → Type 0
AllArguments [] = Unit
AllArguments (a ∷ args) = IsArgument a × AllArguments args

-- the command line is over, or a single `&` ends the command
abbrev pub EndsCommand : List (List ℕ) → Type 0
EndsCommand [] = Unit
EndsCommand (a ∷ more) =
    (char_at a 0 == next_command_mark ≡ true) × (is_doubled next_command_mark a ≡ false)

ends_nonempty : {P : Type 0} → char_at [] 0 == next_command_mark ≡ true → P
unfolding char_at
ends_nonempty h = cc

mark_no_script :
    (x : ℕ) (a : List ℕ)
    → char_at (x ∷ a) 0 == next_command_mark ≡ true
    → char_at (x ∷ a) 0 == script_preffix ≡ false
unfolding char_at
mark_no_script x a h = ground arith

-- a reader with no script left
abbrev pub reading : List (List ℕ) → ℕ → List (List ℕ) → Reader
reading av sw_position command = record {
  av = av;
  sw_position = sw_position;
  script = [];
  command = command;
}

module _ (subscript_file : List ℕ → Option (List ℕ)) where
  get_sw-argument :
      (fuel position : ℕ) (passed more command : List (List ℕ)) (a : List ℕ)
      → position + 1 ≡ length passed
      → (char_at a 0 == script_preffix ≡ false)
      → get_sw subscript_file (suc fuel) (reading (passed ++ a ∷ more) position command)
        ≡ some (switch a, reading (passed ++ a ∷ more) (length passed) command)
  unfolding get_sw
  get_sw-argument fuel position passed more command a p n =
      let size = length-append passed (a ∷ more) in
      let room : ltb (length passed) (length (passed ++ a ∷ more)) ≡ true =
        lt→ltb _ _ (omega arith) in
      rw (p, room, get_or-append_end passed more a [], n)

  get_sw-over :
      (fuel position : ℕ) (passed command : List (List ℕ))
      → position + 1 ≡ length passed
      → get_sw subscript_file (suc fuel) (reading passed position command)
        ≡ some (no_switch, reading passed (length passed) command)
  unfolding get_sw
  get_sw-over fuel position passed command p =
      let over : ltb (length passed) (length passed) ≡ false = le→ltb _ _ (omega arith) in
      rw (p, over)

  command_loop-arguments :
      (args tail passed command : List (List ℕ)) (position fuel : ℕ)
      → AllArguments args
      → EndsCommand tail
      → position + 1 ≡ length passed
      → length args + 2 ≤ fuel
      → command_loop subscript_file fuel (reading (passed ++ (args ++ tail)) position command)
        ≡ some (
          none,
          reading
              (passed ++ (args ++ tail))
              (length passed + length args)
              (command ++ command_of args),
        )
  unfolding command_loop command_of is_empty
  command_loop-arguments args tail passed command position zero h t p f = absurd (omega arith)
  command_loop-arguments args tail passed command position (suc zero) h t p f = absurd (omega arith)
  command_loop-arguments [] [] passed command position (suc (suc fuel)) h t p f =
      let line = append-nil passed in
      let place : length passed + 0 ≡ length passed = omega arith in
      rw (line, get_sw-over fuel position passed command p, place, append-nil command)
  command_loop-arguments [] ([] ∷ more) passed command position (suc (suc fuel)) h t p f =
      absurd (ends_nonempty t.0)
  command_loop-arguments [] ((x ∷ a) ∷ more) passed command position (suc (suc fuel)) h t p f =
      let place : length passed + 0 ≡ length passed = omega arith in
      let no_script = mark_no_script x a t.0 in
      rw (
        get_sw-argument fuel position passed more command (x ∷ a) p no_script,
        t.0,
        t.1,
        place,
        append-nil command,
      )
  command_loop-arguments (a ∷ args) tail passed command position (suc (suc fuel)) h t p f =
      let line = append_assoc passed (a ∷ []) (args ++ tail) in
      let size = length-append passed (a ∷ []) in
      let place : length (passed ++ a ∷ []) + length args ≡ length passed + suc (length args) =
        omega arith in
      let got = get_sw-argument fuel position passed (args ++ tail) command a p h.0.no_script in
      let further = λ (pushed : List (List ℕ)).
        command_loop-arguments args tail (passed ++ a ∷ []) pushed (length passed) (suc fuel) h.1 t
          (omega arith) (omega arith) in
      let rest : (pushed : List (List ℕ))
          → command_loop subscript_file (suc fuel)
              (reading (passed ++ a ∷ (args ++ tail)) (length passed) pushed)
            ≡ some (
              none,
              reading (passed ++ a ∷ (args ++ tail)) (length passed + suc (length args))
                  (pushed ++ command_of args),
            ) =
        λ pushed. rw (line, place) at (further pushed) in
      rw got (elim (Bool-cases (is_empty a)) [
        | inl q ↦ rw q (rest command)
        | inr q ↦ elim (Bool-cases (char_at a 0 == next_command_mark)) [
          | inl m ↦
              rw (q, m, h.0.no_end m)
                (rest (command ++ drop 1 a ∷ [])
                  ∙ rw (append_assoc command (drop 1 a ∷ []) (command_of args)))
          | inr m ↦
              rw (q, m)
                (rest (command ++ a ∷ []) ∙ rw (append_assoc command (a ∷ []) (command_of args)))
        ]
      ])

  -- `next_command` reads the arguments up to a single `&` or to the end of the command line, when
  -- no script is left and none of the arguments names one: the empty ones are dropped, and a
  -- doubled `&` at the start stands for one. The next call goes on behind the `&`.
  pub next_command_lem :
      (passed args tail command : List (List ℕ)) (position fuel : ℕ)
      → AllArguments args
      → EndsCommand tail
      → position + 1 ≡ length passed
      → length args + 2 ≤ fuel
      → next_command subscript_file fuel (reading (passed ++ (args ++ tail)) position command)
        ≡ some (
          none,
          reading (passed ++ (args ++ tail)) (length passed + length args) (command_of args),
        )
  unfolding next_command
  next_command_lem passed args tail command position fuel h t p f =
      command_loop-arguments args tail passed [] position fuel h t p f

-- `parseSwitch` takes off the mark of a switch, `-` or `/`, and a minus at the end, which switches off. Its
-- text is then what stands between.
pub parse_switch_lem :
    (mark : ℕ) (s : List ℕ)
    → (mark == minus ≡ true) ⊎ (mark == slash ≡ true)
    → (char_at (mark ∷ s) (length s) == minus ≡ false)
    → (parse_switch (mark ∷ s) ≡ (true, s, some true))
      × (parse_switch (mark ∷ (s ++ minus ∷ [])) ≡ (true, s, some false))
unfolding parse_switch char_at
parse_switch_lem mark s m e =
    let marked : (mark == minus) || (mark == slash) ≡ true = ground arith in
    let last : suc (length s) - 1 ≡ length s = omega arith in
    let size = length-append s (minus ∷ []) in
    let last' : suc (length (s ++ minus ∷ [])) - 1 ≡ suc (length s) = omega arith in
    let rest : suc (length (s ++ minus ∷ [])) - 2 ≡ length s = omega arith in
    (
      rw (marked, last, e),
      rw (marked, last', get_or-append_end s [] minus 0, rest, take-append s (minus ∷ [])),
    )
