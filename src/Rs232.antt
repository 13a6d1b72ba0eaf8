-- ===== src/Rs232.antt =====
-- crs/sc/basic.rs232port.cpp and crs/sc/posix.rs232port.cpp: a serial port that gives its input line by
-- line. `_inBuf` is the list of all bytes of the buffer, `outBuf` that of the bytes up to `outBufPtr`.
-- The device's answers are a script.
pub mod Lines
pub mod Written
mod Tests
use crs.Base.{
  ℕ, zero, suc, ◌+◌, ◌-◌, Bool, true, false, not, ◌||◌, List, [], ◌∷◌, ◌++◌, Option, none, some,
  ltb, leb, ◌==◌, if◌then◌else◌, ◌>>=◌, length, take, drop, is_empty, overwrite,
}

pub record Rs232Port : Type 0 where
  pub in_buf : List ℕ
  pub in_buf_ptr : ℕ
  pub str_in_buf : List ℕ
  -- how often `incomingData` was called
  pub data_calls : ℕ
  pub buf_size : ℕ
  pub out_buf : List ℕ

-- "\n\r"
abbrev pub is_delim : ℕ → Bool
is_delim c = (c == 10) || (c == 13)

-- `strpbrk`: the place of the first delimiter, or none where a null character comes first. A buffer
-- with neither of them is read behind its end, which is the outer `none`.
unfoldable pub strpbrk : List ℕ → Option (Option ℕ)
strpbrk [] = none
strpbrk (c ∷ s) =
    let further = strpbrk s >>= λ p. some (p >>= λ i. some (suc i)) in
    if is_delim c then some (some 0) else if c == 0 then some none else further

-- the `while` over the delimiters
unfoldable pub skip_delims : List ℕ → ℕ
skip_delims [] = 0
skip_delims (c ∷ s) = if is_delim c then suc (skip_delims s) else 0

unfoldable pub in_buf_append : List ℕ → Rs232Port → Rs232Port
in_buf_append bytes s = record s { str_in_buf = s.str_in_buf ++ bytes }

unfoldable pub incoming_data : Rs232Port → Rs232Port
incoming_data s = record s { data_calls = s.data_calls + 1 }

-- the number of bytes that were processed
unfoldable pub compile_response : ℕ → Rs232Port → Option (ℕ × Rs232Port)
compile_response available s = strpbrk s.in_buf >>= λ p. elim p [
  | none ↦ some (0, s)
  | some n ↦
      let line = incoming_data (in_buf_append (take n s.in_buf) s) in
      let ends = skip_delims (drop n (take available s.in_buf)) in
      if ltb n available then some (n + ends, line) else some (0, s)
]

-- The bytes behind the processed ones go to the front by `memcpy`, which is undefined where they are more
-- than the processed ones, as the two areas overlap then.
unfoldable pub process_incoming_bytes : ℕ → Rs232Port → Option Rs232Port
process_incoming_bytes read s =
    let available = s.in_buf_ptr + read in
    compile_response available (record s { in_buf_ptr = available }) >>= λ (processed, t).
    let rest = take (available - processed) (drop processed t.in_buf) in
    let moved = record t {
      in_buf = overwrite 0 rest t.in_buf;
      in_buf_ptr = available - processed;
    } in
    let emptied = record t { in_buf_ptr = 0 } in
    if processed == 0
    then some t
    else if available - processed == 0
    then some emptied
    else if ltb processed (available - processed)
    then none
    else some moved

-- what `::read` gives: -1 as a signal came, -1 as there is nothing, or bytes
pub data ReadResult : Type 0 where
  signal : ReadResult
  no_bytes : ReadResult
  got : List ℕ → ReadResult

-- `handle_read`, which returns false; the loop goes on where nothing was read
unfoldable pub handle_read : List ReadResult → Rs232Port → Option Rs232Port
handle_read [] s = some s
handle_read (signal ∷ script) s = handle_read script s
handle_read (no_bytes ∷ script) s = some s
handle_read (got [] ∷ script) s = handle_read script s
handle_read (got (c ∷ bytes) ∷ script) s =
    let filled = record s { in_buf = overwrite s.in_buf_ptr (c ∷ bytes) s.in_buf } in
    let done = process_incoming_bytes (length (c ∷ bytes)) filled in
    if leb (s.in_buf_ptr + length (c ∷ bytes)) (length s.in_buf) then done else none

unfoldable pub get_string : Rs232Port → List ℕ × Rs232Port
get_string s = (s.str_in_buf, record s { str_in_buf = [] })

unfoldable pub synchronize : Rs232Port → Rs232Port
synchronize s = record s { in_buf_ptr = 0; str_in_buf = [] }

-- what `::write` gives
pub data WriteResult : Type 0 where
  interrupted : WriteResult
  would_block : WriteResult
  failed : WriteResult
  took : ℕ → WriteResult

-- how `write` ends: it returns, or throws one of its two texts
pub data Writing : Type 0 where
  written : Writing
  buffer_full : Writing
  write_error : Writing

-- `post`
unfoldable pub post : List ℕ → Rs232Port → Bool × Rs232Port
post bytes s =
    if ltb (s.buf_size - length s.out_buf) (length bytes)
    then (false, s)
    else (true, record s { out_buf = s.out_buf ++ bytes })

-- the branch of `EAGAIN` in `write`
unfoldable pub post_rest : List ℕ → Rs232Port → Writing × Rs232Port
post_rest bytes s = let (posted, t) = post bytes s in (if posted then written else buffer_full, t)

-- none of these bytes go out now
unfoldable pub postpone : List ℕ → Rs232Port → List ℕ × Writing × Rs232Port
postpone bytes s = let (result, t) = post_rest bytes s in ([], result, t)

-- `write`: what went out to the device, how it ends, and the port. A device whose answers are used up
-- takes no more bytes.
unfoldable pub write : List WriteResult → List ℕ → Rs232Port → List ℕ × Writing × Rs232Port
write script [] s = ([], written, s)
write [] (c ∷ bytes) s = postpone (c ∷ bytes) s
write (interrupted ∷ script) (c ∷ bytes) s = write script (c ∷ bytes) s
write (would_block ∷ script) (c ∷ bytes) s = postpone (c ∷ bytes) s
write (failed ∷ script) (c ∷ bytes) s = ([], write_error, s)
write (took n ∷ script) (c ∷ bytes) s =
    let (wire, result, t) = write script (drop n (c ∷ bytes)) s in
    (take n (c ∷ bytes) ++ wire, result, t)

-- the loop of `handle_write` over the bytes up to `endPtr`: what went out, and whether it throws
unfoldable pub write_loop : List WriteResult → List ℕ → List ℕ × Bool
write_loop script [] = ([], false)
write_loop [] (c ∷ bytes) = ([], false)
write_loop (interrupted ∷ script) (c ∷ bytes) = write_loop script (c ∷ bytes)
write_loop (would_block ∷ script) (c ∷ bytes) = ([], false)
write_loop (failed ∷ script) (c ∷ bytes) = ([], true)
write_loop (took n ∷ script) (c ∷ bytes) =
    let (wire, thrown) = write_loop script (drop n (c ∷ bytes)) in
    (take n (c ∷ bytes) ++ wire, thrown)

-- `handle_write`, while other threads post `posted`: what went out, what it returns, none where it
-- throws, and the port
unfoldable pub handle_write :
    List WriteResult → List ℕ → Rs232Port → List ℕ × Option Bool × Rs232Port
handle_write script posted s =
    let (wire, thrown) = write_loop script s.out_buf in
    let all = record s { out_buf = s.out_buf ++ posted } in
    let left = record s { out_buf = posted } in
    if thrown then (wire, none, all) else (wire, some (not (is_empty posted)), left)

unfoldable pub want2write : Rs232Port → Bool
want2write s = not (is_empty s.out_buf)
