-- ===== src/Rs232/Lines.antt =====
-- What `handle_read` makes of the bytes that come.
use mathlib.Core.List.{append_assoc}
use crs.Base.{
  length-nil, ℕ, suc, ◌+◌, ◌-◌, ◌≤◌, ◌≡◌, refl, sym, ap, ap₂, ◌∙◌, inl, inr, true, false, List, [],
  ◌∷◌, ◌++◌, some, arith, ltb, leb, ◌==◌, length, take, drop, overwrite, overwrite-append,
  length-overwrite, length-append, take-append, drop-append, Bool-cases, ==_iff,
}
use crs.Rs232.{
  Rs232Port, is_delim, strpbrk, skip_delims, in_buf_append, incoming_data, compile_response,
  process_incoming_bytes, ReadResult, got, handle_read,
}

-- no delimiters and no null characters
abbrev pub IsPlain : List ℕ → Type 0
IsPlain [] = Unit
IsPlain (c ∷ s) = (is_delim c ≡ false) × (c == 0 ≡ false) × IsPlain s

abbrev pub AreDelims : List ℕ → Type 0
AreDelims [] = Unit
AreDelims (c ∷ s) = (is_delim c ≡ true) × AreDelims s

-- the first character, if any, is not a delimiter
abbrev pub BeginsAnew : List ℕ → Type 0
BeginsAnew [] = Unit
BeginsAnew (c ∷ s) = is_delim c ≡ false

strpbrk-plain :
    (line : List ℕ) (c : ℕ) (s : List ℕ)
    → IsPlain line
    → is_delim c ≡ true
    → strpbrk (line ++ c ∷ s) ≡ some (some (length line))
unfolding strpbrk
strpbrk-plain [] c s f d = rw d refl
strpbrk-plain (b ∷ line) c s (p, z, f) d = rw (p, z, strpbrk-plain line c s f d) refl

skip_delims-append :
    (ends next : List ℕ)
    → AreDelims ends
    → BeginsAnew next
    → skip_delims (ends ++ next) ≡ length ends
unfolding skip_delims
skip_delims-append [] [] f g = refl
skip_delims-append [] (c ∷ next) f g = rw g refl
skip_delims-append (c ∷ ends) next f g = rw f.0 (ap suc (skip_delims-append ends next f.1 g))

-- `next` waits at the front of the buffer
pub record IsWaiting (s : Rs232Port) (next : List ℕ) : Type 0 where
  pub more : List ℕ
  pub front : s.in_buf ≡ next ++ more
  pub ptr : s.in_buf_ptr ≡ length next

module _ (line ends next more : List ℕ) (e : ℕ) (plain : IsPlain line)
    (delims : AreDelims (e ∷ ends)) (anew : BeginsAnew next) where
  abbrev whole : List ℕ
  whole = line ++ (e ∷ ends ++ next)

  compile_response-line :
      (s : Rs232Port)
      → s.in_buf ≡ whole ++ more
      → compile_response (length whole) s
        ≡ some (
          length line + length (e ∷ ends),
          record s { str_in_buf = s.str_in_buf ++ line; data_calls = s.data_calls + 1 },
        )
  unfolding compile_response in_buf_append incoming_data
  compile_response-line s b =
      let at : s.in_buf ≡ line ++ (e ∷ (ends ++ next) ++ more) =
        b ∙ append_assoc line (e ∷ ends ++ next) more in
      let found : strpbrk s.in_buf ≡ some (some (length line)) =
        ap strpbrk at ∙ strpbrk-plain line e ((ends ++ next) ++ more) plain delims.0 in
      let size : length whole ≡ length line + length (e ∷ ends ++ next) =
        length-append line (e ∷ ends ++ next) in
      let within : ltb (length line) (length whole) ≡ true = ground arith in
      let taken : take (length line) s.in_buf ≡ line =
        ap (take (length line)) at ∙ take-append line (e ∷ (ends ++ next) ++ more) in
      let available : take (length whole) s.in_buf ≡ whole =
        ap (take (length whole)) b ∙ take-append whole more in
      let behind : drop (length line) (take (length whole) s.in_buf) ≡ e ∷ ends ++ next =
        ap (drop (length line)) available ∙ drop-append line (e ∷ ends ++ next) in
      let skipped = skip_delims-append (e ∷ ends) next delims anew in
      rw (found, within, taken, behind, skipped) refl

  process_incoming_bytes-line :
      (s : Rs232Port) (read : ℕ)
      → s.in_buf ≡ whole ++ more
      → s.in_buf_ptr + read ≡ length whole
      → length next ≤ length line + length (e ∷ ends)
      → (t : Rs232Port) × (process_incoming_bytes read s ≡ some t)
        × (t.str_in_buf ≡ s.str_in_buf ++ line)
        × (t.data_calls ≡ s.data_calls + 1)
        × IsWaiting t next
        × (length t.in_buf ≡ length s.in_buf)
  unfolding process_incoming_bytes
  process_incoming_bytes-line s read b p apart =
      let size : length whole ≡ length line + (length (e ∷ ends) + length next) =
        length-append line (e ∷ ends ++ next)
        ∙ ap (λ n. length line + n) (length-append (e ∷ ends) next) in
      let n = length line + length (e ∷ ends) in
      let compiled = compile_response-line (record s { in_buf_ptr = length whole }) b in
      let some_read : n == 0 ≡ false = ground arith in
      let left : length whole - n ≡ length next = omega arith in
      let regrouped : s.in_buf ≡ (line ++ e ∷ ends) ++ (next ++ more) =
        b
        ∙ ap (λ xs. xs ++ more) (sym (append_assoc line (e ∷ ends) next))
        ∙ append_assoc (line ++ e ∷ ends) next more in
      let behind : drop n s.in_buf ≡ next ++ more =
        ap₂ drop (sym (length-append line (e ∷ ends))) regrouped
        ∙ drop-append (line ++ e ∷ ends) (next ++ more) in
      elim (Bool-cases (length next == 0)) [
        | inl q ↦
            let none_left : length next ≡ length {A = ℕ} [] = (==_iff (length next) 0).0 q in
            let t : Rs232Port = record s {
              str_in_buf = s.str_in_buf ++ line;
              data_calls = s.data_calls + 1;
              in_buf_ptr = 0;
            } in
            let waiting : IsWaiting t next = record {
              more = s.in_buf;
              front = ap (λ xs. xs ++ s.in_buf) (sym (length-nil next none_left));
              ptr = omega arith;
            } in
            rw (p, compiled, some_read, left, q) (t, refl, refl, refl, waiting, refl)
        | inr q ↦
            let kept : take (length next) (drop n s.in_buf) ≡ next =
              ap (take (length next)) behind ∙ take-append next more in
            let t : Rs232Port = record s {
              str_in_buf = s.str_in_buf ++ line;
              data_calls = s.data_calls + 1;
              in_buf = overwrite 0 next s.in_buf;
              in_buf_ptr = length next;
            } in
            let waiting : IsWaiting t next = record {
              more = drop (0 + length next) s.in_buf;
              front = refl;
              ptr = refl;
            } in
            let total : length s.in_buf ≡ length whole + length more =
              ap (λ (xs : List ℕ). length xs) b ∙ length-append whole more in
            let same = length-overwrite 0 next s.in_buf (omega (arith, size, total)) in
            let no_overlap : ltb n (length next) ≡ false = ground arith in
            rw (p, compiled, some_read, left, q, kept, no_overlap)
              (t, refl, refl, refl, waiting, same)
      ]

-- Where `rest` waits, and the bytes that come fit into the buffer and complete a line, `handle_read`
-- puts this one line behind the string, without the line ends behind it, and calls back once. All that
-- follows waits, further lines too. The line has no null character, and what follows it is no longer
-- than the line with its ends, as the areas of the copy overlap else.
pub handle_read-line :
    (s : Rs232Port) (rest line ends next : List ℕ) (c e : ℕ) (bytes : List ℕ)
    (script : List ReadResult)
    → IsWaiting s rest
    → s.in_buf_ptr + length (c ∷ bytes) ≤ length s.in_buf
    → rest ++ c ∷ bytes ≡ line ++ (e ∷ ends ++ next)
    → IsPlain line
    → AreDelims (e ∷ ends)
    → BeginsAnew next
    → length next ≤ length line + length (e ∷ ends)
    → (t : Rs232Port) × (handle_read (got (c ∷ bytes) ∷ script) s ≡ some t)
      × (t.str_in_buf ≡ s.str_in_buf ++ line)
      × (t.data_calls ≡ s.data_calls + 1)
      × IsWaiting t next
      × (length t.in_buf ≡ length s.in_buf)
unfolding handle_read
handle_read-line s rest line ends next c e bytes script w room cut plain delims anew apart =
    let ptr = w.ptr in
    let fits : leb (s.in_buf_ptr + length (c ∷ bytes)) (length s.in_buf) ≡ true = ground arith in
    let more = drop (length (c ∷ bytes)) w.more in
    let filled : Rs232Port = record s { in_buf = overwrite s.in_buf_ptr (c ∷ bytes) s.in_buf } in
    let front : filled.in_buf ≡ (line ++ (e ∷ ends ++ next)) ++ more =
      ap₂ (λ n xs. overwrite n (c ∷ bytes) xs) w.ptr w.front
      ∙ overwrite-append rest (c ∷ bytes) w.more
      ∙ sym (append_assoc rest (c ∷ bytes) more)
      ∙ ap (λ xs. xs ++ more) cut in
    let total : s.in_buf_ptr + length (c ∷ bytes) ≡ length (line ++ (e ∷ ends ++ next)) =
      ap (λ n. n + length (c ∷ bytes)) w.ptr
      ∙ sym (length-append rest (c ∷ bytes))
      ∙ ap (λ (xs : List ℕ). length xs) cut in
    let (t, done, str, calls, waiting, same) =
      process_incoming_bytes-line line ends next more e plain delims anew filled
        (length (c ∷ bytes)) front total apart in
    let size = length-overwrite s.in_buf_ptr (c ∷ bytes) s.in_buf room in
    rw fits (t, done, str, calls, waiting, same ∙ size)
