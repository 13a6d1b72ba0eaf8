-- ===== src/Rs232/Tests.antt =====
-- Lines of two characters on a port with a buffer of sixteen bytes.
use crs.Base.{
  take, drop, none, false, true, ◌↔◌, ℕ, ◌+◌, ◌≡◌, refl, true, not, List, [], ◌∷◌, ◌++◌, some,
  arith, length, replicate, is_empty, ◌>>=◌,
}
use crs.Rs232.{
  Rs232Port, strpbrk, skip_delims, in_buf_append, incoming_data, compile_response,
  process_incoming_bytes, signal, got, handle_read, would_block, took, Writing, written, write,
  write_loop, handle_write,
}
use crs.Rs232.Lines.{IsWaiting, handle_read-line}
use crs.Rs232.Written.{Ends, accepted, fails, write_lem, handle_write_lem}

abbrev port : Rs232Port
port = record {
  in_buf = replicate 16 0;
  in_buf_ptr = 0;
  str_in_buf = [];
  data_calls = 0;
  buf_size = 16;
  out_buf = [];
}

-- "ab", its ends, and "cd" with its end
abbrev bytes : List ℕ
bytes = 98 ∷ 13 ∷ 10 ∷ 99 ∷ 100 ∷ 10 ∷ []

port-IsWaiting : IsWaiting port []
port-IsWaiting = record { more = replicate 16 0; front = refl; ptr = refl }

handle_read-line_example :
    (t : Rs232Port) × (handle_read (got (97 ∷ bytes) ∷ []) port ≡ some t)
    × (t.str_in_buf ≡ [] ++ 97 ∷ 98 ∷ [])
    × (t.data_calls ≡ 0 + 1)
    × IsWaiting t (99 ∷ 100 ∷ 10 ∷ [])
    × (length t.in_buf ≡ 16)
handle_read-line_example =
    handle_read-line port [] (97 ∷ 98 ∷ []) (10 ∷ []) (99 ∷ 100 ∷ 10 ∷ []) 97 13 bytes []
      port-IsWaiting (omega arith) refl (refl, refl, (refl, refl, tt)) (refl, (refl, tt)) refl
      (omega arith)

-- the second line comes out with the bytes of the third
lines_late :
    (handle_read (got (97 ∷ bytes) ∷ []) port >>= λ s.
    handle_read (signal ∷ got (120 ∷ []) ∷ []) s >>= λ t. some t.str_in_buf)
    ≡ some (97 ∷ 98 ∷ 99 ∷ 100 ∷ [])
unfolding handle_read process_incoming_bytes compile_response strpbrk skip_delims in_buf_append
    incoming_data
lines_late = refl

write_lem_example :
    (end : Writing × Rs232Port) × (write (took 2 ∷ would_block ∷ []) (1 ∷ 2 ∷ 3 ∷ []) port
      ≡ (take (accepted (took 2 ∷ would_block ∷ []) 3) (1 ∷ 2 ∷ 3 ∷ []), end.0, end.1))
    × Ends port
        (drop (accepted (took 2 ∷ would_block ∷ []) 3) (1 ∷ 2 ∷ 3 ∷ []))
        (fails (took 2 ∷ would_block ∷ []) 3)
        end
write_lem_example =
    write_lem (took 2 ∷ would_block ∷ []) (1 ∷ 2 ∷ 3 ∷ []) port (omega arith, tt) (omega arith)

two_accepted : accepted (took 2 ∷ would_block ∷ []) 3 ≡ 2
unfolding accepted
two_accepted = refl

abbrev waiting : Rs232Port
waiting = record port { out_buf = 3 ∷ 4 ∷ [] }

handle_write_lem_example :
    let k = accepted (took 1 ∷ would_block ∷ []) 2 in
    let (wire, result, t) = handle_write (took 1 ∷ would_block ∷ []) (5 ∷ []) waiting in
    (wire ≡ take k (3 ∷ 4 ∷ []))
    × (fails (took 1 ∷ would_block ∷ []) 2 ≡ true
        → (result ≡ none) × (t ≡ record waiting { out_buf = 3 ∷ 4 ∷ 5 ∷ [] }))
    × (fails (took 1 ∷ would_block ∷ []) 2 ≡ false
        → (result ≡ some (not (is_empty {A = ℕ} (5 ∷ []))))
          × (t ≡ record waiting { out_buf = 5 ∷ [] })
          × ((wire ++ t.out_buf ≡ 3 ∷ 4 ∷ 5 ∷ []) ↔ (k ≡ 2)))
handle_write_lem_example =
    handle_write_lem (took 1 ∷ would_block ∷ []) (5 ∷ []) waiting (omega arith, tt)

-- the byte 4 is lost
lost_byte :
    handle_write (took 1 ∷ would_block ∷ []) (5 ∷ []) waiting
    ≡ (3 ∷ [], some true, record waiting { out_buf = 5 ∷ [] })
unfolding handle_write write_loop is_empty
lost_byte = refl

-- bytes that are written later go out before those that wait
overtaken : write (took 1 ∷ []) (9 ∷ []) waiting ≡ (9 ∷ [], written, waiting)
unfolding write
overtaken = refl
