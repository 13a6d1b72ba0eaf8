-- ===== src/Rs232/Written.antt =====
-- What goes out to the device: `write` loses nothing, `handle_write` does.
use mathlib.Core.List.{append-nil}
use crs.Base.{
  ℕ, zero, suc, ◌+◌, ◌-◌, ◌≤◌, ◌<◌, ◌⊎◌, ◌↔◌, ◌≡◌, refl, ap, ap₂, ◌∙◌, inl, inr, Bool, true, false,
  not, List, [], ◌∷◌, ◌++◌, none, some, arith, ltb, length, take, drop, is_empty, take-more,
  drop-more, take_all, length-take, length-drop, length-append, Bool-cases,
}
use crs.Rs232.{
  Rs232Port, WriteResult, interrupted, would_block, failed, took, Writing, written, buffer_full,
  write_error, post, post_rest, postpone, write, write_loop, handle_write,
}

-- the device takes no more bytes than it is given
abbrev pub IsFitting : List WriteResult → ℕ → Type 0
IsFitting [] left = Unit
IsFitting (interrupted ∷ script) left = IsFitting script left
IsFitting (would_block ∷ script) left = Unit
IsFitting (failed ∷ script) left = Unit
IsFitting (took n ∷ script) left = (n ≤ left) × IsFitting script (left - n)

-- how many of `left` bytes the device takes before it blocks or fails
unfoldable pub accepted : List WriteResult → ℕ → ℕ
accepted script zero = 0
accepted [] (suc left) = 0
accepted (interrupted ∷ script) (suc left) = accepted script (suc left)
accepted (would_block ∷ script) (suc left) = 0
accepted (failed ∷ script) (suc left) = 0
accepted (took n ∷ script) (suc left) = n + accepted script (suc left - n)

-- whether it fails before it has taken them all
unfoldable pub fails : List WriteResult → ℕ → Bool
fails script zero = false
fails [] (suc left) = false
fails (interrupted ∷ script) (suc left) = fails script (suc left)
fails (would_block ∷ script) (suc left) = false
fails (failed ∷ script) (suc left) = true
fails (took n ∷ script) (suc left) = fails script (suc left - n)

-- how `write` ends, where the device did not take `rest`, and failed or not
abbrev pub Ends : Rs232Port → List ℕ → Bool → Writing × Rs232Port → Type 0
Ends s rest true (result, t) = (result ≡ write_error) × (t ≡ s)
Ends s rest false (result, t) =
    ((result ≡ written)
      × (t ≡ record s { out_buf = s.out_buf ++ rest })
      × (length s.out_buf + length rest ≤ s.buf_size))
    ⊎ ((result ≡ buffer_full) × (t ≡ s) × (s.buf_size < length s.out_buf + length rest))

postpone-Ends :
    (bytes : List ℕ) (s : Rs232Port)
    → length s.out_buf ≤ s.buf_size
    → Ends s bytes false (post_rest bytes s)
unfolding post_rest post
postpone-Ends bytes s h = elim (Bool-cases (ltb (s.buf_size - length s.out_buf) (length bytes))) [
  | inl q ↦ rw q (inr (refl, refl, ground arith))
  | inr q ↦ rw q (inl (refl, refl, ground arith))
]

-- nothing is left
written-Ends : (s : Rs232Port) → length s.out_buf ≤ s.buf_size → Ends s [] false (written, s)
written-Ends s h = inl (refl, rw (append-nil s.out_buf) refl, omega arith)

-- Where the device takes no more than it is given, and the bytes that wait are no more than the buffer
-- holds, `write` sends as many of the first bytes as the device takes before it blocks or fails. Where
-- it fails, `write` throws and the port is as it was. Else all other bytes are put behind those that
-- wait, if they fit into the buffer with them, and `write` throws if they do not.
pub write_lem :
    (script : List WriteResult) (bytes : List ℕ) (s : Rs232Port)
    → IsFitting script (length bytes)
    → length s.out_buf ≤ s.buf_size
    → (end : Writing × Rs232Port) × (write script bytes s
        ≡ (take (accepted script (length bytes)) bytes, end.0, end.1))
      × Ends s (drop (accepted script (length bytes)) bytes) (fails script (length bytes)) end
unfolding write postpone accepted fails
write_lem script [] s f h = ((written, s), refl, written-Ends s h)
write_lem [] (c ∷ bytes) s f h = (post_rest (c ∷ bytes) s, refl, postpone-Ends (c ∷ bytes) s h)
write_lem (interrupted ∷ script) (c ∷ bytes) s f h = write_lem script (c ∷ bytes) s f h
write_lem (would_block ∷ script) (c ∷ bytes) s f h =
    (post_rest (c ∷ bytes) s, refl, postpone-Ends (c ∷ bytes) s h)
write_lem (failed ∷ script) (c ∷ bytes) s f h = ((write_error, s), refl, (refl, refl))
write_lem (took n ∷ script) (c ∷ bytes) s f h =
    let size = length-drop n (c ∷ bytes) in
    let fits : IsFitting script (length (drop n (c ∷ bytes))) = rw size f.1 in
    let (end, done, ends) = write_lem script (drop n (c ∷ bytes)) s fits h in
    let k = accepted script (length (drop n (c ∷ bytes))) in
    let same : k ≡ accepted script (suc (length bytes) - n) = ap (accepted script) size in
    let fail : fails script (length (drop n (c ∷ bytes))) ≡ fails script (suc (length bytes) - n) =
      ap (fails script) size in
    let rest : drop k (drop n (c ∷ bytes))
        ≡ drop (n + accepted script (suc (length bytes) - n)) (c ∷ bytes) =
      drop-more n k (c ∷ bytes) ∙ ap (λ k. drop (n + k) (c ∷ bytes)) same in
    let out = take-more n k (c ∷ bytes) ∙ ap (λ k. take (n + k) (c ∷ bytes)) same in
    let behind = rw rest at ends in
    (
      end,
      ap (λ (r : List ℕ × Writing × Rs232Port). (take n (c ∷ bytes) ++ r.0, r.1, r.2)) done
          ∙ ap (λ xs. (xs, end.0, end.1)) out,
      rw fail at behind,
    )

accepted-bound :
    (script : List WriteResult) (left : ℕ) → IsFitting script left → accepted script left ≤ left
unfolding accepted
accepted-bound script zero f = omega arith
accepted-bound [] (suc left) f = omega arith
accepted-bound (interrupted ∷ script) (suc left) f = accepted-bound script (suc left) f
accepted-bound (would_block ∷ script) (suc left) f = omega arith
accepted-bound (failed ∷ script) (suc left) f = omega arith
accepted-bound (took n ∷ script) (suc left) f =
    let least = f.0 in omega (arith, accepted-bound script (suc left - n) f.1)

write_loop_lem :
    (script : List WriteResult) (bytes : List ℕ)
    → IsFitting script (length bytes)
    → write_loop script bytes
      ≡ (take (accepted script (length bytes)) bytes, fails script (length bytes))
unfolding write_loop accepted fails
write_loop_lem script [] f = refl
write_loop_lem [] (c ∷ bytes) f = refl
write_loop_lem (interrupted ∷ script) (c ∷ bytes) f = write_loop_lem script (c ∷ bytes) f
write_loop_lem (would_block ∷ script) (c ∷ bytes) f = refl
write_loop_lem (failed ∷ script) (c ∷ bytes) f = refl
write_loop_lem (took n ∷ script) (c ∷ bytes) f =
    let size = length-drop n (c ∷ bytes) in
    let fits : IsFitting script (length (drop n (c ∷ bytes))) = rw size f.1 in
    let done = write_loop_lem script (drop n (c ∷ bytes)) fits in
    let k = accepted script (length (drop n (c ∷ bytes))) in
    let same : k ≡ accepted script (suc (length bytes) - n) = ap (accepted script) size in
    let out = take-more n k (c ∷ bytes) ∙ ap (λ k. take (n + k) (c ∷ bytes)) same in
    ap (λ (r : List ℕ × Bool). (take n (c ∷ bytes) ++ r.0, r.1)) done
    ∙ ap₂ (λ xs b. (xs, b)) out (ap (fails script) size)

module _ (bytes posted : List ℕ) where
  -- the first bytes and what was posted are all there is exactly if all bytes are among the first ones
  kept_all :
      (k : ℕ) → k ≤ length bytes → (take k bytes ++ posted ≡ bytes ++ posted) ↔ (k ≡ length bytes)
  kept_all k h = (
    λ e.
        let first = length-append (take k bytes) posted in
        let whole = length-append bytes posted in
        let same : length (take k bytes ++ posted) ≡ length (bytes ++ posted) =
          ap (λ (xs : List ℕ). length xs) e in
        let size = length-take k bytes h in omega arith,
    λ e. rw (e, take_all bytes) refl,
  )

-- Where the device takes no more than it is given, `handle_write` sends as many of the first bytes of
-- the buffer as the device takes before it blocks or fails. Where it fails, `handle_write` throws and
-- all bytes stay in the buffer, those that went out too. Else only what is posted meanwhile stays, the
-- result tells whether there is any, and the bytes that went out and those that stay are all there were
-- exactly if the device took the whole buffer.
pub handle_write_lem :
    (script : List WriteResult) (posted : List ℕ) (s : Rs232Port)
    → IsFitting script (length s.out_buf)
    → let k = accepted script (length s.out_buf) in
      let (wire, result, t) = handle_write script posted s in
      (wire ≡ take k s.out_buf)
      × (fails script (length s.out_buf) ≡ true
          → (result ≡ none) × (t ≡ record s { out_buf = s.out_buf ++ posted }))
      × (fails script (length s.out_buf) ≡ false
          → (result ≡ some (not (is_empty posted)))
            × (t ≡ record s { out_buf = posted })
            × ((wire ++ t.out_buf ≡ s.out_buf ++ posted) ↔ (k ≡ length s.out_buf)))
unfolding handle_write
handle_write_lem script posted s f =
    let done = write_loop_lem script s.out_buf f in
    let bound = accepted-bound script (length s.out_buf) f in
    let all = kept_all s.out_buf posted (accepted script (length s.out_buf)) bound in
    elim (Bool-cases (fails script (length s.out_buf))) [
      | inl e ↦ rw (done, e) (refl, λ g. (refl, refl), λ g. absurd cc)
      | inr e ↦ rw (done, e) (refl, λ g. absurd cc, λ g. (refl, refl, all))
    ]
