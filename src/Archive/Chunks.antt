-- ===== src/Archive/Chunks.antt =====
-- read512 of myTar.c.
use building_gem_os_cs.Base.{
  ℕ, zero, suc, ◌+◌, ◌-◌, ◌<◌, ◌≤◌, ◌≡◌, refl, ◌∙◌, Bool, true, false, List, ◌++◌, ltb, length,
  take, drop, length-take, length-drop, arith,
}
use building_gem_os_cs.Archive.{
  Output, Result, done, stuck, ◌>>=◌, write_all, write_if, Copy, copy_chunk, copy_loop, read512,
}

-- the output with bytes behind it, if they are written
abbrev pub written : Bool → List ℕ → Output → Output
written true bytes o = record { bytes = o.bytes ++ bytes; room = o.room - length bytes }
written false bytes o = o

-- The disk takes `n` bytes, if they are written.
abbrev pub Fits : Bool → ℕ → Output → Type 0
Fits true n o = n ≤ o.room
Fits false n o = Unit

write_if_lem :
    (w : Bool) (bytes : List ℕ) (o : Output)
    → Fits w (length bytes) o
    → write_if w bytes o ≡ done (written w bytes o)
unfolding write_all
write_if_lem true bytes o h = ground arith
write_if_lem false bytes o h = refl

-- the state behind the next `n` bytes
abbrev pub advanced : Bool → ℕ → Copy → Copy
advanced w n c = record {
  input = drop n c.input;
  output = written w (take n c.input) c.output;
  tot_read = c.tot_read + length (take n c.input);
}

copy_chunk_lem :
    (w : Bool) (n : ℕ) (c : Copy)
    → Fits w (length (take n c.input)) c.output
    → copy_chunk w n c ≡ done (advanced w n c)
unfolding copy_chunk
copy_chunk_lem w n c h = rw (write_if_lem w (take n c.input) c.output h) refl

Fits-written :
    (w : Bool) (n : ℕ) (xs : List ℕ) (o : Output)
    → Fits w (n + length xs) o
    → Fits w n (written w xs o)
Fits-written true n xs o h = omega arith
Fits-written false n xs o h = tt

Fits-le : (w : Bool) (n m : ℕ) (o : Output) → n ≤ m → Fits w m o → Fits w n o
Fits-le true n m o l h = omega arith
Fits-le false n m o l h = tt

-- The loop and the last chunk, from any state of the loop on.
abbrev finish : (fuel : ℕ) → Bool → (size : ℕ) → Copy → Result Copy
finish fuel w size c = copy_loop fuel w size c >>= λ c'. copy_chunk w (size - c'.tot_read) c'

finish_step :
    (fuel : ℕ) (w : Bool) (size : ℕ) (c : Copy)
    → c.tot_read + 512 < size
    → Fits w (length (take 512 c.input)) c.output
    → copy_loop (suc fuel) w size c ≡ copy_loop fuel w size (advanced w 512 c)
unfolding copy_loop
finish_step fuel w size c l h =
    let e : ltb (c.tot_read + 512) size ≡ true = ground arith in
    rw (e, copy_chunk_lem w 512 c h) refl

copy_loop_stuck :
    (fuel : ℕ) (w : Bool) (size : ℕ) (c : Copy)
    → c.tot_read + length c.input + 512 < size
    → Fits w (length c.input) c.output
    → copy_loop fuel w size c ≡ stuck
unfolding copy_loop
copy_loop_stuck zero w size c l h = refl
copy_loop_stuck (suc fuel) w size c l h =
    let t = length-take 512 c.input in
    let d = length-drop 512 c.input in
    finish_step fuel w size c (omega arith)
      (Fits-le w _ (length c.input) c.output (omega (arith, t)) h)
    ∙ copy_loop_stuck fuel w size (advanced w 512 c) (omega (arith, t, d)) (
        Fits-written w _ (take 512 c.input) c.output
          (Fits-le w _ (length c.input) c.output (omega (arith, t, d)) h))

-- Where more than 512 bytes fewer are there than are asked for, as in an archive that has been cut off,
-- read512 never returns, however long it runs: `read` returns 0 again and again.
pub read512_stuck :
    (fuel : ℕ) (to_write : Bool) (tot_size : ℕ) (input : List ℕ) (output : Output)
    → length input + 512 < tot_size
    → Fits to_write (length input) output
    → read512 fuel to_write tot_size input output ≡ stuck
unfolding read512
read512_stuck fuel w size input output l h =
    rw
      (copy_loop_stuck fuel w size (record { input = input; output = output; tot_read = 0 })
        (omega arith) h)
      refl
