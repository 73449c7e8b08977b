-- ===== src/Ring/Copy.antt =====
-- What the copy loops do: a write puts a slice of user memory behind a window, and a read puts a
-- window into user memory.
use building_gem_os_cs.Base.{
  ℕ, zero, suc, ◌+◌, ◌%◌, ◌≤◌, ◌<◌, ◌≡◌, ◌≢◌, refl, ap, ap₂, ◌∙◌, ◌∷◌, ◌++◌, ◌⊎◌, inl, inr, arith,
}
use building_gem_os_cs.Base.Memory.{Memory, update, slice}
use building_gem_os_cs.Ring.{max_pipe_size, copy_in, copy_out, window}
use building_gem_os_cs.Ring.Window.{window-add, window_congr, window_mod}

update_ne : (m : Memory) (a v b : ℕ) → b ≢ a → update m a v b ≡ m b
update_ne m a v b h = ground arith

-- The loop leaves every position alone that it does not reach.
pub copy_in_other :
    (n i : ℕ) (m : Memory) (buff w : ℕ) (ring : Memory) (j : ℕ)
    → ((k : ℕ) → i ≤ k → k < i + n → j ≢ (w + k) % max_pipe_size)
    → copy_in n i m buff w ring j ≡ ring j
unfolding copy_in
copy_in_other zero i m buff w ring j h = refl
copy_in_other (suc n) i m buff w ring j h =
    copy_in_other n (i + 1) m buff w _ j (λ k l u. h k (omega arith) (omega arith))
    ∙ update_ne ring ((w + i) % max_pipe_size) (m (buff + i)) j (h i (omega arith) (omega arith))

-- The position of round `k` holds byte `k` of the buffer, as the rounds do not lap the ring.
pub copy_in_self :
    (n i : ℕ) (m : Memory) (buff w : ℕ) (ring : Memory) (k : ℕ)
    → n ≤ max_pipe_size
    → i ≤ k
    → k < i + n
    → copy_in n i m buff w ring ((w + k) % max_pipe_size) ≡ m (buff + k)
unfolding copy_in
copy_in_self zero i m buff w ring k s l u = absurd (omega arith)
copy_in_self (suc n) i m buff w ring k s l u = elim (cases i k l) [
  | inl e ↦ rw e (copy_in_other n (i + 1) m buff w _ _ (λ k' l' u'. omega arith) ∙ ground arith)
  | inr lt ↦ copy_in_self n (i + 1) m buff w _ k (omega arith) (omega arith) (omega arith)
]
  where
    cases : (i k : ℕ) → i ≤ k → (k ≡ i) ⊎ (i < k)
    cases i k l = grind arith

window-copy_in_from :
    (m : Memory) (buff w : ℕ) (ring : Memory) (n i total : ℕ)
    → total ≤ max_pipe_size
    → i + n ≤ total
    → window (copy_in total 0 m buff w ring) (w + i) n ≡ slice m (buff + i) n
window-copy_in_from m buff w ring zero i total s l = refl
window-copy_in_from m buff w ring (suc n) i total s l =
    let e : w + i + 1 ≡ w + (i + 1) = omega arith in
    let f : buff + i + 1 ≡ buff + (i + 1) = omega arith in
    rw (e, f)
      (ap₂ ◌∷◌ (copy_in_self total 0 m buff w ring i s (omega arith) (omega arith))
        (window-copy_in_from m buff w ring n (i + 1) total s (omega arith)))

-- Written just behind a window of `len` bytes, `n` more bytes that fit extend it by a slice.
pub window-copy_in :
    (m : Memory) (buff h len w n : ℕ) (ring : Memory)
    → len + n ≤ max_pipe_size
    → w % max_pipe_size ≡ (h + len) % max_pipe_size
    → window (copy_in n 0 m buff w ring) h (len + n) ≡ window ring h len ++ slice m buff n
window-copy_in m buff h len w n ring fits at_end =
    window-add (copy_in n 0 m buff w ring) h len n
    ∙ ap₂ ◌++◌
        (window_congr (copy_in n 0 m buff w ring) ring h len
          (λ k l. copy_in_other n 0 m buff w ring _ (λ k' _ l'. omega arith)))
        (window_mod (copy_in n 0 m buff w ring) (h + len) (w + 0) n (omega arith)
          ∙ window-copy_in_from m buff w ring n 0 n (omega arith) (omega arith)
          ∙ ap (λ a. slice m a n) (omega arith))

pub copy_out_other :
    (n i : ℕ) (ring : Memory) (r buff : ℕ) (m : Memory) (a : ℕ)
    → (a < buff + i) ⊎ (buff + (i + n) ≤ a)
    → copy_out n i ring r buff m a ≡ m a
unfolding copy_out
copy_out_other zero i ring r buff m a h = refl
copy_out_other (suc n) i ring r buff m a h =
    copy_out_other n (i + 1) ring r buff _ a (omega arith)
    ∙ update_ne m (buff + i) (ring ((r + i) % max_pipe_size)) a (omega arith)

slice-copy_out_from :
    (n i : ℕ) (ring : Memory) (r buff : ℕ) (m : Memory)
    → slice (copy_out n i ring r buff m) (buff + i) n ≡ window ring (r + i) n
unfolding copy_out
slice-copy_out_from zero i ring r buff m = refl
slice-copy_out_from (suc n) i ring r buff m =
    let e : r + i + 1 ≡ r + (i + 1) = omega arith in
    let f : buff + i + 1 ≡ buff + (i + 1) = omega arith in
    rw (e, f)
      (ap₂ ◌∷◌
        (copy_out_other n (i + 1) ring r buff _ (buff + i) (inl (omega arith)) ∙ ground arith)
        (slice-copy_out_from n (i + 1) ring r buff _))

-- A read leaves the window in the buffer.
pub slice-copy_out :
    (n : ℕ) (ring : Memory) (r buff : ℕ) (m : Memory)
    → slice (copy_out n 0 ring r buff m) buff n ≡ window ring r n
slice-copy_out n ring r buff m =
    let e : buff + 0 ≡ buff = omega arith in
    let f : r + 0 ≡ r = omega arith in rw (e, f) at (slice-copy_out_from n 0 ring r buff m)
