-- ===== src/Ring/Window.antt =====
-- How the bytes of a ring from a position on are cut and joined.
use building_gem_os_cs.Base.{
  ℕ, zero, suc, ◌+◌, ◌-◌, ◌%◌, ◌≤◌, ◌<◌, ◌≡◌, refl, ap, ap₂, ◌∙◌, ◌∷◌, ◌++◌, arith, length, take,
  drop,
}
use building_gem_os_cs.Base.Memory.{Memory}
use building_gem_os_cs.Ring.{max_pipe_size, window}

pub length-window : (b : Memory) (h n : ℕ) → length (window b h n) ≡ n
length-window b h zero = refl
length-window b h (suc n) = ap suc (length-window b (h + 1) n)

-- Positions that are equal round the ring show the same bytes.
pub window_mod :
    (b : Memory) (h h' n : ℕ)
    → h % max_pipe_size ≡ h' % max_pipe_size
    → window b h n ≡ window b h' n
window_mod b h h' zero e = refl
window_mod b h h' (suc n) e = ap₂ ◌∷◌ (ap b e) (window_mod b (h + 1) (h' + 1) n (omega arith))

pub window-add : (b : Memory) (h m n : ℕ) → window b h (m + n) ≡ window b h m ++ window b (h + m) n
window-add b h zero n =
    let e : zero + n ≡ n = omega arith in rw e (window_mod b h (h + 0) n (omega arith))
window-add b h (suc m) n =
    let e : suc m + n ≡ suc (m + n) = omega arith in
    rw e (
      ap (◌∷◌ (b (h % max_pipe_size))) (
        window-add b (h + 1) m n
        ∙ ap (◌++◌ (window b (h + 1) m)) (window_mod b (h + 1 + m) (h + suc m) n (omega arith))))

pub take-window : (b : Memory) (h k n : ℕ) → k ≤ n → take k (window b h n) ≡ window b h k
take-window b h zero n l = refl
take-window b h (suc k) zero l = absurd (omega arith)
take-window b h (suc k) (suc n) l =
    ap (◌∷◌ (b (h % max_pipe_size))) (take-window b (h + 1) k n (omega arith))

pub drop-window :
    (b : Memory) (h k n : ℕ) → k ≤ n → drop k (window b h n) ≡ window b (h + k) (n - k)
drop-window b h zero n l =
    let e : n - 0 ≡ n = omega arith in rw e (window_mod b h (h + 0) n (omega arith))
drop-window b h (suc k) zero l = absurd (omega arith)
drop-window b h (suc k) (suc n) l =
    let e : suc n - suc k ≡ n - k = omega arith in
    rw e (
      drop-window b (h + 1) k n (omega arith)
      ∙ window_mod b (h + 1 + k) (h + suc k) (n - k) (omega arith))

-- Rings that agree on the positions of a window have the same bytes in it.
pub window_congr :
    (b b' : Memory) (h n : ℕ)
    → ((k : ℕ) → k < n → b ((h + k) % max_pipe_size) ≡ b' ((h + k) % max_pipe_size))
    → window b h n ≡ window b' h n
window_congr b b' h zero f = refl
window_congr b b' h (suc n) f =
    let e : h + 0 ≡ h = omega arith in
    ap₂ ◌∷◌ (rw e at (f 0 (omega arith))) (
      window_congr b b' (h + 1) n
        (λ k l. let s : h + suc k ≡ h + 1 + k = omega arith in rw s at (f (suc k) (omega arith))))
