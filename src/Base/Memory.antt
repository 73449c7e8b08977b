-- ===== src/Base/Memory.antt =====
-- Bytes at addresses: user memory, and the one-page buffers of the pipes.
use Prim.Native.Nat.{ℕ, zero, suc, ◌+◌, ◌<◌, ◌≤◌}
use mathlib.Core.Path.{◌≡◌, refl, ap, ap₂}
use mathlib.Core.List.{List, [], ◌∷◌}
use native.Mathlib.Omega.{arith}
use building_gem_os_cs.Base.Tests.{if◌then◌else◌, ◌==◌}
use building_gem_os_cs.Base.Lists.{length}

abbrev pub Memory : Type 0
Memory = ℕ → ℕ

-- `m[a] = v`
abbrev pub update : Memory → ℕ → ℕ → Memory
update m a v b = if b == a then v else m b

-- The `n` bytes from address `a` on.
abbrev pub slice : Memory → ℕ → ℕ → List ℕ
slice m a zero = []
slice m a (suc n) = m a ∷ slice m (a + 1) n

pub length-slice : (m : Memory) (a n : ℕ) → length (slice m a n) ≡ n
length-slice m a zero = refl
length-slice m a (suc n) = ap suc (length-slice m (a + 1) n)

-- Memories that agree on the range have the same bytes there.
pub slice_congr :
    (m m' : Memory) (a n : ℕ)
    → ((b : ℕ) → a ≤ b → b < a + n → m b ≡ m' b)
    → slice m a n ≡ slice m' a n
slice_congr m m' a zero h = refl
slice_congr m m' a (suc n) h =
    ap₂ ◌∷◌ (h a (omega arith) (omega arith))
      (slice_congr m m' (a + 1) n (λ b l u. h b (omega arith) (omega arith)))
