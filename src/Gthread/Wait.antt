-- ===== src/Gthread/Wait.antt =====
-- The loop of gthread_join in gthread.c that waits for a thread.
use building_gem_os_cs.Base.{
  ℕ, zero, suc, ◌<◌, ◌≡◌, ◌≢◌, refl, Option, none, some, List, [], ◌∷◌, get_or, arith, length,
}
use building_gem_os_cs.Gthread.{wait_loop}

-- What the loop of gthread_join does: the last of the calls it makes is the first that returns a
-- number other than 0.
pub data Waits : List ℕ → Option ℕ → Type 0 where
  forever : {rets : List ℕ} → ((i : ℕ) → i < length rets → get_or rets i 0 ≡ 0) → Waits rets none
  ends :
      {rets : List ℕ} (m : ℕ)
      → m < length rets
      → ((i : ℕ) → i < m → get_or rets i 0 ≡ 0)
      → get_or rets m 0 ≢ 0
      → Waits rets (some (suc m))

zero_first :
    (rets : List ℕ) (m : ℕ)
    → ((i : ℕ) → i < m → get_or rets i 0 ≡ 0)
    → (i : ℕ) → i < suc m
    → get_or (0 ∷ rets) i 0 ≡ 0
zero_first rets m f zero l = refl
zero_first rets m f (suc i) l = f i (omega arith)

Waits-cons :
    (rets : List ℕ) (o : Option ℕ)
    → Waits rets o
    → Waits (0 ∷ rets) (elim o [ none ↦ none | some n ↦ some (suc n) ])
Waits-cons rets none (forever f) = forever (zero_first rets (length rets) f)
Waits-cons rets (some _) (ends m l f e) = ends (suc m) (omega arith) (zero_first rets m f) e

pub wait_loop-Waits : (rets : List ℕ) → Waits rets (wait_loop rets)
unfolding wait_loop
wait_loop-Waits [] = forever (λ i l. absurd (omega arith))
wait_loop-Waits (zero ∷ rets) = Waits-cons rets (wait_loop rets) (wait_loop-Waits rets)
wait_loop-Waits (suc r ∷ rets) =
    let e : wait_loop (suc r ∷ rets) ≡ some 1 = ground arith in
    rw e (ends zero (omega arith) (λ i l. absurd (omega arith)) (omega arith))
