-- ===== src/Trap/Calls.antt =====
-- What the debugger of debug.c sees of the process: its backtrace, and the stack of the functions with
-- a breakpoint.
use building_gem_os_cs.Base.{
  ℕ, zero, suc, ◌+◌, ◌-◌, ◌≤◌, ◌<◌, ◌≡◌, ◌≢◌, refl, ap, ◌∙◌, ◌⊎◌, inl, inr, false, some, List, [],
  ◌∷◌, ◌++◌, ◌==◌, arith, length, get_or, replicate,
}
use building_gem_os_cs.Base.Memory.{update}
use building_gem_os_cs.Debug.{StackElement, max_backtrace}
use building_gem_os_cs.Trap.{Session, filled, copy_backtrace, do_backtrace}

abbrev put_all : List ℕ → ℕ → (ℕ → ℕ) → ℕ → ℕ
put_all [] i bt = bt
put_all (a ∷ addrs) i bt = put_all addrs (i + 1) (update bt i a)

put_all_out :
    (addrs : List ℕ) (i b : ℕ) (bt : ℕ → ℕ)
    → (b < i) ⊎ (i + length addrs ≤ b)
    → put_all addrs i bt b ≡ bt b
put_all_out [] i b bt o = refl
put_all_out (a ∷ addrs) i b bt (inl o) =
    put_all_out addrs (i + 1) b (update bt i a) (inl (omega arith)) ∙ ground arith
put_all_out (a ∷ addrs) i b bt (inr o) =
    put_all_out addrs (i + 1) b (update bt i a) (inr (omega arith)) ∙ ground arith

put_all_at :
    (addrs : List ℕ) (i k b : ℕ) (bt : ℕ → ℕ)
    → k < length addrs
    → b ≡ i + k
    → put_all addrs i bt b ≡ get_or addrs k 0
put_all_at [] i k b bt l e = absurd (omega arith)
put_all_at (a ∷ addrs) i zero b bt l e =
    put_all_out addrs (i + 1) b (update bt i a) (inl (omega arith)) ∙ ground arith
put_all_at (a ∷ addrs) i (suc k) b bt l e =
    put_all_at addrs (i + 1) k b (update bt i a) (omega arith) (omega arith)

copy_backtrace_lem :
    (addrs : List ℕ) (n i : ℕ) (bt : ℕ → ℕ)
    → ((k : ℕ) → k < length addrs → get_or addrs k 0 ≢ 0)
    → copy_backtrace (addrs ++ replicate (suc n) 0) i bt
      ≡ some (i + length addrs, put_all addrs i bt)
unfolding copy_backtrace
copy_backtrace_lem [] n i bt f = ap (λ (j : ℕ). some (j, bt)) (omega arith)
copy_backtrace_lem (a ∷ addrs) n i bt f =
    let h = copy_backtrace_lem addrs n (i + 1) (update bt i a) (λ k l. f (suc k) (omega arith)) in
    let z : a ≢ 0 = f 0 (omega arith) in
    let t : (a == 0) ≡ false = ground arith in
    rw t (h ∙ ap (λ (j : ℕ). some (j, put_all addrs (i + 1) (update bt i a))) (omega arith))

-- With fewer than MAX_BACKTRACE addresses stored, none of them 0, do_backtrace returns their number,
-- puts them in order into the first elements of the buffer and changes no other element.
pub do_backtrace_lem :
    (s : Session) (addrs : List ℕ) (bt : ℕ → ℕ)
    → s.dbg.backtrace ≡ filled addrs
    → length addrs < max_backtrace
    → ((k : ℕ) → k < length addrs → get_or addrs k 0 ≢ 0)
    → (bt' : ℕ → ℕ) × (do_backtrace s bt ≡ some (length addrs, bt'))
      × ((k : ℕ) → k < length addrs → bt' k ≡ get_or addrs k 0)
      × ((k : ℕ) → length addrs ≤ k → bt' k ≡ bt k)
unfolding do_backtrace
do_backtrace_lem s addrs bt e l f =
    let n : max_backtrace - length addrs ≡ suc (max_backtrace - 1 - length addrs) = omega arith in
    (
      put_all addrs 0 bt,
      rw (e, n)
          (copy_backtrace_lem addrs (max_backtrace - 1 - length addrs) 0 bt f
            ∙ ap (λ (j : ℕ). some (j, put_all addrs 0 bt)) (omega arith)),
      (λ k m. put_all_at addrs 0 k k bt m (omega arith)),
      (λ k m. put_all_out addrs 0 k bt (inr (omega arith))),
    )

-- No element has the return address.
abbrev pub Without : ℕ → List StackElement → Type 0
Without ret [] = Unit
Without ret (x ∷ xs) = (x.return_addr ≢ ret) × Without ret xs
