-- ===== src/ProcTable/Laws.antt =====
-- What a search of the table finds after one slot is written.
use building_gem_os_cs.Base.{
  ℕ, suc, ◌<◌, ◌≡◌, ◌≢◌, refl, sym, ◌∙◌, none, some, List, [], ◌∷◌, All, arith, ◌==◌, if◌then◌else◌,
  length, get_or, set, Bool-cases, inl, inr, All-set, All-mono, zero, map,
}
use building_gem_os_cs.Kernel.{no_pid}
use building_gem_os_cs.ProcTable.{find_pid, slot_of, IsDistinct}

module _ {A : Type 0} (pid_of : A → ℕ) where
  -- The search succeeds at the slot that it stops at.
  pub slot_of-find_pid :
      (pid : ℕ) (qs : List A) (d : A)
      → find_pid pid_of pid qs < length qs
      → slot_of pid_of pid qs ≡ some (get_or qs (find_pid pid_of pid qs) d)
  slot_of-find_pid pid [] d h = elim h [ ]
  slot_of-find_pid pid (q ∷ qs) d h = ground (arith, slot_of-find_pid pid qs d)

  -- A process that has a slot is found, at that slot.
  pub find_pid-slot_of :
      (pid : ℕ) (qs : List A) (d : A) {q : A}
      → slot_of pid_of pid qs ≡ some q
      → (find_pid pid_of pid qs < length qs)
        × (get_or qs (find_pid pid_of pid qs) d ≡ q)
        × (pid_of q ≡ pid)
  find_pid-slot_of pid [] d e = absurd (cc)
  find_pid-slot_of pid (r ∷ qs) d {q} e = elim (Bool-cases (pid_of r == pid)) [
    | inl t ↦ ground arith
    | inr f ↦ ground (arith, find_pid-slot_of pid qs d {q = q})
  ]

  -- A process that has none is not found.
  pub find_pid-none :
      (pid : ℕ) (qs : List A) → slot_of pid_of pid qs ≡ none → find_pid pid_of pid qs ≡ length qs
  find_pid-none pid [] e = refl
  find_pid-none pid (r ∷ qs) e = ground (arith, find_pid-none pid qs)

  pub slot_of-eq-none :
      (pid : ℕ) (qs : List A) → find_pid pid_of pid qs ≡ length qs → slot_of pid_of pid qs ≡ none
  slot_of-eq-none pid [] h = refl
  slot_of-eq-none pid (q ∷ qs) h = ground (arith, slot_of-eq-none pid qs)

  -- Overwriting the owner's slot by one of the same owner.
  pub slot_of-set :
      (pid x : ℕ) (qs : List A) (v : A)
      → find_pid pid_of pid qs < length qs
      → pid_of v ≡ pid
      → slot_of pid_of x (set qs (find_pid pid_of pid qs) v)
        ≡ (if x == pid then some v else slot_of pid_of x qs)
  slot_of-set pid x [] v h e = elim h [ ]
  slot_of-set pid x (q ∷ qs) v h e = ground (arith, slot_of-set pid x qs v)

  -- Giving the first free slot to a process that has none.
  pub slot_of-set_free :
      (pid x : ℕ) (qs : List A) (v : A)
      → find_pid pid_of no_pid qs < length qs
      → find_pid pid_of pid qs ≡ length qs
      → pid_of v ≡ pid
      → x ≢ no_pid
      → slot_of pid_of x (set qs (find_pid pid_of no_pid qs) v)
        ≡ (if x == pid then some v else slot_of pid_of x qs)
  slot_of-set_free pid x [] v h n e ne = elim h [ ]
  slot_of-set_free pid x (q ∷ qs) v h n e ne =
      ground (arith, slot_of-set_free pid x qs v, slot_of-eq-none pid qs)

  absent :
      (pid : ℕ) (q : A) (qs : List A)
      → All (λ r. pid_of q ≡ pid_of r → pid_of q ≡ no_pid) qs
      → pid_of q ≡ pid
      → pid ≢ no_pid
      → slot_of pid_of pid qs ≡ none
  absent pid q [] a e ne = refl
  absent pid q (r ∷ qs) a e ne = ground (arith, absent pid q qs a.1 e ne, a.0)

  -- Freeing a slot takes its owner, and no other process, from the table.
  pub slot_of-set_freed :
      (pid x : ℕ) (qs : List A) (v : A)
      → find_pid pid_of pid qs < length qs
      → IsDistinct pid_of qs
      → pid_of v ≡ no_pid
      → x ≢ no_pid
      → slot_of pid_of x (set qs (find_pid pid_of pid qs) v)
        ≡ (if x == pid then none else slot_of pid_of x qs)
  slot_of-set_freed pid x [] v h d e ne = elim h [ ]
  slot_of-set_freed pid x (q ∷ qs) v h d e ne =
      ground (arith, slot_of-set_freed pid x qs v, absent x q qs d.0)

  All-set_freed :
      (q : A) (qs : List A) (i : ℕ) (v : A)
      → pid_of v ≡ no_pid
      → All (λ r. pid_of q ≡ pid_of r → pid_of q ≡ no_pid) qs
      → All (λ r. pid_of q ≡ pid_of r → pid_of q ≡ no_pid) (set qs i v)
  All-set_freed q qs i v e a =
      All-set (λ r. pid_of q ≡ pid_of r → pid_of q ≡ no_pid) qs i v a (λ f. f ∙ e)

  owned_by_none :
      (q : A) (qs : List A)
      → pid_of q ≡ no_pid
      → All (λ r. pid_of q ≡ pid_of r → pid_of q ≡ no_pid) qs
  owned_by_none q [] e = tt
  owned_by_none q (r ∷ qs) e = ((λ _. e), owned_by_none q qs e)

  -- Freeing a slot keeps the owners distinct.
  pub IsDistinct-set_freed :
      (qs : List A) (i : ℕ) (v : A)
      → pid_of v ≡ no_pid
      → IsDistinct pid_of qs
      → IsDistinct pid_of (set qs i v)
  IsDistinct-set_freed [] i v e d = tt
  IsDistinct-set_freed (q ∷ qs) zero v e d = (owned_by_none v qs e, d.1)
  IsDistinct-set_freed (q ∷ qs) (suc i) v e d =
      (All-set_freed q qs i v e d.0, IsDistinct-set_freed qs i v e d.1)

  All-set_pid :
      (q : A) (qs : List A) (i : ℕ) (v d : A)
      → i < length qs
      → pid_of v ≡ pid_of (get_or qs i d)
      → All (λ r. pid_of q ≡ pid_of r → pid_of q ≡ no_pid) qs
      → All (λ r. pid_of q ≡ pid_of r → pid_of q ≡ no_pid) (set qs i v)
  All-set_pid q [] i v d h e a = tt
  All-set_pid q (r ∷ qs) zero v d h e a = ((λ f. a.0 (f ∙ e)), a.1)
  All-set_pid q (r ∷ qs) (suc i) v d h e a = (a.0, All-set_pid q qs i v d (omega arith) e a.1)

  All-of_eq :
      (q v : A) (qs : List A)
      → pid_of v ≡ pid_of q
      → All (λ r. pid_of q ≡ pid_of r → pid_of q ≡ no_pid) qs
      → All (λ r. pid_of v ≡ pid_of r → pid_of v ≡ no_pid) qs
  All-of_eq q v qs e a = All-mono _ _ qs (λ r f g. e ∙ f (sym e ∙ g)) a

  -- Overwriting a slot for the same owner keeps the owners distinct.
  pub IsDistinct-set :
      (qs : List A) (i : ℕ) (v d : A)
      → i < length qs
      → pid_of v ≡ pid_of (get_or qs i d)
      → IsDistinct pid_of qs
      → IsDistinct pid_of (set qs i v)
  IsDistinct-set [] i v d h e c = tt
  IsDistinct-set (q ∷ qs) zero v d h e c = (All-of_eq q v qs e c.0, c.1)
  IsDistinct-set (q ∷ qs) (suc i) v d h e c =
      (All-set_pid q qs i v d (omega arith) e c.0, IsDistinct-set qs i v d (omega arith) e c.1)

  not_owned :
      (pid : ℕ) (v : A) (qs : List A)
      → find_pid pid_of pid qs ≡ length qs
      → pid_of v ≡ pid
      → All (λ r. pid_of v ≡ pid_of r → pid_of v ≡ no_pid) qs
  not_owned pid v [] h e = tt
  not_owned pid v (r ∷ qs) h e = elim (Bool-cases (pid_of r == pid)) [
    | inl t ↦ absurd (ground arith)
    | inr f ↦ ((λ g. absurd (ground arith)), not_owned pid v qs (ground arith) e)
  ]

  All-set_new :
      (pid : ℕ) (q v : A) (qs : List A) (i : ℕ)
      → pid_of q ≢ pid
      → pid_of v ≡ pid
      → All (λ r. pid_of q ≡ pid_of r → pid_of q ≡ no_pid) qs
      → All (λ r. pid_of q ≡ pid_of r → pid_of q ≡ no_pid) (set qs i v)
  All-set_new pid q v qs i ne e a =
      All-set (λ r. pid_of q ≡ pid_of r → pid_of q ≡ no_pid) qs i v a (λ f. absurd (ne (f ∙ e)))

  -- Giving a slot to a process that has none keeps the owners distinct.
  pub IsDistinct-set_new :
      (pid : ℕ) (qs : List A) (i : ℕ) (v : A)
      → find_pid pid_of pid qs ≡ length qs
      → pid_of v ≡ pid
      → IsDistinct pid_of qs
      → IsDistinct pid_of (set qs i v)
  IsDistinct-set_new pid [] i v h e c = tt
  IsDistinct-set_new pid (q ∷ qs) i v h e c = elim (Bool-cases (pid_of q == pid)) [
    | inl t ↦ absurd (ground arith)
    | inr f ↦ step i (ground arith) (ground arith) (λ j g. IsDistinct-set_new pid qs j v g e c.1)
  ]
    where
      step :
          (i : ℕ)
          → pid_of q ≢ pid
          → find_pid pid_of pid qs ≡ length qs
          → ((j : ℕ) → find_pid pid_of pid qs ≡ length qs → IsDistinct pid_of (set qs j v))
          → IsDistinct pid_of (set (q ∷ qs) i v)
      step zero ne g rec = (not_owned pid v qs g e, c.1)
      step (suc j) ne g rec = (All-set_new pid q v qs j ne e c.0, rec j g)

  All-map_pid :
      (f : A → A) (q : A) (qs : List A)
      → ((r : A) → pid_of (f r) ≡ pid_of r)
      → All (λ r. pid_of q ≡ pid_of r → pid_of q ≡ no_pid) qs
      → All (λ r. pid_of (f q) ≡ pid_of r → pid_of (f q) ≡ no_pid) (map f qs)
  All-map_pid f q [] e a = tt
  All-map_pid f q (r ∷ qs) e a = ((λ g. e q ∙ a.0 (sym (e q) ∙ g ∙ e r)), All-map_pid f q qs e a.1)

  -- Updating every slot, but not its owner.
  pub IsDistinct-map :
      (f : A → A) (qs : List A)
      → ((r : A) → pid_of (f r) ≡ pid_of r)
      → IsDistinct pid_of qs
      → IsDistinct pid_of (map f qs)
  IsDistinct-map f [] e d = tt
  IsDistinct-map f (q ∷ qs) e d = (All-map_pid f q qs e d.0, IsDistinct-map f qs e d.1)
