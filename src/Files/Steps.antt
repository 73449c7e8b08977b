-- ===== src/Files/Steps.antt =====
-- The calls on descriptors as steps of a process, and the counts that they keep.
use building_gem_os_cs.Base.{
  ℕ, ◌+◌, ◌^◌, ◌<◌, ◌≡◌, ap, subst, ◌∙◌, Option, none, some, List, ◌==◌, ltb, get_or, set,
  set-set_self, get_or-set_self, length-set, arith, Bool-cases, inl, inr,
}
use building_gem_os_cs.Base.Partial.{>>=_some, some-injective}
use building_gem_os_cs.Kernel.{Reply, ok}
use building_gem_os_cs.Files.{
  CloseOp, Object, System, Task, Call, max_open_files, file_at, find_fd, add_ref, run_close,
  close_file, close_old, share, dup_file, fd_dup, dup2_file, fd_dup2, close_open, close_fd,
  do_close,
}
use building_gem_os_cs.Files.Held.{
  refs-set, Held, fd_from-is_closed, fd_from-le, add_ref-Held, close-Held, install-Held,
}

pub file_at-get_or :
    (t : Task) (fd : ℕ) (x : Option ℕ)
    → file_at t fd ≡ some x
    → (fd < max_open_files) × (get_or t.files fd none ≡ x)
file_at-get_or t fd x h = elim (Bool-cases (ltb fd max_open_files)) [
  | inl e ↦ (ground arith, some-injective (ground arith))
  | inr e ↦ absurd (ground arith)
]

module _ {D : Type 0} (others : ℕ → ℕ)
    (few : (a : ℕ) → others a + max_open_files + 1 < 2 ^ 32) where
  pub share-Held :
      (s : System D) (t : Task) (fd a : ℕ) (c : Call D)
      → Held others s t
      → fd < max_open_files
      → get_or t.files fd none ≡ none
      → share t fd a s ≡ some c
      → Held others c.system c.task
  share-Held s t fd a c h l g e =
      let (o, e1, e2) = >>=_some (s.files a) _ e in
      let k = add_ref-Held others s t h a o e1 (few a) in
      let r = install-Held others (add_ref a o s) t fd a l g k in
      let q = some-injective e2 in subst (λ (d : Call D). Held others d.system d.task) q r

  dup_file-Held :
      (s : System D) (t : Task) (x : Option ℕ) (c : Call D)
      → Held others s t
      → dup_file t x s ≡ some c
      → Held others c.system c.task
  unfolding dup_file
  dup_file-Held s t none c h e =
      subst (λ (d : Call D). Held others d.system d.task) (some-injective e) h
  dup_file-Held s t (some a) c h e = elim (Bool-cases (find_fd 3 t == max_open_files)) [
    | inl y ↦ subst (λ (d : Call D). Held others d.system d.task) (some-injective (rw y at e)) h
    | inr y ↦
        let z = h.size in
        let l = fd_from-le 3 t.files in
        share-Held s t (find_fd 3 t) a c h (ground arith)
          (fd_from-is_closed 3 t.files (ground arith)) (rw y at e)
  ]

  pub fd_dup-Held :
      (s : System D) (t : Task) (oldfd : ℕ) (c : Call D)
      → Held others s t
      → fd_dup t oldfd s ≡ some c
      → Held others c.system c.task
  unfolding fd_dup
  fd_dup-Held s t oldfd c h e =
      let (x, e1, e2) = >>=_some (file_at t oldfd) _ e in dup_file-Held s t x c h e2

  close_open-Held :
      (s : System D) (t : Task) (fd a : ℕ) (op : Option CloseOp) (o : Object) (c : Call D) (n : ℕ)
      → Held others s t
      → fd < max_open_files
      → get_or t.files fd none ≡ some a
      → s.files a ≡ some o
      → close_open t fd a op o s ≡ some c
      → c.reply ≡ ok n
      → Held others c.system c.task
  unfolding close_open
  close_open-Held s t fd a none o c n h l g e r k = absurd (ground arith)
  close_open-Held s t fd a (some op) o c n h l g e r k =
      let ((m, s'), e1, e2) = >>=_some (run_close op t.ctx a o s) _ r in
      let q = some-injective e2 in
      let m' : m ≡ ok n = ap (λ (d : Call D). d.reply) q ∙ k in
      let w = others a in
      let f = few a in
      subst (λ (d : Call D). Held others d.system d.task) q
        (close-Held others s t h fd a o op n s' l g e (omega arith)
          (subst (λ (x : Reply). run_close op t.ctx a o s ≡ some (x, s')) m' e1))

  -- a close of the object behind a descriptor, wherever it is written
  close_file-Held :
      (s : System D) (t : Task) (fd a n : ℕ) (s' : System D)
      → Held others s t
      → fd < max_open_files
      → get_or t.files fd none ≡ some a
      → close_file t.ctx a s ≡ some (ok n, s')
      → Held others s' (record t { files = set t.files fd none })
  unfolding close_file
  close_file-Held s t fd a n s' h l g e =
      let (o, e1, e2) = >>=_some (s.files a) _ e in
      let (op, e3, e4) = >>=_some o.fops.close _ e2 in
      let f = few a in close-Held others s t h fd a o op n s' l g e1 (omega arith) e4

  close_fd-Held :
      (s : System D) (t : Task) (fd : ℕ) (x : Option ℕ) (c : Call D) (n : ℕ)
      → Held others s t
      → fd < max_open_files
      → get_or t.files fd none ≡ x
      → close_fd t fd x s ≡ some c
      → c.reply ≡ ok n
      → Held others c.system c.task
  unfolding close_fd
  close_fd-Held s t fd none c n h l g e k = absurd (ground arith)
  close_fd-Held s t fd (some a) c n h l g e k =
      let (o, e1, e2) = >>=_some (s.files a) _ e in
      close_open-Held s t fd a o.fops.close o c n h l g e1 e2 k

  pub do_close-Held :
      (s : System D) (t : Task) (fd : ℕ) (c : Call D) (n : ℕ)
      → Held others s t
      → do_close t fd s ≡ some c
      → c.reply ≡ ok n
      → Held others c.system c.task
  unfolding do_close
  do_close-Held s t fd c n h e k =
      let (x, e1, e2) = >>=_some (file_at t fd) _ e in
      let (l, g) = file_at-get_or t fd x e1 in close_fd-Held s t fd x c n h l g e2 k

  -- `close_old` leaves the counts as if the descriptor were cleared.
  close_old-Held :
      (s : System D) (t : Task) (fd : ℕ) (x : Option ℕ) (n : ℕ) (s' : System D)
      → Held others s t
      → fd < max_open_files
      → get_or t.files fd none ≡ x
      → close_old t.ctx x s ≡ some (ok n, s')
      → Held others s' (record t { files = set t.files fd none })
  unfolding close_old
  close_old-Held s t fd none n s' h l g e =
      let s'' : s ≡ s' = ap (λ (r : Reply × System D). r.1) (some-injective e) in
      subst (λ (d : System D). Held others d (record t { files = set t.files fd none })) s''
        (record {
          size = length-set t.files fd none ∙ h.size;
          counted = λ x.
              let z = h.size in
              let q = rw g at (refs-set x fd t.files none (omega arith)) in
              let c = h.counted x in omega arith;
        })
  close_old-Held s t fd (some a) n s' h l g e = close_file-Held s t fd a n s' h l g e

  dup2_file-Held :
      (s : System D) (t : Task) (oldfd newfd : ℕ) (old filep : Option ℕ) (c : Call D)
      → Held others s t
      → newfd < max_open_files
      → get_or t.files newfd none ≡ filep
      → ((r : Reply) (s' : System D) → close_old t.ctx filep s ≡ some (r, s') → r ≡ ok 0)
      → dup2_file t oldfd newfd old filep s ≡ some c
      → Held others c.system c.task
  unfolding dup2_file
  dup2_file-Held s t oldfd newfd none filep c h l g k e =
      subst (λ (d : Call D). Held others d.system d.task) (some-injective e) h
  dup2_file-Held s t oldfd newfd (some a) filep c h l g k e = elim (Bool-cases (oldfd == newfd)) [
    | inl y ↦ subst (λ (d : Call D). Held others d.system d.task) (some-injective (rw y at e)) h
    | inr y ↦
        let ((r, s'), e1, e2) = >>=_some (close_old t.ctx filep s) _ (rw y at e) in
        let e1' = subst (λ (x : Reply). close_old t.ctx filep s ≡ some (x, s')) (k r s' e1) e1 in
        let h' = close_old-Held s t newfd filep 0 s' h l g e1' in
        let t' : Task = record t { files = set t.files newfd none } in
        let (o, e3, e4) = >>=_some (s'.files a) _ e2 in
        let m = add_ref-Held others s' t' h' a o e3 (few a) in
        let z = h.size in
        let w =
          install-Held others (add_ref a o s') t' newfd a l
            (get_or-set_self t.files newfd none none (omega arith)) m in
        let w' =
          subst (λ (xs : List (Option ℕ)). Held others (add_ref a o s') (record t { files = xs }))
            (set-set_self t.files newfd none (some a)) w in
        subst (λ (d : Call D). Held others d.system d.task) (some-injective e4) w'
  ]

  pub fd_dup2-Held :
      (s : System D) (t : Task) (oldfd newfd : ℕ) (c : Call D)
      → Held others s t
      → ((r : Reply) (s' : System D)
          → close_old t.ctx (get_or t.files newfd none) s ≡ some (r, s')
          → r ≡ ok 0)
      → fd_dup2 t oldfd newfd s ≡ some c
      → Held others c.system c.task
  unfolding fd_dup2
  fd_dup2-Held s t oldfd newfd c h k e =
      let (x, e1, e2) = >>=_some (file_at t newfd) _ e in
      let (y, e3, e4) = >>=_some (file_at t oldfd) _ e2 in
      let (l, g) = file_at-get_or t newfd x e1 in
      dup2_file-Held s t oldfd newfd y x c h l g (rw g at k) e4
