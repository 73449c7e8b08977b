-- ===== src/Files/Fork.antt =====
-- The counts of file objects under do_file_fork, for a child whose descriptors are its parent's.
use building_gem_os_cs.Base.{
  ℕ, ◌+◌, ◌*◌, ◌^◌, ◌<◌, ◌≡◌, sym, ap, ◌∙◌, Option, none, some, true, List, [], ◌∷◌, ◌==◌, length,
  arith, Bool-cases, inl, inr,
}
use building_gem_os_cs.Base.Partial.{>>=_some, some-injective}
use building_gem_os_cs.Kernel.{
  Reply, ok, Context, FileType, stdin, stdout, stderr, regular, pipe, ppipe,
}
use building_gem_os_cs.Files.{
  Object, System, Task, max_open_files, add_ref, fork_handler, fork_file, fork_files, do_file_fork,
}
use building_gem_os_cs.Files.Held.{names, names-le, refs, refs-le, Held, count_of}
use building_gem_os_cs.Files.Ready.{are_ready, fork_files-returns}

module _ {D : Type 0} where
  fork_handler-files :
      (y : FileType) (child : Context) (o : Object) (ret r : Reply) (s s' : System D)
      → fork_handler y child o ret s ≡ some (r, s')
      → s'.files ≡ s.files
  fork_handler-files stdin child o ret r s s' q =
      ap (λ (z : Reply × System D). z.1.files) (sym (some-injective q))
  fork_handler-files stdout child o ret r s s' q =
      ap (λ (z : Reply × System D). z.1.files) (sym (some-injective q))
  fork_handler-files stderr child o ret r s s' q =
      ap (λ (z : Reply × System D). z.1.files) (sym (some-injective q))
  fork_handler-files regular child o ret r s s' q =
      ap (λ (z : Reply × System D). z.1.files) (sym (some-injective q))
  fork_handler-files pipe child o ret r s s' q =
      let (b, e1, e2) = >>=_some o.pipe _ q in
      let (p, e3, e4) = >>=_some (s.pipes b) _ e2 in
      ap (λ (z : Reply × System D). z.1.files) (sym (some-injective e4))
  fork_handler-files ppipe child o ret r s s' q =
      let (b, e1, e2) = >>=_some o.ppipe _ q in
      let (p, e3, e4) = >>=_some (s.ppipes b) _ e2 in
      ap (λ (z : Reply × System D). z.1.files) (sym (some-injective e4))

  fork_file-count_of :
      (child : Context) (x : Option ℕ) (ret r : Reply) (s s' : System D)
      → ((b : ℕ) → count_of (s.files b) + 1 < 2 ^ 32)
      → fork_file child x ret s ≡ some (r, s')
      → (b : ℕ) → count_of (s'.files b) ≡ count_of (s.files b) + names b x
  unfolding fork_file
  fork_file-count_of child none ret r s s' k q b =
      let e = ap (λ (z : Reply × System D). z.1.files) (some-injective q) in ground (arith, e)
  fork_file-count_of child (some a) ret r s s' k q b =
      let (o, e1, e2) = >>=_some (s.files a) _ q in
      let f = fork_handler-files o.file.type child o ret r (add_ref a o s) s' e2 in
      let ka = k a in
      elim (Bool-cases (b == a)) [
        | inl y ↦ let y' : b ≡ a = ground arith in rw (f, y') (ground arith)
        | inr y ↦ rw f (ground arith)
      ]

  fork_files-count_of :
      (child : Context) (xs : List (Option ℕ)) (ret r : Reply) (s s' : System D)
      → ((b : ℕ) → count_of (s.files b) + length xs < 2 ^ 32)
      → fork_files child xs ret s ≡ some (r, s')
      → (b : ℕ) → count_of (s'.files b) ≡ count_of (s.files b) + refs b xs
  unfolding fork_files
  fork_files-count_of child [] ret r s s' k q b =
      let e = ap (λ (z : Reply × System D). z.1.files) (some-injective q) in ground (arith, e)
  fork_files-count_of child (x ∷ xs) ret r s s' k q b =
      let ((m, s1), e1, e2) = >>=_some (fork_file child x ret s) _ q in
      let one = fork_file-count_of child x ret m s s1 (λ c. let kc = k c in omega arith) e1 in
      let rest =
        fork_files-count_of child xs m r s1 s'
          (λ c. let kc = k c in let oc = one c in let nc = names-le c x in omega arith) e2 b in
      let ob = one b in omega arith

-- The call returns, and the counts are then those of the child and of `others`.
pub record Counted {D : Type 0} (others : ℕ → ℕ) (child : Task) (call : Option (Reply × System D))
    : Type 0 where
  pub reply : Reply
  pub system : System D
  pub returns : call ≡ some (reply, system)
  pub held : Held others system child

-- A process forks, the counts right for it, with fewer than 2^32 - 32 references of others to each
-- object, and the child starts with its descriptors, of which each open one names an object whose
-- pointer to a pipe, if it has that type, leads to one. Then do_file_fork returns, each open
-- descriptor of the child is counted once more, and the counts are those of both processes.
pub do_file_fork-Held :
    {D : Type 0} (others : ℕ → ℕ) (parent child : Task) (s : System D)
    → ((a : ℕ) → others a + 2 * max_open_files < 2 ^ 32)
    → Held others s parent
    → child.files ≡ parent.files
    → are_ready s child.files ≡ true
    → Counted (λ a. others a + refs a parent.files) child (do_file_fork child s)
unfolding do_file_fork
do_file_fork-Held others parent child s few h e ready =
    let (r, s', q) = fork_files-returns child.ctx child.files (ok 0) s ready in
    record {
      reply = r;
      system = s';
      returns = q;
      held = record {
        size = ap length e ∙ h.size;
        counted = λ a.
            let c =
              fork_files-count_of child.ctx child.files (ok 0) r s s'
                (λ b.
                  let cb = h.counted b in
                  let l = refs-le b parent.files in
                  let z = h.size in let w = few b in let y = ap length e in omega arith)
                q a in
            let ha = h.counted a in let c' = rw e at c in rw e (omega arith);
      };
    }
