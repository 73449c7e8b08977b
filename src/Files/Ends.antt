-- ===== src/Files/Ends.antt =====
-- The counts of file objects under create_pipe and create_persistent_pipe.
use building_gem_os_cs.Base.{
  ℕ, ◌≡◌, ◌≢◌, refl, sym, Option, none, some, ◌==◌, arith, Bool-cases, inl, inr,
}
use building_gem_os_cs.Base.Memory.{Memory}
use building_gem_os_cs.Base.Partial.{put}
use building_gem_os_cs.Kernel.{ok}
use building_gem_os_cs.Files.{Object, System, Task, max_open_files, find_fd, install}
use building_gem_os_cs.Files.Create.{
  create_pipe, create_persistent_pipe, install_ends, pipe_reader, pipe_writer, ppipe_reader,
  ppipe_writer,
}
use building_gem_os_cs.Files.Held.{
  Held, fd_from-is_closed, fd_from-le, with_ref, alloc-Held, install-Held,
}
use building_gem_os_cs.Files.Grow.{same_files-Held}

module _ {D : Type 0} where
  -- Only the number of the other references counts.
  others-Held :
      (f g : ℕ → ℕ) (s : System D) (t : Task) → ((x : ℕ) → f x ≡ g x) → Held f s t → Held g s t
  others-Held f g s t e h = record {
    size = h.size;
    counted = λ x. let c = h.counted x in let q = e x in omega arith;
  }

  -- The ends are installed, or too few descriptors are closed.
  install_ends-Held :
      (others : ℕ → ℕ) (t : Task) (fd : ℕ → ℕ) (a b : ℕ) (s : System D) (n : ℕ)
      → Held (with_ref b (with_ref a others)) s t
      → (install_ends t fd a b s).reply ≡ ok n
      → Held others (install_ends t fd a b s).system (install_ends t fd a b s).task
  unfolding install_ends
  install_ends-Held others t fd a b s n h r =
      let i = find_fd 0 t in
      let t' = install t i a in
      let j = find_fd i t' in
      elim (Bool-cases (i == max_open_files)) [
        | inl y ↦ absurd (ground (arith, y, r))
        | inr y ↦ elim (Bool-cases (j == max_open_files)) [
          | inl z ↦ absurd (ground (arith, y, z, r))
          | inr z ↦
              rw (y, z)
                (let q = h.size in
                  let l = fd_from-le 0 t.files in
                  let h1 =
                    install-Held (with_ref b others) s t i a (ground arith)
                      (fd_from-is_closed 0 t.files (ground arith))
                      (others-Held (with_ref b (with_ref a others)) (with_ref a (with_ref b others))
                        s t (λ x. omega arith) h) in
                  let q' = h1.size in
                  let l' = fd_from-le i t'.files in
                  install-Held others s t' j b (ground arith)
                    (fd_from-is_closed i t'.files (ground arith)) h1)
        ]
      ]

  -- Two new objects, in pages that are no objects, one page behind the other.
  ends-Held :
      (others : ℕ → ℕ) (t : Task) (a b : ℕ) (o q : Object) (s s' : System D)
      → Held others s t
      → s.files a ≡ none
      → s.files b ≡ none
      → a ≢ b
      → o.file.ref_count ≡ 1
      → q.file.ref_count ≡ 1
      → s'.files ≡ put (put s.files a (some o)) b (some q)
      → Held (with_ref b (with_ref a others)) s' t
  ends-Held others t a b o q s s' h ea eb n ro rq e =
      let s1 : System D = record s { files = put s.files a (some o) } in
      let h1 = alloc-Held others s t h a o ea ro in
      let eb' : s1.files b ≡ none = ground arith in
      let h2 = alloc-Held (with_ref a others) s1 t h1 b q eb' rq in
      same_files-Held (with_ref b (with_ref a others))
        (record s1 { files = put s1.files b (some q) }) s' t (sym e) h2

  pub create_pipe-Held :
      (others : ℕ → ℕ) (t : Task) (fd : ℕ → ℕ) (a b : ℕ) (pages : Option (ℕ × Memory))
      (s : System D) (n : ℕ)
      → Held others s t
      → s.files a ≡ none
      → s.files b ≡ none
      → a ≢ b
      → (create_pipe t fd a b pages s).reply ≡ ok n
      → Held others (create_pipe t fd a b pages s).system (create_pipe t fd a b pages s).task
  unfolding create_pipe pipe_reader pipe_writer
  create_pipe-Held others t fd a b none s n h ea eb d r = absurd (ground arith)
  create_pipe-Held others t fd a b (some (p, buffer)) s n h ea eb d r =
      install_ends-Held others t fd a b _ n
        (ends-Held others t a b (pipe_reader p) (pipe_writer p) s _ h ea eb d refl refl refl) r

  pub create_persistent_pipe-Held :
      (others : ℕ → ℕ) (t : Task) (fd : ℕ → ℕ) (a b : ℕ) (pages : Option (ℕ × Memory))
      (s : System D) (n : ℕ)
      → Held others s t
      → s.files a ≡ none
      → s.files b ≡ none
      → a ≢ b
      → (create_persistent_pipe t fd a b pages s).reply ≡ ok n
      → Held others
          (create_persistent_pipe t fd a b pages s).system
          (create_persistent_pipe t fd a b pages s).task
  unfolding create_persistent_pipe ppipe_reader ppipe_writer
  create_persistent_pipe-Held others t fd a b none s n h ea eb d r = absurd (ground arith)
  create_persistent_pipe-Held others t fd a b (some (p, buffer)) s n h ea eb d r =
      install_ends-Held others t fd a b _ n
        (ends-Held others t a b (ppipe_reader p) (ppipe_writer p) s _ h ea eb d refl refl refl) r
