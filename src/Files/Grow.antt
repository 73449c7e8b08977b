-- ===== src/Files/Grow.antt =====
-- The counts of file objects under the calls that make objects, that move bytes, and under a fork.
use building_gem_os_cs.Base.{
  ℕ, ◌+◌, ◌^◌, ◌<◌, ◌≡◌, refl, subst, false, Option, none, some, List, ◌==◌, if◌then◌else◌, get_or,
  arith, Bool-cases, inl, inr, if_split, bit_and,
}
use building_gem_os_cs.Base.Partial.{>>=_some, some-injective, put}
use building_gem_os_cs.Kernel.{
  FileType, stdin, stdout, stderr, regular, pipe, ppipe, einval, enomem, eacces, Errno,
}
use building_gem_os_cs.Files.{
  o_creat, Object, Devices, System, Task, Call, max_open_files, file_at, find_fd, install, refuse,
  alloc_file,
}
use building_gem_os_cs.Files.Open.{
  create_standard_io, open_standard_io, std_fd, open_inode, access_flags, opened, regular_file,
  do_regular_file_open, same_name, name_of, do_file_open, open_found, open_standard,
}
use building_gem_os_cs.Files.Steps.{file_at-get_or, share-Held}
use building_gem_os_cs.Files.Held.{
  refs, Held, fd_from-is_closed, fd_from-le, alloc-Held, install-Held, count_of,
}

std_fd-lt : (y : FileType) → std_fd y < max_open_files
std_fd-lt stdin = omega arith
std_fd-lt stdout = omega arith
std_fd-lt stderr = omega arith
std_fd-lt regular = omega arith
std_fd-lt pipe = omega arith
std_fd-lt ppipe = omega arith

create_standard_io-ref_count : (y : FileType) → (create_standard_io y).file.ref_count ≡ 1
unfolding create_standard_io alloc_file
create_standard_io-ref_count stdin = refl
create_standard_io-ref_count stdout = refl
create_standard_io-ref_count stderr = refl
create_standard_io-ref_count regular = refl
create_standard_io-ref_count pipe = refl
create_standard_io-ref_count ppipe = refl

regular_file-ref_count : (i flags mode : ℕ) → (regular_file i flags mode).file.ref_count ≡ 1
unfolding regular_file
regular_file-ref_count i flags mode = refl

module _ {D : Type 0} where
  -- Only the objects count.
  pub same_files-Held :
      (others : ℕ → ℕ) (s s' : System D) (t : Task)
      → s.files ≡ s'.files
      → Held others s t
      → Held others s' t
  same_files-Held others s s' t e h = record {
    size = h.size;
    counted = λ x.
        subst (λ (m : ℕ → Option Object). count_of (m x) ≡ refs x t.files + others x) e
          (h.counted x);
  }

  -- A new object becomes the object of the first closed descriptor from `n` on.
  fresh-Held :
      (others : ℕ → ℕ) (s : System D) (t : Task) (page n : ℕ) (o : Object)
      → Held others s t
      → s.files page ≡ none
      → o.file.ref_count ≡ 1
      → (find_fd n t == max_open_files) ≡ false
      → Held others (record s { files = put s.files page (some o) }) (install t (find_fd n t) page)
  fresh-Held others s t page n o h e r y =
      let z = h.size in
      let l = fd_from-le n t.files in
      install-Held others (record s { files = put s.files page (some o) }) t (find_fd n t) page
        (ground arith) (fd_from-is_closed n t.files (ground arith))
        (alloc-Held others s t h page o e r)

  -- Held of the state that a call leaves
  abbrev pub HeldBy : (ℕ → ℕ) → Call D → Type 0
  HeldBy others c = Held others c.system c.task

  open_inode-Held :
      (others : ℕ → ℕ) (dev : Devices D) (t : Task) (i flags mode page : ℕ) (s : System D)
      → Held others s t
      → s.files page ≡ none
      → HeldBy others (open_inode dev t i flags mode page s)
  unfolding open_inode
  open_inode-Held others dev t i flags mode page s h e =
      let bits = access_flags flags in
      let done = opened dev t (find_fd 3 t) i bits mode page s in
      let full = find_fd 3 t == max_open_files in
      if_split (HeldBy others) (bit_and (dev.inode_mode i s.devices) bits == bits)
        (if full then refuse enomem t s else done) (refuse eacces t s)
        (λ y.
          if_split (HeldBy others) full (refuse enomem t s) done (λ z. h)
            (λ z.
              same_files-Held others (record s { files = done.system.files }) done.system done.task
                refl
                (fresh-Held others s t page 3 (regular_file i bits mode) h e
                  (regular_file-ref_count i bits mode) z)))
        (λ y. h)

  open_found-Held :
      (others : ℕ → ℕ) (dev : Devices D) (t : Task) (x : Option ℕ) (no_inode : Errno)
      (flags mode page : ℕ) (s : System D)
      → Held others s t
      → s.files page ≡ none
      → HeldBy others (open_found dev t x no_inode flags mode page s)
  open_found-Held others dev t none n flags mode page s h e = h
  open_found-Held others dev t (some i) n flags mode page s h e =
      open_inode-Held others dev t i flags mode page s h e

  pub do_regular_file_open-Held :
      (others : ℕ → ℕ) (dev : Devices D) (t : Task) (name : List ℕ) (flags mode page : ℕ)
      (s : System D)
      → Held others s t
      → s.files page ≡ none
      → HeldBy others (do_regular_file_open dev t name flags mode page s)
  unfolding do_regular_file_open
  do_regular_file_open-Held others dev t name flags mode page s h e =
      let s' : System D = record s { devices = dev.create_inode name mode s.devices } in
      let x = dev.lookup_inode name s'.devices in
      let y = dev.lookup_inode name s.devices in
      if_split (HeldBy others) (bit_and flags o_creat == o_creat)
        (open_found dev t x enomem flags mode page s') (open_found dev t y einval flags mode page s)
        (λ _.
          open_found-Held others dev t x enomem flags mode page s'
            (same_files-Held others s s' t refl h) e)
        (λ _. open_found-Held others dev t y einval flags mode page s h e)

  open_standard-Held :
      (others : ℕ → ℕ)
      → ((a : ℕ) → others a + max_open_files + 1 < 2 ^ 32)
      → (t : Task) (y : FileType) (page : ℕ) (x : Option ℕ) (s : System D) (c : Call D)
      → Held others s t
      → s.files page ≡ none
      → get_or t.files (std_fd y) none ≡ x
      → open_standard t y page x s ≡ some c
      → HeldBy others c
  unfolding open_standard
  open_standard-Held others few t y page none s c h e g r =
      subst (HeldBy others) (some-injective r) (
        install-Held others (record s { files = put s.files page (some (create_standard_io y)) }) t
          (std_fd y) page (std_fd-lt y) g
          (alloc-Held others s t h page (create_standard_io y) e (create_standard_io-ref_count y)))
  open_standard-Held others few t y page (some a) s c h e g r =
      elim (Bool-cases (find_fd 3 t == max_open_files)) [
        | inl z ↦ absurd (let r' = rw z at r in ground arith)
        | inr z ↦
            let q = h.size in
            let l = fd_from-le 3 t.files in
            share-Held others few s t (find_fd 3 t) a c h (ground arith)
              (fd_from-is_closed 3 t.files (ground arith)) (rw z at r)
      ]

  open_standard_io-Held :
      (others : ℕ → ℕ)
      → ((a : ℕ) → others a + max_open_files + 1 < 2 ^ 32)
      → (t : Task) (y : FileType) (page : ℕ) (s : System D) (c : Call D) → Held others s t
      → s.files page ≡ none
      → open_standard_io t y page s ≡ some c
      → HeldBy others c
  unfolding open_standard_io
  open_standard_io-Held others few t y page s c h e r =
      let (x, e1, e2) = >>=_some (file_at t (std_fd y)) _ r in
      open_standard-Held others few t y page x s c h e (file_at-get_or t (std_fd y) x e1).1 e2

  pub do_file_open-Held :
      (others : ℕ → ℕ)
      → ((a : ℕ) → others a + max_open_files + 1 < 2 ^ 32)
      → (dev : Devices D) (t : Task) (name : List ℕ) (flags mode page : ℕ) (s : System D)
        (c : Call D)
      → Held others s t
      → s.files page ≡ none
      → do_file_open dev t name flags mode page s ≡ some c
      → HeldBy others c
  unfolding do_file_open
  do_file_open-Held others few dev t name flags mode page s c h e r =
      let std = λ (y : FileType) (q : open_standard_io t y page s ≡ some c).
        open_standard_io-Held others few t y page s c h e q in
      elim (Bool-cases (same_name name (name_of stdin))) [
        | inl b0 ↦ std stdin (rw b0 at r)
        | inr b0 ↦ elim (Bool-cases (same_name name (name_of stdout))) [
          | inl b1 ↦ std stdout (rw (b0, b1) at r)
          | inr b1 ↦ elim (Bool-cases (same_name name (name_of stderr))) [
            | inl b2 ↦ std stderr (rw (b0, b1, b2) at r)
            | inr b2 ↦
                subst (HeldBy others) (some-injective (rw (b0, b1, b2) at r))
                  (do_regular_file_open-Held others dev t name flags mode page s h e)
          ]
        ]
      ]
