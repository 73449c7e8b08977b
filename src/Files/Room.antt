-- ===== src/Files/Room.antt =====
-- The two descriptors of create_pipe: the first two that are closed.
use building_gem_os_cs.Base.{
  ℕ, ◌<◌, ◌≤◌, ◌≡◌, ◌≢◌, sym, subst, ◌∙◌, false, none, some, ◌==◌, get_or, set, get_or-set_self,
  get_or-set_ne, length, length-set, arith,
}
use building_gem_os_cs.Base.Memory.{update}
use building_gem_os_cs.Kernel.{ok}
use building_gem_os_cs.Files.{System, Task, max_open_files, file_at, find_fd, install}
use building_gem_os_cs.Files.Create.{install_ends}
use building_gem_os_cs.Files.Held.{fd_from-is_closed, fd_from-first, fd_from-ge}

-- A process with MAX_OPEN_FILES descriptors, two of them closed.
pub record HasRoom (t : Task) : Type 0 where
  pub size : length t.files ≡ max_open_files
  pub lower : ℕ
  pub upper : ℕ
  pub apart : lower < upper
  pub inside : upper < max_open_files
  pub lower_closed : get_or t.files lower none ≡ none
  pub upper_closed : get_or t.files upper none ≡ none

module _ (t : Task) (a : ℕ) (h : HasRoom t) where
  abbrev pub first_fd : ℕ
  first_fd = find_fd 0 t

  abbrev pub second_fd : ℕ
  second_fd = find_fd first_fd (install t first_fd a)

  first_fd-le : first_fd ≤ h.lower
  first_fd-le =
      let z = h.size in
      let x = h.apart in
      let y = h.inside in fd_from-first 0 h.lower t.files (omega arith) (omega arith) h.lower_closed

  pub second_fd_lem : (first_fd < second_fd) × (second_fd < max_open_files)
  second_fd_lem =
      let z = h.size in
      let x = h.apart in
      let y = h.inside in
      let l = first_fd-le in
      let t' = install t first_fd a in
      let z' = length-set t.files first_fd (some a) in
      let c =
        get_or-set_ne t.files first_fd h.upper (some a) none (ground arith) ∙ h.upper_closed in
      let u = fd_from-first first_fd h.upper t'.files (omega arith) (omega arith) c in
      let g = fd_from-ge first_fd t'.files (omega arith) in
      let k = fd_from-is_closed first_fd t'.files (omega arith) in
      let s = get_or-set_self t.files first_fd (some a) none (omega arith) in
      let n : first_fd ≢ second_fd = λ e.
        let k' : get_or t'.files first_fd none ≡ none =
          subst (λ (q : ℕ). get_or t'.files q none ≡ none) (sym e) k in
        ground (arith, s, k') in
      (ground (arith, n, g), omega arith)

-- Two descriptors at `i` and `j`.
abbrev pub both : Task → (i j a b : ℕ) → Task
both t i j a b = install (install t i a) j b

pub install_ends_lem :
    {D : Type 0} (t : Task) (fd : ℕ → ℕ) (a b : ℕ) (s : System D) (h : HasRoom t)
    → install_ends t fd a b s ≡ record {
      reply = ok 0;
      fd = update (update fd 0 (first_fd t a h)) 1 (second_fd t a h);
      system = s;
      task = both t (first_fd t a h) (second_fd t a h) a b;
    }
unfolding install_ends
install_ends_lem t fd a b s h =
    let l = second_fd_lem t a h in
    let e : (find_fd 0 t == max_open_files) ≡ false = ground arith in
    let e' : (find_fd (find_fd 0 t) (install t (find_fd 0 t) a) == max_open_files) ≡ false =
      ground arith in
    rw (e, e')

pub file_at-both :
    (t : Task) (i j a b : ℕ)
    → length t.files ≡ max_open_files
    → i < j
    → j < max_open_files
    → (file_at (both t i j a b) i ≡ some (some a)) × (file_at (both t i j a b) j ≡ some (some b))
file_at-both t i j a b z l k =
    let n = length-set t.files i (some a) in
    let x =
      get_or-set_ne (set t.files i (some a)) j i (some b) none (ground arith)
      ∙ get_or-set_self t.files i (some a) none (omega arith) in
    let y = get_or-set_self (set t.files i (some a)) j (some b) none (omega arith) in
    (ground (arith, x), ground (arith, y))
