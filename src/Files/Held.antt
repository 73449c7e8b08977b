-- ===== src/Files/Held.antt =====
-- The reference counts of file.c: every file object counts the descriptors that name it.
use building_gem_os_cs.Base.{
  ℕ, zero, suc, ◌+◌, ◌^◌, ◌<◌, ◌≤◌, ◌≡◌, ◌∙◌, Option, none, some, List, [], ◌∷◌, ◌==◌,
  if◌then◌else◌, get_or, set, length, length-set, arith, Bool-cases, inl, inr, find_index-holds,
  find_index-le,
}
use building_gem_os_cs.Base.Partial.{>>=_some, put}
use building_gem_os_cs.Kernel.{ok, Context, File}
use building_gem_os_cs.Pipe.{PipeInfo, file_close, pipe_close}
use building_gem_os_cs.Ppipe.{PpipeInfo, ppipe_close}
use building_gem_os_cs.Files.{
  CloseOp, std_close, closes_pipe, closes_ppipe, run_close, Object, System, Task, max_open_files,
  with_file, is_closed, fd_from, add_ref, install,
}

-- whether a descriptor names the object at `a`, as a number
abbrev pub names : ℕ → Option ℕ → ℕ
names a none = 0
names a (some b) = if b == a then 1 else 0

-- the descriptors that name the object at `a`
abbrev pub refs : ℕ → List (Option ℕ) → ℕ
refs a [] = 0
refs a (x ∷ xs) = names a x + refs a xs

-- The count of an object; memory that is not an object has none.
abbrev pub count_of : Option Object → ℕ
count_of none = 0
count_of (some o) = o.file.ref_count

-- The process has MAX_OPEN_FILES descriptors, and each count is that of its descriptors and of the
-- references of other processes, `others`.
pub record Held {D : Type 0} (others : ℕ → ℕ) (s : System D) (t : Task) : Type 0 where
  pub size : length t.files ≡ max_open_files
  pub counted : (a : ℕ) → count_of (s.files a) ≡ refs a t.files + others a

pub refs-set :
    (a i : ℕ) (xs : List (Option ℕ)) (v : Option ℕ)
    → i < length xs
    → refs a (set xs i v) + names a (get_or xs i none) ≡ refs a xs + names a v
refs-set a i [] v h = absurd (omega arith)
refs-set a zero (x ∷ xs) v h = omega arith
refs-set a (suc i) (x ∷ xs) v h = omega (arith, refs-set a i xs v)

pub refs-get_or : (a i : ℕ) (xs : List (Option ℕ)) → names a (get_or xs i none) ≤ refs a xs
refs-get_or a i [] = omega arith
refs-get_or a zero (x ∷ xs) = omega arith
refs-get_or a (suc i) (x ∷ xs) = omega (arith, refs-get_or a i xs)

-- The descriptor that the loop finds is closed.
pub fd_from-is_closed :
    (n : ℕ) (xs : List (Option ℕ)) → fd_from n xs < length xs → get_or xs (fd_from n xs) none ≡ none
fd_from-is_closed zero xs k = let h = find_index-holds is_closed xs none k in ground arith
fd_from-is_closed (suc n) [] k = absurd (omega arith)
fd_from-is_closed (suc n) (x ∷ xs) k = fd_from-is_closed n xs (omega arith)

pub fd_from-le : (n : ℕ) (xs : List (Option ℕ)) → fd_from n xs ≤ length xs
fd_from-le zero xs = find_index-le is_closed xs
fd_from-le (suc n) [] = omega arith
fd_from-le (suc n) (x ∷ xs) = omega (arith, fd_from-le n xs)

-- The bytes of a file object that is left behind with one reference fewer.
file_close-count_of :
    (o : Object)
    → 0 < o.file.ref_count
    → o.file.ref_count < 2 ^ 32
    → suc (count_of (with_file o (file_close o.file))) ≡ o.file.ref_count
unfolding file_close
file_close-count_of o h k = ground arith

pipe_close-file :
    (ctx : Context) (f : File) (p : PipeInfo) (n : ℕ)
    → (pipe_close ctx f p).reply ≡ ok n
    → (pipe_close ctx f p).file ≡ file_close f
unfolding pipe_close
pipe_close-file ctx f p n h = ground arith

ppipe_close-file :
    (ctx : Context) (f : File) (p : PpipeInfo) (n : ℕ)
    → (ppipe_close ctx f p).reply ≡ ok n
    → (ppipe_close ctx f p).file ≡ file_close f
unfolding ppipe_close
ppipe_close-file ctx f p n h = ground arith

module _ {D : Type 0} where
  -- A close that succeeds takes one reference from the object and touches no other object.
  pub run_close-files :
      (op : CloseOp) (ctx : Context) (a : ℕ) (o : Object) (s : System D) (n : ℕ) (s' : System D)
      → run_close op ctx a o s ≡ some (ok n, s')
      → s'.files ≡ put s.files a (with_file o (file_close o.file))
  run_close-files std_close ctx a o s n s' h = ground arith
  run_close-files closes_pipe ctx a o s n s' h =
      let (b, e, h1) = >>=_some o.pipe _ h in
      let (p, e2, h2) = >>=_some (s.pipes b) _ h1 in
      let f = pipe_close-file ctx o.file p n (ground arith) in ground (arith, f)
  run_close-files closes_ppipe ctx a o s n s' h =
      let (b, e, h1) = >>=_some o.ppipe _ h in
      let (p, e2, h2) = >>=_some (s.ppipes b) _ h1 in
      let f = ppipe_close-file ctx o.file p n (ground arith) in ground (arith, f)

pub closed-count_of :
    (a b : ℕ) (o : Object) (files : ℕ → Option Object)
    → files a ≡ some o
    → 0 < o.file.ref_count
    → o.file.ref_count < 2 ^ 32
    → count_of (put files a (with_file o (file_close o.file)) b) + names b (some a)
      ≡ count_of (files b)
closed-count_of a b o files e h k = elim (Bool-cases (b == a)) [
  | inl t ↦
      let r : b ≡ a = ground arith in
      let c = file_close-count_of o h k in rw (r, e) (ground (arith, c))
  | inr t ↦ ground arith
]

pub refs-le : (a : ℕ) (xs : List (Option ℕ)) → refs a xs ≤ length xs
refs-le a [] = omega arith
refs-le a (none ∷ xs) = omega (arith, refs-le a xs)
refs-le a (some b ∷ xs) = let h = refs-le a xs in ground arith

pub names-le : (a : ℕ) (x : Option ℕ) → names a x ≤ 1
names-le a none = omega arith
names-le a (some b) = ground arith

-- The references of other processes, with one that is not yet a descriptor.
abbrev pub with_ref : ℕ → (ℕ → ℕ) → ℕ → ℕ
with_ref a others x = others x + names x (some a)

module _ {D : Type 0} (others : ℕ → ℕ) (s : System D) (t : Task) (h : Held others s t) where
  -- A new object, in memory that is none.
  pub alloc-Held :
      (page : ℕ) (o : Object)
      → s.files page ≡ none
      → o.file.ref_count ≡ 1
      → Held (with_ref page others) (record s { files = put s.files page (some o) }) t
  alloc-Held page o e r = record {
    size = h.size;
    counted = λ x.
        let c = h.counted x in
        elim (Bool-cases (x == page)) [
          | inl y ↦
              let y' : x ≡ page = ground arith in let c' = h.counted page in rw y' (ground arith)
          | inr y ↦ ground arith
        ];
  }

  pub add_ref-Held :
      (a : ℕ) (o : Object)
      → s.files a ≡ some o
      → others a + max_open_files + 1 < 2 ^ 32
      → Held (with_ref a others) (add_ref a o s) t
  add_ref-Held a o e k = record {
    size = h.size;
    counted = λ x.
        let c = h.counted x in
        let ca = h.counted a in
        let l = refs-le a t.files in
        let z = h.size in
        elim (Bool-cases (x == a)) [
          | inl y ↦ let y' : x ≡ a = ground arith in rw y' (ground arith)
          | inr y ↦ ground arith
        ];
  }

  -- A close that succeeds, of an open descriptor.
  pub close-Held :
      (fd a : ℕ) (o : Object) (op : CloseOp) (n : ℕ) (s' : System D)
      → fd < max_open_files
      → get_or t.files fd none ≡ some a
      → s.files a ≡ some o
      → others a + max_open_files < 2 ^ 32
      → run_close op t.ctx a o s ≡ some (ok n, s')
      → Held others s' (record t { files = set t.files fd none })
  close-Held fd a o op n s' l g e k r = record {
    size = length-set t.files fd none ∙ h.size;
    counted = λ x.
        let f = run_close-files op t.ctx a o s n s' r in
        let c = h.counted x in
        let ca = h.counted a in
        let z = h.size in
        let ra = refs-get_or a fd t.files in
        let la = refs-le a t.files in
        let q = refs-set x fd t.files none (omega arith) in
        let ra' = rw g at ra in
        let q' = rw g at q in
        let d = closed-count_of a x o s.files e (ground arith) (ground arith) in rw f (omega arith);
  }

-- The reference becomes a descriptor.
pub install-Held :
    {D : Type 0} (others : ℕ → ℕ) (s : System D) (t : Task) (fd a : ℕ)
    → fd < max_open_files
    → get_or t.files fd none ≡ none
    → Held (with_ref a others) s t
    → Held others s (install t fd a)
install-Held others s t fd a l g h = record {
  size = length-set t.files fd (some a) ∙ h.size;
  counted = λ x.
      let c = h.counted x in
      let z = h.size in
      let q = refs-set x fd t.files (some a) (omega arith) in let q' = rw g at q in omega arith;
}

-- The loop goes no further than a closed descriptor.
pub fd_from-first :
    (n i : ℕ) (xs : List (Option ℕ))
    → n ≤ i
    → i < length xs
    → get_or xs i none ≡ none
    → fd_from n xs ≤ i
fd_from-first n i [] l k g = absurd (omega arith)
fd_from-first zero zero (x ∷ xs) l k g = ground (arith, g)
fd_from-first zero (suc i) (x ∷ xs) l k g =
    let rest = fd_from-first zero i xs (omega arith) (omega arith) g in ground arith
fd_from-first (suc n) zero (x ∷ xs) l k g = absurd (omega arith)
fd_from-first (suc n) (suc i) (x ∷ xs) l k g =
    let rest = fd_from-first n i xs (omega arith) (omega arith) g in omega arith

pub fd_from-ge : (n : ℕ) (xs : List (Option ℕ)) → n ≤ length xs → n ≤ fd_from n xs
fd_from-ge zero xs l = omega arith
fd_from-ge (suc n) [] l = absurd (omega arith)
fd_from-ge (suc n) (x ∷ xs) l = omega (arith, fd_from-ge n xs (omega arith))
