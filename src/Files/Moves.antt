-- ===== src/Files/Moves.antt =====
-- Reads, writes and seeks keep the counts of file objects.
use building_gem_os_cs.Base.{
  ℕ, ◌%◌, ◌^◌, ◌≡◌, refl, sym, ap, subst, Option, none, some, ◌==◌, arith, Bool-cases, inl, inr,
  bit_and,
}
use building_gem_os_cs.Base.Partial.{>>=_some, some-injective, put}
use building_gem_os_cs.Kernel.{Reply, ok, err, Context, o_read, o_write, einval, eacces}
use building_gem_os_cs.Files.{Object, Devices, System, Task, file_at}
use building_gem_os_cs.Files.Held.{Held}
use building_gem_os_cs.Files.{
  ReadOp, do_read_kbd, do_read_regular, reads_pipe, reads_ppipe, WriteOp, do_write_console,
  do_write_regular, writes_pipe, writes_ppipe, LseekOp, seeks_regular,
}
use building_gem_os_cs.Files.Io.{
  run_read, run_write, do_file_read, do_file_write, do_lseek, do_lseek_regular, try_read, try_write,
  try_lseek, seek_inode, read_file, write_file, seek_file, advance, advance_written, word,
}
use building_gem_os_cs.Files.Grow.{same_files-Held}

advance_written-ref_count :
    (r : Reply) (o : Object) → (advance_written r o).file.ref_count ≡ o.file.ref_count
advance_written-ref_count (ok n) o = refl
advance_written-ref_count (err e) o = refl

module _ {D : Type 0} (dev : Devices D) (others : ℕ → ℕ) (t : Task) where
  -- An object whose count stays.
  kept-Held :
      (s s' : System D) (a : ℕ) (o q : Object)
      → Held others s t
      → s.files a ≡ some o
      → q.file.ref_count ≡ o.file.ref_count
      → s'.files ≡ put s.files a (some q)
      → Held others s' t
  kept-Held s s' a o q h e r f = record {
    size = h.size;
    counted = λ x.
        let c = h.counted x in
        elim (Bool-cases (x == a)) [
          | inl y ↦
              let y' : x ≡ a = ground arith in
              let c' = h.counted a in rw (f, y') (ground (arith, c', e, r))
          | inr y ↦ rw f (ground arith)
        ];
  }

  run_read-Held :
      (op : ReadOp) (ctx : Context) (a : ℕ) (o : Object) (buff count : ℕ) (s : System D) (r : Reply)
      (s' : System D)
      → Held others s t
      → s.files a ≡ some o
      → run_read dev op ctx a o buff count s ≡ some (r, s')
      → Held others s' t
  run_read-Held do_read_kbd ctx a o buff count s r s' h e q =
      same_files-Held others s s' t (ground arith) h
  run_read-Held do_read_regular ctx a o buff count s r s' h e q =
      let (i, e1, e2) = >>=_some o.inode _ q in
      let (y, m) = dev.inode_read i buff count o.file.offp (s.devices, s.memory) in
      kept-Held s s' a o (advance (word y) o) h e refl
        (sym (ap (λ (z : Reply × System D). z.1.files) (some-injective e2)))
  run_read-Held reads_pipe ctx a o buff count s r s' h e q =
      let (b, e1, e2) = >>=_some o.pipe _ q in
      let (p, e3, e4) = >>=_some (s.pipes b) _ e2 in
      same_files-Held others s s' t (ap (λ (z : Reply × System D). z.1.files) (some-injective e4)) h
  run_read-Held reads_ppipe ctx a o buff count s r s' h e q =
      let (b, e1, e2) = >>=_some o.ppipe _ q in
      let (p, e3, e4) = >>=_some (s.ppipes b) _ e2 in
      same_files-Held others s s' t (ap (λ (z : Reply × System D). z.1.files) (some-injective e4)) h

  run_write-Held :
      (op : WriteOp) (ctx : Context) (a : ℕ) (o : Object) (buff count : ℕ) (s : System D)
      (r : Reply) (s' : System D)
      → Held others s t
      → s.files a ≡ some o
      → run_write dev op ctx a o buff count s ≡ some (r, s')
      → Held others s' t
  run_write-Held do_write_console ctx a o buff count s r s' h e q =
      same_files-Held others s s' t (ground arith) h
  run_write-Held do_write_regular ctx a o buff count s r s' h e q =
      let (i, e1, e2) = >>=_some o.inode _ q in
      let (y, m) = dev.inode_write i buff count o.file.offp (s.devices, s.memory) in
      kept-Held s s' a o (advance_written y o) h e (advance_written-ref_count y o)
        (sym (ap (λ (z : Reply × System D). z.1.files) (some-injective e2)))
  run_write-Held writes_pipe ctx a o buff count s r s' h e q =
      let (b, e1, e2) = >>=_some o.pipe _ q in
      let (p, e3, e4) = >>=_some (s.pipes b) _ e2 in
      same_files-Held others s s' t (ap (λ (z : Reply × System D). z.1.files) (some-injective e4)) h
  run_write-Held writes_ppipe ctx a o buff count s r s' h e q =
      let (b, e1, e2) = >>=_some o.ppipe _ q in
      let (p, e3, e4) = >>=_some (s.ppipes b) _ e2 in
      same_files-Held others s s' t (ap (λ (z : Reply × System D). z.1.files) (some-injective e4)) h

  same :
      (s : System D) (r x : Reply) (s' : System D)
      → Held others s t
      → ◌≡◌ {A = Option (Reply × System D)} (some (x, s)) (some (r, s'))
      → Held others s' t
  same s r x s' h q = subst (λ (z : Reply × System D). Held others z.1 t) (some-injective q) h

  try_read-Held :
      (x : Option ReadOp) (ctx : Context) (a : ℕ) (o : Object) (buff count : ℕ) (s : System D)
      (r : Reply) (s' : System D)
      → Held others s t
      → s.files a ≡ some o
      → try_read dev x ctx a o buff count s ≡ some (r, s')
      → Held others s' t
  try_read-Held none ctx a o buff count s r s' h e q = same s r (err einval) s' h q
  try_read-Held (some op) ctx a o buff count s r s' h e q =
      run_read-Held op ctx a o buff count s r s' h e q

  try_write-Held :
      (x : Option WriteOp) (ctx : Context) (a : ℕ) (o : Object) (buff count : ℕ) (s : System D)
      (r : Reply) (s' : System D)
      → Held others s t
      → s.files a ≡ some o
      → try_write dev x ctx a o buff count s ≡ some (r, s')
      → Held others s' t
  try_write-Held none ctx a o buff count s r s' h e q = same s r (err einval) s' h q
  try_write-Held (some op) ctx a o buff count s r s' h e q =
      run_write-Held op ctx a o buff count s r s' h e q

  read_file-Held :
      (ctx : Context) (x : Option ℕ) (buff count : ℕ) (s : System D) (r : Reply) (s' : System D)
      → Held others s t
      → read_file dev ctx x buff count s ≡ some (r, s')
      → Held others s' t
  unfolding read_file
  read_file-Held ctx none buff count s r s' h q = same s r (err einval) s' h q
  read_file-Held ctx (some a) buff count s r s' h q =
      let (o, e1, e2) = >>=_some (s.files a) _ q in
      elim (Bool-cases (bit_and o.file.mode o_read == o_read)) [
        | inl y ↦ try_read-Held o.fops.read ctx a o buff (count % 2 ^ 32) s r s' h e1 (rw y at e2)
        | inr y ↦ same s r (err eacces) s' h (rw y at e2)
      ]

  write_file-Held :
      (ctx : Context) (x : Option ℕ) (buff count : ℕ) (s : System D) (r : Reply) (s' : System D)
      → Held others s t
      → write_file dev ctx x buff count s ≡ some (r, s')
      → Held others s' t
  unfolding write_file
  write_file-Held ctx none buff count s r s' h q = same s r (err einval) s' h q
  write_file-Held ctx (some a) buff count s r s' h q =
      let (o, e1, e2) = >>=_some (s.files a) _ q in
      elim (Bool-cases (bit_and o.file.mode o_write == 0)) [
        | inl y ↦ same s r (err eacces) s' h (rw y at e2)
        | inr y ↦ try_write-Held o.fops.write ctx a o buff (count % 2 ^ 32) s r s' h e1 (rw y at e2)
      ]

  pub do_file_read-Held :
      (fd buff count : ℕ) (s : System D) (r : Reply) (s' : System D)
      → Held others s t
      → do_file_read dev t fd buff count s ≡ some (r, s')
      → Held others s' t
  unfolding do_file_read
  do_file_read-Held fd buff count s r s' h q =
      let (x, e1, e2) = >>=_some (file_at t fd) _ q in read_file-Held t.ctx x buff count s r s' h e2

  pub do_file_write-Held :
      (fd buff count : ℕ) (s : System D) (r : Reply) (s' : System D)
      → Held others s t
      → do_file_write dev t fd buff count s ≡ some (r, s')
      → Held others s' t
  unfolding do_file_write
  do_file_write-Held fd buff count s r s' h q =
      let (x, e1, e2) = >>=_some (file_at t fd) _ q in
      write_file-Held t.ctx x buff count s r s' h e2

  seek_inode-Held :
      (x : Option ℕ) (a : ℕ) (o : Object) (offset whence : ℕ) (s : System D)
      → Held others s t
      → s.files a ≡ some o
      → Held others (seek_inode dev x a o offset whence s).1 t
  seek_inode-Held none a o offset whence s h e = h
  seek_inode-Held (some i) a o offset whence s h e =
      let (r, offp) = do_lseek_regular (dev.file_size i s.devices) o.file.offp offset whence in
      kept-Held s (seek_inode dev (some i) a o offset whence s).1 a o
        (record o { file = record (o.file) { offp = offp } }) h e refl refl

  try_lseek-Held :
      (x : Option LseekOp) (a : ℕ) (o : Object) (offset whence : ℕ) (s : System D)
      → Held others s t
      → s.files a ≡ some o
      → Held others (try_lseek dev x a o offset whence s).1 t
  try_lseek-Held none a o offset whence s h e = h
  try_lseek-Held (some seeks_regular) a o offset whence s h e =
      seek_inode-Held o.inode a o offset whence s h e

  seek_file-Held :
      (x : Option ℕ) (offset whence : ℕ) (s : System D) (r : Reply) (s' : System D)
      → Held others s t
      → seek_file dev x offset whence s ≡ some (r, s')
      → Held others s' t
  unfolding seek_file
  seek_file-Held none offset whence s r s' h q = same s r (err einval) s' h q
  seek_file-Held (some a) offset whence s r s' h q =
      let (o, e1, e2) = >>=_some (s.files a) _ q in
      subst (λ (z : Reply × System D). Held others z.1 t) (some-injective e2)
        (try_lseek-Held o.fops.lseek a o offset whence s h e1)

  pub do_lseek-Held :
      (fd offset whence : ℕ) (s : System D) (r : Reply) (s' : System D)
      → Held others s t
      → do_lseek dev t fd offset whence s ≡ some (r, s')
      → Held others s' t
  unfolding do_lseek
  do_lseek-Held fd offset whence s r s' h q =
      let (x, e1, e2) = >>=_some (file_at t fd) _ q in seek_file-Held x offset whence s r s' h e2
