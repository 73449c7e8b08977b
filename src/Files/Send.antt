-- ===== src/Files/Send.antt =====
-- do_sendfile of file.c (Assignment_2/gemOS/src). The page that alloc_memory_buffer returns is an
-- argument; the function frees it on no path but the last, which nothing here depends on.
use building_gem_os_cs.Base.{
  ℕ, ◌%◌, ◌^◌, ◌≡◌, refl, sym, ◌∙◌, bit_and, Option, none, some, ◌==◌, if◌then◌else◌, arith,
}
use building_gem_os_cs.Base.Partial.{◌>>=◌, >>=_some, some-injective, put}
use building_gem_os_cs.Kernel.{einval, eacces, Reply, ok, err, o_read, o_write, Context}
use building_gem_os_cs.Files.{ReadOp, WriteOp, LseekOp, Object, Devices, System, Task, file_at}
use building_gem_os_cs.Files.Io.{seek_set, run_read, run_write, run_lseek}

-- What a call leaves: its result, the value at `offset`, and the state.
pub record Sent (D : Type 0) : Type 0 where
  pub reply : Reply
  pub offset : Option ℕ
  pub system : System D

-- The first half ends the call with -EINVAL, or has read into the buffer.
pub data Half (D : Type 0) : Type 0 where
  refused : System D → Half D
  read_in : Option ℕ → System D → Half D

-- `infilep->offp = prev_offp`
abbrev pub restore_offp : ℕ → Object → Object
restore_offp prev o = record o { file = record (o.file) { offp = prev } }

module _ {D : Type 0} (dev : Devices D) where
  -- the read at the offset to which the seek has led, or the end of the call if it has failed
  unfoldable pub read_behind :
      ReadOp → Context → (a prev buff count : ℕ) → Reply × System D → Option (Half D)
  read_behind op ctx a prev buff count (err e, s) = some (refused s)
  read_behind op ctx a prev buff count (ok n, s) = do
    o ← s.files a
    (_, s') ← run_read dev op ctx a o buff count s
    o' ← s'.files a
    some (
        read_in (some o'.file.offp)
          (record s' { files = put s'.files a (some (restore_offp prev o')) }))

  -- The read of the file `o` at `a`: at `*offset`, or, if `offset` is NULL, at its own offset.
  unfoldable pub read_half :
      ReadOp
      → Context
      → (a : ℕ) → Object
      → (offset : Option ℕ) → (buff count : ℕ) → System D
      → Option (Half D)
  read_half op ctx a o none buff count s = do
    (_, s') ← run_read dev op ctx a o buff count s
    some (read_in none s')
  read_half op ctx a o (some v) buff count s = do
    seek ← o.fops.lseek
    read_behind op ctx a o.file.offp buff count (run_lseek dev seek a o v seek_set s)

  -- `if(outfilep->fops->write)`
  unfoldable pub try_send :
      Option WriteOp
      → Context
      → (b : ℕ) → Object
      → (buff count : ℕ) → Option ℕ
      → System D
      → Option (Sent D)
  try_send none ctx b q buff count off s =
      some (record { reply = err einval; offset = off; system = s })
  try_send (some op) ctx b q buff count off s = do
    (r, s') ← run_write dev op ctx b q buff count s
    some (record { reply = r; offset = off; system = s' })

  -- The part from the test of `outfilep` on. It writes `count` bytes, whatever was read.
  unfoldable pub send_half :
      Context → (out : Option ℕ) → (buff count : ℕ) → Option ℕ → System D → Option (Sent D)
  send_half ctx none buff count off s =
      some (record { reply = err einval; offset = off; system = s })
  send_half ctx (some b) buff count off s = do
    q ← s.files b
    (if bit_and q.file.mode o_write == 0
        then some (record { reply = err eacces; offset = off; system = s })
        else try_send q.fops.write ctx b q buff count off s)

  unfoldable pub finish_send :
      Context → (out offset : Option ℕ) → (buff count : ℕ) → Half D → Option (Sent D)
  finish_send ctx out offset buff count (refused s) =
      some (record { reply = err einval; offset = offset; system = s })
  finish_send ctx out offset buff count (read_in off s) = send_half ctx out buff count off s

  unfoldable pub send_from :
      Option ReadOp
      → Context
      → (a : ℕ) → Object
      → (out offset : Option ℕ) → (buff count : ℕ) → System D
      → Option (Sent D)
  send_from none ctx a o out offset buff count s =
      some (record { reply = err einval; offset = offset; system = s })
  send_from (some op) ctx a o out offset buff count s = do
    h ← read_half op ctx a o offset buff count s
    finish_send ctx out offset buff count h

  unfoldable pub send_file :
      Context → (out into offset : Option ℕ) → (buff count : ℕ) → System D → Option (Sent D)
  send_file ctx out none offset buff count s =
      some (record { reply = err einval; offset = offset; system = s })
  send_file ctx out (some a) offset buff count s = do
    o ← s.files a
    (if bit_and o.file.mode o_read == o_read
        then send_from o.fops.read ctx a o out offset buff count s
        else some (record { reply = err eacces; offset = offset; system = s }))

  unfoldable pub do_sendfile :
      Task → (outfd infd : ℕ) → (offset : Option ℕ) → (count buff : ℕ) → System D → Option (Sent D)
  do_sendfile t outfd infd offset count buff s = do
    out ← file_at t outfd
    into ← file_at t infd
    send_file t.ctx out into offset buff (count % 2 ^ 32) s

  read_behind-kept :
      (op : ReadOp) (ctx : Context) (a prev buff count n : ℕ) (s : System D) (h : Half D)
      → read_behind op ctx a prev buff count (ok n, s) ≡ some h
      → (o : Object) × (off : ℕ) × (s' : System D) × (h ≡ read_in (some off) s')
        × (s'.files a ≡ some o)
        × (o.file.offp ≡ prev)
  unfolding read_behind
  read_behind-kept op ctx a prev buff count n s h e =
      let (o, e1, e2) = >>=_some (s.files a) _ e in
      let ((r, s1), e3, e4) = >>=_some (run_read dev op ctx a o buff count s) _ e2 in
      let (o', e5, e6) = >>=_some (s1.files a) _ e4 in
      (
        restore_offp prev o',
        o'.file.offp,
        record s1 { files = put s1.files a (some (restore_offp prev o')) },
        sym (some-injective e6),
        ground arith,
        refl,
      )

  -- With an offset that the seek accepts, the read half leaves the offset of the file itself as it was.
  pub read_half-kept :
      (op : ReadOp) (ctx : Context) (a v buff count n : ℕ) (o : Object) (seek : LseekOp)
      (s s1 : System D) (h : Half D)
      → o.fops.lseek ≡ some seek
      → run_lseek dev seek a o v seek_set s ≡ (ok n, s1)
      → read_half op ctx a o (some v) buff count s ≡ some h
      → (q : Object) × (off : ℕ) × (s' : System D) × (h ≡ read_in (some off) s')
        × (s'.files a ≡ some q)
        × (q.file.offp ≡ o.file.offp)
  unfolding read_half
  read_half-kept op ctx a v buff count n o seek s s1 h l r e =
      let (seek', e1, e2) = >>=_some o.fops.lseek _ e in
      let c : seek' ≡ seek = some-injective (sym e1 ∙ l) in
      let e3 = rw (c, r) at e2 in read_behind-kept op ctx a o.file.offp buff count n s1 h e3
