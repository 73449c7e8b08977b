-- ===== src/Files/Io.antt =====
-- Reads, writes and seeks on descriptors: the handlers of file.c and do_sendfile
-- (Assignment_2/gemOS/src), and do_file_read, do_file_write and do_lseek of Assignment-3/src/entry.c.
-- What the code calls outside the repository is the parameter `dev`.
use building_gem_os_cs.Base.{
  ℕ, ◌+◌, ◌-◌, ◌%◌, ◌^◌, bit_and, not, ◌||◌, Option, none, some, ◌==◌, leb, ltb, if◌then◌else◌,
}
use building_gem_os_cs.Base.Partial.{◌>>=◌, put}
use building_gem_os_cs.Kernel.{
  einval, eagain, ebusy, eacces, enomem, ebadmem, eothers, Reply, ok, err, o_read, o_write, Context,
}
use building_gem_os_cs.Pipe.{pipe_read, pipe_write}
use building_gem_os_cs.Ppipe.{ppipe_read, ppipe_write}
use building_gem_os_cs.Files.{
  ReadOp, do_read_kbd, do_read_regular, reads_pipe, reads_ppipe, WriteOp, do_write_console,
  do_write_regular, writes_pipe, writes_ppipe, LseekOp, seeks_regular, Object, Devices, System,
  Task, file_at,
}

abbrev pub seek_set : ℕ
seek_set = 0

abbrev pub seek_cur : ℕ
seek_cur = 1

abbrev pub seek_end : ℕ
seek_end = 2

-- A result as a `u32`: a negated code, of entry.h, in two's complement.
abbrev pub word : Reply → ℕ
word (ok n) = n % 2 ^ 32
word (err einval) = 2 ^ 32 - 1
word (err eagain) = 2 ^ 32 - 2
word (err ebusy) = 2 ^ 32 - 3
word (err eacces) = 2 ^ 32 - 4
word (err enomem) = 2 ^ 32 - 5
word (err ebadmem) = 2 ^ 32 - 6
word (err eothers) = 2 ^ 32 - 7

-- `*offp += size`
abbrev pub advance : ℕ → Object → Object
advance size o = record o { file = record (o.file) { offp = (o.file.offp + size) % 2 ^ 32 } }

-- A write that fails leaves the offset; a read that fails does not.
abbrev pub advance_written : Reply → Object → Object
advance_written (ok n) o = advance (word (ok n)) o
advance_written (err e) o = o

-- `do_lseek_regular` on the offset, for a file of `size` bytes; a `long` is a number below 2^64 in
-- two's complement.
unfoldable pub do_lseek_regular : (size offp : ℕ) → (offset whence : ℕ) → Reply × ℕ
do_lseek_regular size offp offset whence =
    let rpos = if whence == seek_set then offset else (offset + offp) % 2 ^ 64 in
    if not (whence == seek_set || (whence == seek_cur || whence == seek_end))
    then (err einval, offp)
    else if leb (2 ^ 63) rpos || ltb size rpos
    then (err einval, offp)
    else (ok rpos, rpos % 2 ^ 32)

module _ {D : Type 0} (dev : Devices D) where
  abbrev pub run_read :
      ReadOp → Context → ℕ → Object → (buff count : ℕ) → System D → Option (Reply × System D)
  run_read do_read_kbd ctx a o buff count s =
      let (d, m) = dev.kbd_read buff (s.devices, s.memory) in
      some (ok 1, record s { devices = d; memory = m })
  run_read do_read_regular ctx a o buff count s = do
    i ← o.inode
    let (r, (d, m)) = dev.inode_read i buff count o.file.offp (s.devices, s.memory)
    some
        (r, record s { files = put s.files a (some (advance (word r) o)); devices = d; memory = m })
  run_read reads_pipe ctx a o buff count s = do
    b ← o.pipe
    p ← s.pipes b
    let r = pipe_read ctx o.file p s.memory buff count
    some (r.reply, record s { pipes = put s.pipes b (some r.pipe); memory = r.memory })
  run_read reads_ppipe ctx a o buff count s = do
    b ← o.ppipe
    p ← s.ppipes b
    let r = ppipe_read ctx o.file p s.memory buff count
    some (r.reply, record s { ppipes = put s.ppipes b (some r.ppipe); memory = r.memory })

  abbrev pub run_write :
      WriteOp → Context → ℕ → Object → (buff count : ℕ) → System D → Option (Reply × System D)
  run_write do_write_console ctx a o buff count s =
      let (r, (d, m)) = dev.do_write ctx buff count (s.devices, s.memory) in
      some (r, record s { devices = d; memory = m })
  run_write do_write_regular ctx a o buff count s = do
    i ← o.inode
    let (r, (d, m)) = dev.inode_write i buff count o.file.offp (s.devices, s.memory)
    some (
      r,
      record s { files = put s.files a (some (advance_written r o)); devices = d; memory = m },
    )
  run_write writes_pipe ctx a o buff count s = do
    b ← o.pipe
    p ← s.pipes b
    let r = pipe_write ctx o.file p s.memory buff count
    some (r.reply, record s { pipes = put s.pipes b (some r.pipe); memory = r.memory })
  run_write writes_ppipe ctx a o buff count s = do
    b ← o.ppipe
    p ← s.ppipes b
    let r = ppipe_write ctx o.file p s.memory buff count
    some (r.reply, record s { ppipes = put s.ppipes b (some r.ppipe); memory = r.memory })

  -- the lseek handler; a file with no inode is refused
  abbrev pub seek_inode : Option ℕ → ℕ → Object → (offset whence : ℕ) → System D → Reply × System D
  seek_inode none a o offset whence s = (err einval, s)
  seek_inode (some i) a o offset whence s =
      let (r, offp) = do_lseek_regular (dev.file_size i s.devices) o.file.offp offset whence in
      (
        r,
        record s {
          files = put s.files a (some (record o { file = record (o.file) { offp = offp } }));
        },
      )

  abbrev pub run_lseek : LseekOp → ℕ → Object → (offset whence : ℕ) → System D → Reply × System D
  run_lseek seeks_regular a o offset whence s = seek_inode o.inode a o offset whence s

  -- `if(fops->read)`
  abbrev pub try_read :
      Option ReadOp → Context → ℕ → Object → (buff count : ℕ) → System D → Option (Reply × System D)
  try_read none ctx a o buff count s = some (err einval, s)
  try_read (some op) ctx a o buff count s = run_read op ctx a o buff count s

  -- The handlers take the count as a `u32`.
  unfoldable pub read_file :
      Context → Option ℕ → (buff count : ℕ) → System D → Option (Reply × System D)
  read_file ctx none buff count s = some (err einval, s)
  read_file ctx (some a) buff count s = do
    o ← s.files a
    (if bit_and o.file.mode o_read == o_read
        then try_read o.fops.read ctx a o buff (count % 2 ^ 32) s
        else some (err eacces, s))

  unfoldable pub do_file_read : Task → (fd buff count : ℕ) → System D → Option (Reply × System D)
  do_file_read t fd buff count s = do filep ← file_at t fd; read_file t.ctx filep buff count s

  abbrev pub try_write :
      Option WriteOp
      → Context
      → ℕ
      → Object
      → (buff count : ℕ) → System D
      → Option (Reply × System D)
  try_write none ctx a o buff count s = some (err einval, s)
  try_write (some op) ctx a o buff count s = run_write op ctx a o buff count s

  unfoldable pub write_file :
      Context → Option ℕ → (buff count : ℕ) → System D → Option (Reply × System D)
  write_file ctx none buff count s = some (err einval, s)
  write_file ctx (some a) buff count s = do
    o ← s.files a
    (if bit_and o.file.mode o_write == 0
        then some (err eacces, s)
        else try_write o.fops.write ctx a o buff (count % 2 ^ 32) s)

  unfoldable pub do_file_write : Task → (fd buff count : ℕ) → System D → Option (Reply × System D)
  do_file_write t fd buff count s = do filep ← file_at t fd; write_file t.ctx filep buff count s

  abbrev pub try_lseek :
      Option LseekOp → ℕ → Object → (offset whence : ℕ) → System D → Reply × System D
  try_lseek none a o offset whence s = (err einval, s)
  try_lseek (some op) a o offset whence s = run_lseek op a o offset whence s

  unfoldable pub seek_file : Option ℕ → (offset whence : ℕ) → System D → Option (Reply × System D)
  seek_file none offset whence s = some (err einval, s)
  seek_file (some a) offset whence s = do
    o ← s.files a
    some (try_lseek o.fops.lseek a o offset whence s)

  unfoldable pub do_lseek : Task → (fd offset whence : ℕ) → System D → Option (Reply × System D)
  do_lseek t fd offset whence s = do filep ← file_at t fd; seek_file filep offset whence s
