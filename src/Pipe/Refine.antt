-- ===== src/Pipe/Refine.antt =====
-- A history of reads and writes of a pipe of pipe.c, by any processes, as a FIFO of bytes.
use building_gem_os_cs.Base.{
  ℕ, ◌≤◌, ◌≡◌, refl, sym, ap, ◌∙◌, Bool, true, false, List, [], ◌∷◌, ◌++◌, if◌then◌else◌, arith,
  length, take-append-drop,
}
use building_gem_os_cs.Base.Memory.{Memory, slice}
use building_gem_os_cs.Kernel.{Errno, eacces, einval, eothers, Reply, ok, err, Context, File}
use building_gem_os_cs.Ring.{max_pipe_size}
use building_gem_os_cs.Ring.Window.{length-window}
use mathlib.Core.List.{append_assoc, append-nil}
use building_gem_os_cs.Pipe.{
  is_valid_mem_range, PipeInfo, Io, fail, read_bytes, write_bytes, pipe_read, pipe_write,
}
use building_gem_os_cs.Pipe.Invariant.{IsValid, contents, pipe_read-IsValid, pipe_write-IsValid}
use building_gem_os_cs.Pipe.Read.{read_bytes-Delivered}
use building_gem_os_cs.Pipe.Write.{write_bytes-Wrote}

-- A system call on the pipe, by the process of a context through a file object.
pub data Request : Type 0 where
  reads : Context → File → (buff count : ℕ) → Request
  writes : Context → File → (buff count : ℕ) → Request

-- The bytes that a call reports, found at `buff`; none if it failed.
abbrev pub moved : Reply → Memory → ℕ → List ℕ
moved (ok n) m buff = slice m buff n
moved (err e) m buff = []

-- The bytes taken from user memory and given to it so far, with the state reached.
pub record History : Type 0 where
  pub accepted : List ℕ
  pub delivered : List ℕ
  pub pipe : PipeInfo
  pub memory : Memory

unfoldable pub step : History → Request → History
step h (reads ctx f buff count) =
    let r = pipe_read ctx f h.pipe h.memory buff count in
    record {
      accepted = h.accepted;
      delivered = h.delivered ++ moved r.reply r.memory buff;
      pipe = r.pipe;
      memory = r.memory;
    }
step h (writes ctx f buff count) =
    let r = pipe_write ctx f h.pipe h.memory buff count in
    record {
      accepted = h.accepted ++ moved r.reply h.memory buff;
      delivered = h.delivered;
      pipe = r.pipe;
      memory = r.memory;
    }

unfoldable pub run : History → List Request → History
run h [] = h
run h (q ∷ qs) = run (step h q) qs

if_cases {ℓ κ} :
    {A : Type ℓ} (P : A → Type κ) (b : Bool) (x y : A) → P x → P y → P (if b then x else y)
if_cases P true x y h k = h
if_cases P false x y h k = k

module _ (ctx : Context) (f : File) (p : PipeInfo) (m : Memory) (buff count : ℕ) where
  -- Each call either fails and changes nothing, or transfers bytes.
  pipe_read_cases :
      (P : Io → Type 0)
      → ((e : Errno) → P (fail e p m))
      → P (read_bytes p m buff count)
      → P (pipe_read ctx f p m buff count)
  unfolding pipe_read
  pipe_read_cases P failed done = if_cases P _ _ _ (failed eacces) (
      if_cases P _ _ _ (failed eothers) (
        if_cases P _ _ _ (failed einval)
          (elim (is_valid_mem_range ctx buff count 2)
            as (λ r. P (elim r [ err _ ↦ fail eothers p m | ok _ ↦ read_bytes p m buff count ])) [
              | err _ ↦ failed eothers
              | ok _ ↦ done
            ])))

  pipe_write_cases :
      (P : Io → Type 0)
      → ((e : Errno) → P (fail e p m))
      → P (write_bytes p m buff count)
      → P (pipe_write ctx f p m buff count)
  unfolding pipe_write
  pipe_write_cases P failed done = if_cases P _ _ _ (failed eacces) (
      if_cases P _ _ _ (failed eothers) (
        if_cases P _ _ _ (failed einval)
          (elim (is_valid_mem_range ctx buff count 1)
            as (λ r. P (elim r [ err _ ↦ fail eothers p m | ok _ ↦ write_bytes p m buff count ])) [
              | err _ ↦ failed eothers
              | ok _ ↦ done
            ])))

  read_transfers :
      IsValid p
      → let r = pipe_read ctx f p m buff count in
        contents p ≡ moved r.reply r.memory buff ++ contents r.pipe
  read_transfers v =
      pipe_read_cases (λ r. contents p ≡ moved r.reply r.memory buff ++ contents r.pipe) (λ e. refl)
        (let d = read_bytes-Delivered p m buff count v in
          rw (d.reply, d.bytes, d.rest) (sym (take-append-drop _ (contents p))))

  write_transfers :
      IsValid p
      → let r = pipe_write ctx f p m buff count in
        contents r.pipe ≡ contents p ++ moved r.reply m buff
  write_transfers v =
      pipe_write_cases (λ r. contents r.pipe ≡ contents p ++ moved r.reply m buff)
        (λ e. sym (append-nil (contents p)))
        (let d = write_bytes-Wrote p m buff count v in rw (d.reply, d.bytes))

-- What went in is what came out and what is left, in order.
abbrev pub IsBalanced : List ℕ → History → Type 0
IsBalanced old h = old ++ h.accepted ≡ h.delivered ++ contents h.pipe

step-IsBalanced :
    (old : List ℕ) (h : History) (q : Request)
    → IsValid h.pipe
    → IsBalanced old h
    → IsBalanced old (step h q) × IsValid (step h q).pipe
unfolding step
step-IsBalanced old h (reads ctx f buff count) v b = (
  b
      ∙ ap (◌++◌ h.delivered) (read_transfers ctx f h.pipe h.memory buff count v)
      ∙ sym (append_assoc h.delivered _ _),
  pipe_read-IsValid ctx f h.pipe h.memory buff count v,
)
step-IsBalanced old h (writes ctx f buff count) v b = (
  sym (append_assoc old h.accepted _)
      ∙ ap (λ l. l ++ moved (pipe_write ctx f h.pipe h.memory buff count).reply h.memory buff) b
      ∙ append_assoc h.delivered (contents h.pipe) _
      ∙ ap (◌++◌ h.delivered) (sym (write_transfers ctx f h.pipe h.memory buff count v)),
  pipe_write-IsValid ctx f h.pipe h.memory buff count v,
)

run-IsBalanced :
    (old : List ℕ) (h : History) (qs : List Request)
    → IsValid h.pipe
    → IsBalanced old h
    → IsBalanced old (run h qs) × IsValid (run h qs).pipe
unfolding run
run-IsBalanced old h [] v b = (b, v)
run-IsBalanced old h (q ∷ qs) v b =
    let s = step-IsBalanced old h q v b in run-IsBalanced old (step h q) qs s.1 s.0

abbrev pub start : PipeInfo → Memory → History
start p m = record { accepted = []; delivered = []; pipe = p; memory = m }

-- The pipe is a FIFO of at most MAX_PIPE_SIZE bytes: after any reads and writes, by any processes,
-- refused ones among them, the bytes that the pipe held at the start and those that it accepted
-- since are, in order, those that it delivered and those that it still holds, and no more than
-- MAX_PIPE_SIZE bytes are held.
pub run_fifo :
    (p : PipeInfo) (m : Memory) (qs : List Request)
    → IsValid p
    → let h = run (start p m) qs in
      (contents p ++ h.accepted ≡ h.delivered ++ contents h.pipe)
      × (length (contents h.pipe) ≤ max_pipe_size)
run_fifo p m qs v =
    let r = run-IsBalanced (contents p) (start p m) qs v (append-nil (contents p)) in
    let p' = (run (start p m) qs).pipe in
    (r.0, omega (arith, length-window p'.pipe_buff p'.read_pos p'.buff_len, r.1.len_in))
