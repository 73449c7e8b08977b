-- ===== src/Ring.antt =====
-- The byte ring that a pipe and a persistent pipe keep in one page: the two copy loops of
-- Assignment_2/190547/src/pipe.c (pipe_read, pipe_write), which those of ppipe.c repeat, and the
-- view of the page as the list of the bytes from a position on.
pub mod Window
pub mod Copy
use building_gem_os_cs.Base.{ℕ, zero, suc, ◌+◌, ◌%◌, List, [], ◌∷◌}
use building_gem_os_cs.Base.Memory.{Memory, update}

-- MAX_PIPE_SIZE, which is also MAX_PPIPE_SIZE
abbrev pub max_pipe_size : ℕ
max_pipe_size = 4096

-- `for (i; n rounds) pipe_buff[(write_pos + i) % MAX_PIPE_SIZE] = buff[i];`
unfoldable pub copy_in : (rounds i : ℕ) → Memory → (buff write_pos : ℕ) → Memory → Memory
copy_in zero i m buff write_pos ring = ring
copy_in (suc n) i m buff write_pos ring =
    copy_in n (i + 1) m buff write_pos
      (update ring ((write_pos + i) % max_pipe_size) (m (buff + i)))

-- `for (i; n rounds) buff[i] = pipe_buff[(read_pos + i) % MAX_PIPE_SIZE];`
unfoldable pub copy_out : (rounds i : ℕ) → Memory → (read_pos buff : ℕ) → Memory → Memory
copy_out zero i ring read_pos buff m = m
copy_out (suc n) i ring read_pos buff m =
    copy_out n (i + 1) ring read_pos buff
      (update m (buff + i) (ring ((read_pos + i) % max_pipe_size)))

-- The `n` bytes from position `h` on, going round at the end of the page.
abbrev pub window : Memory → ℕ → ℕ → List ℕ
window ring h zero = []
window ring h (suc n) = ring (h % max_pipe_size) ∷ window ring (h + 1) n
