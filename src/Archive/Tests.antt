-- ===== src/Archive/Tests.antt =====
-- The theorems on the archiver at concrete inputs, and runs of it.
use building_gem_os_cs.Base.{ℕ, ◌≡◌, true, false, List, [], ◌∷◌, replicate, arith}
use building_gem_os_cs.Archive.{Output, stuck, read512, desc_size, Entry}
use building_gem_os_cs.Archive.Chunks.{read512_stuck}

abbrev file_bytes : List ℕ
file_bytes = 104 ∷ 105 ∷ 10 ∷ []

abbrev empty_file : Output
empty_file = record { bytes = []; room = 100 }

abbrev hello : Entry
hello = record { name = 97 ∷ 98 ∷ []; is_regular = true; contents = file_bytes }

abbrev subdirectory : Entry
subdirectory = record { name = 100 ∷ []; is_regular = false; contents = [] }

abbrev old_archive : Entry
old_archive = record { name = 116 ∷ []; is_regular = true; contents = 1 ∷ [] }

abbrev entries : List Entry
entries = hello ∷ subdirectory ∷ old_archive ∷ []

abbrev directory : List ℕ
directory = 46 ∷ []

-- "./t"
abbrev tar_file : List ℕ
tar_file = 46 ∷ 47 ∷ 116 ∷ []

abbrev dump_dir : List ℕ
dump_dir = 68 ∷ []

abbrev stale : List ℕ
stale = replicate desc_size 7

-- 3 bytes for 1000 that the header says, as in an archive that has been cut off
stuck_run : read512 7 true 1000 file_bytes empty_file ≡ stuck
stuck_run = read512_stuck 7 true 1000 file_bytes empty_file (omega arith) (omega arith)
