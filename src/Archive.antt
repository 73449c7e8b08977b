-- ===== src/Archive.antt =====
-- Assignment1/190547/Part2/myTar.c: an archiver. A file that is read is the bytes behind its offset, as
-- `read` of a regular file gives them. A file that is written has a number of bytes that the disk still
-- takes, after which `write` is short. Where the program exits with -1 the result is `failed`; loops
-- run on fuel, and `stuck` says that it did not suffice.
pub mod Chunks
pub mod Fields
pub mod Roundtrip
pub mod Tests
use building_gem_os_cs.Base.{
  ℕ, zero, suc, ◌+◌, ◌-◌, ◌*◌, ◌/◌, ◌%◌, ◌<◌, Bool, true, false, not, ◌&&◌, Option, none, some,
  List, [], ◌∷◌, ◌++◌, ◌==◌, ltb, if◌then◌else◌, length, take, drop, min,
}

pub record Output : Type 0 where
  pub bytes : List ℕ
  pub room : ℕ

pub data Result (A : Type 0) : Type 0 where
  done : A → Result A
  failed : Result A
  stuck : Result A

infixl 5 ◌>>=◌
abbrev pub ◌>>=◌ : {A B : Type 0} → Result A → (A → Result B) → Result B
done a >>= f = f a
failed >>= f = failed
stuck >>= f = stuck

-- `write(fd, bytes, n) != n` ends with an error.
unfoldable pub write_all : List ℕ → Output → Result Output
write_all bytes o =
    if ltb o.room (length bytes)
    then failed
    else done (record { bytes = o.bytes ++ bytes; room = o.room - length bytes })

abbrev pub write_if : Bool → List ℕ → Output → Result Output
write_if true bytes o = write_all bytes o
write_if false bytes o = done o

-- The state of `read512`: what is left of the input, the output, and `totRead`.
pub record Copy : Type 0 where
  pub input : List ℕ
  pub output : Output
  pub tot_read : ℕ

-- `readLength = read(f_read, buffer, n)` with the write behind it
unfoldable pub copy_chunk : (to_write : Bool) → (n : ℕ) → Copy → Result Copy
copy_chunk to_write n c = do
  o ← write_if to_write (take n c.input) c.output
  done (record {
    input = drop n c.input;
    output = o;
    tot_read = c.tot_read + length (take n c.input);
  })

unfoldable pub copy_loop : (fuel : ℕ) → (to_write : Bool) → (tot_size : ℕ) → Copy → Result Copy
copy_loop zero to_write tot_size c = stuck
copy_loop (suc fuel) to_write tot_size c =
    let more = do c' ← copy_chunk to_write 512 c; copy_loop fuel to_write tot_size c'
    in if ltb (c.tot_read + 512) tot_size then more else done c

-- `read512`, for a size of fewer than 2^31 bytes
unfoldable pub read512 :
    (fuel : ℕ) → (to_write : Bool) → (tot_size : ℕ) → List ℕ → Output → Result Copy
read512 fuel to_write tot_size input output = do
  c ← copy_loop fuel to_write tot_size (record { input = input; output = output; tot_read = 0 })
  copy_chunk to_write (tot_size - c.tot_read) c

-- an integer in `k` bytes, least first
abbrev pub le_bytes : ℕ → ℕ → List ℕ
le_bytes zero v = []
le_bytes (suc k) v = (v % 256) ∷ le_bytes k (v / 256)

abbrev pub le_value : List ℕ → ℕ
le_value [] = 0
le_value (b ∷ bs) = b + 256 * le_value bs

-- A string in memory ends at its first 0.
abbrev pub c_string : List ℕ → List ℕ
c_string [] = []
c_string (b ∷ bs) = let rest = c_string bs in if b == 0 then [] else b ∷ rest

-- `strcpy` of a string into a field that it fits in
abbrev pub strcpy : (field : List ℕ) → List ℕ → List ℕ
strcpy field s = s ++ 0 ∷ drop (length s + 1) field

-- `strcmp(a, b) == 0`
abbrev pub same_string : List ℕ → List ℕ → Bool
same_string [] [] = true
same_string (a ∷ as') (b ∷ bs) = a == b && same_string as' bs
same_string _ _ = false

abbrev pub slash : ℕ
slash = 47

abbrev pub make_file_path : List ℕ → List ℕ → List ℕ
make_file_path directory name = directory ++ slash ∷ name

-- `struct tarFileDesc` has 328 bytes, the fields from 0, 20 and 320 on; `struct tarStats` has 4.
abbrev pub desc_size : ℕ
desc_size = 328

abbrev pub stats_size : ℕ
stats_size = 4

-- The object that createTar fills, over what stood in its memory.
unfoldable pub tar_file_desc : (stale : List ℕ) → (name directory : List ℕ) → (size : ℕ) → List ℕ
tar_file_desc stale name directory size =
    strcpy (take 20 stale) name ++ (strcpy (take 300 (drop 20 stale)) directory ++ le_bytes 8 size)

-- `object.name` and `object.size`
abbrev pub desc_name : List ℕ → List ℕ
desc_name object = c_string object

abbrev pub desc_file_size : List ℕ → ℕ
desc_file_size object = le_value (take 8 (drop 320 object))

-- a directory entry, with what stat and open give for it
pub record Entry : Type 0 where
  pub name : List ℕ
  pub is_regular : Bool
  pub contents : List ℕ

-- what both loops of createTar skip: other than regular files, and the archive
abbrev pub is_archived : (directory tar_file : List ℕ) → Entry → Bool
is_archived directory tar_file e =
    e.is_regular && not (same_string (make_file_path directory e.name) tar_file)

unfoldable pub count_files : (directory tar_file : List ℕ) → List Entry → ℕ
count_files directory tar_file [] = 0
count_files directory tar_file (e ∷ es) =
    (if is_archived directory tar_file e then 1 else 0) + count_files directory tar_file es

-- the body of the second loop for a file that is archived
unfoldable pub add_file : (fuel : ℕ) → (stale directory : List ℕ) → Entry → Output → Result Output
add_file fuel stale directory e o = do
  o' ← write_all (tar_file_desc stale e.name directory (length e.contents)) o
  c ← read512 fuel true (length e.contents) e.contents o'
  done c.output

unfoldable pub add_files :
    (fuel : ℕ) → (stale directory tar_file : List ℕ) → List Entry → Output → Result Output
add_files fuel stale directory tar_file [] o = done o
add_files fuel stale directory tar_file (e ∷ es) o =
    let added = do
      o' ← add_file fuel stale directory e o
      add_files fuel stale directory tar_file es o'
    in let skipped = add_files fuel stale directory tar_file es o in
      if is_archived directory tar_file e then added else skipped

-- `createTar`. The write of the count is not checked; a short one leaves no room.
unfoldable pub create_tar :
    (fuel : ℕ) → (stale directory tar_file : List ℕ) → List Entry → (room : ℕ) → Result Output
create_tar fuel stale directory tar_file es room =
    let stats = le_bytes stats_size (count_files directory tar_file es) in
    add_files fuel stale directory tar_file es
      (record { bytes = take room stats; room = room - stats_size })

-- `read(tar, &object, sizeof(struct tarFileDesc))`, over what the object held
abbrev pub read_object : (object input : List ℕ) → List ℕ
read_object object input = take desc_size input ++ drop (length (take desc_size input)) object

-- The loop of `extract`: the files that it makes, in order, each in a new file with the room given.
unfoldable pub extract_files :
    (fuel chunks room : ℕ) → (dump_dir object input : List ℕ) → Result (List (List ℕ × List ℕ))
extract_files zero chunks room dump_dir object input = stuck
extract_files (suc fuel) chunks room dump_dir object input =
    let object' = read_object object input in
    let more = do
      c ←
          read512 chunks true (desc_file_size object') (drop desc_size input)
            (record { bytes = []; room = room })
      rest ← extract_files fuel chunks room dump_dir object' c.input
      done ((make_file_path dump_dir (desc_name object'), c.output.bytes) ∷ rest)
    in if length (take desc_size input) == 0 then done [] else more

-- `extract`, of an archive with these bytes, into the directory that it has made
unfoldable pub extract :
    (fuel chunks room : ℕ) → (dump_dir stale tar : List ℕ) → Result (List (List ℕ × List ℕ))
extract fuel chunks room dump_dir stale tar =
    if length (take stats_size tar) == stats_size
    then extract_files fuel chunks room dump_dir stale (drop stats_size tar)
    else failed

-- The loop of `extractSingle`: the file, or `none` where it says that there is no such file.
unfoldable pub extract_one :
    (fuel chunks room : ℕ)
    → (dump_dir file object input : List ℕ) → Result (Option (List ℕ × List ℕ))
extract_one zero chunks room dump_dir file object input = stuck
extract_one (suc fuel) chunks room dump_dir file object input =
    let object' = read_object object input in
    let found = same_string file (desc_name object') in
    let more = do
      c ←
          read512 chunks found (desc_file_size object') (drop desc_size input)
            (record { bytes = []; room = room })
      (if found
          then done (some (make_file_path dump_dir (desc_name object'), c.output.bytes))
          else extract_one fuel chunks room dump_dir file object' c.input)
    in if length (take desc_size input) == 0 then done none else more

unfoldable pub extract_single :
    (fuel chunks room : ℕ) → (dump_dir file stale tar : List ℕ) → Result (Option (List ℕ × List ℕ))
extract_single fuel chunks room dump_dir file stale tar =
    if length (take stats_size tar) == stats_size
    then extract_one fuel chunks room dump_dir file stale (drop stats_size tar)
    else failed

-- The loop of `list`: the name and the size in each line.
unfoldable pub list_files : (fuel chunks : ℕ) → (object input : List ℕ) → Result (List (List ℕ × ℕ))
list_files zero chunks object input = stuck
list_files (suc fuel) chunks object input =
    let object' = read_object object input in
    let more = do
      c ←
          read512 chunks false (desc_file_size object') (drop desc_size input)
            (record { bytes = []; room = 0 })
      rest ← list_files fuel chunks object' c.input
      done ((desc_name object', desc_file_size object') ∷ rest)
    in if length (take desc_size input) == 0 then done [] else more

-- `list`: the number of files that the archive says it has, and the lines
unfoldable pub list_tar : (fuel chunks : ℕ) → (stale tar : List ℕ) → Result (ℕ × List (List ℕ × ℕ))
list_tar fuel chunks stale tar =
    let lines = do
      ls ← list_files fuel chunks stale (drop stats_size tar)
      done (le_value (take stats_size tar), ls)
    in if length (take stats_size tar) == stats_size then lines else failed
