-- ===== src/Archive/Roundtrip.antt =====
-- createTar and extract of myTar.c: what is archived is what is extracted.
use building_gem_os_cs.Base.{ℕ, ◌-◌, ◌*◌, ◌<◌, ◌≤◌, ◌≡◌, List, [], ◌∷◌, ◌++◌, if◌then◌else◌, length}
use building_gem_os_cs.Archive.{
  Output, Result, done, make_file_path, desc_size, tar_file_desc, Entry, is_archived, extract,
}
use building_gem_os_cs.Archive.Fields.{FitsDesc}

-- What the archiver needs of a file: the fields of its header hold it, and the loops run to its end.
pub record Archivable (chunks : ℕ) (directory : List ℕ) (e : Entry) : Type 0 where
  pub fits : FitsDesc e.name directory (length e.contents)
  pub rounds : length e.contents ≤ 512 * chunks

-- the output with bytes behind it
abbrev with_bytes : Output → List ℕ → Output
with_bytes o b = record { bytes = o.bytes ++ b; room = o.room - length b }

module _ (chunks : ℕ) (positive : 0 < chunks) (stale directory tar_file : List ℕ)
    (full : length stale ≡ desc_size) where
  abbrev pub header : Entry → List ℕ
  header e = tar_file_desc stale e.name directory (length e.contents)

  -- The bytes of an archive behind its count.
  abbrev pub packed : List Entry → List ℕ
  packed [] = []
  packed (e ∷ es) =
      if is_archived directory tar_file e then header e ++ (e.contents ++ packed es) else packed es

-- The files of an archive, under the paths at which they are extracted.
abbrev pub unpacked : (dump_dir directory tar_file : List ℕ) → List Entry → List (List ℕ × List ℕ)
unpacked dump_dir directory tar_file [] = []
unpacked dump_dir directory tar_file (e ∷ es) =
    if is_archived directory tar_file e
    then (make_file_path dump_dir e.name, e.contents) ∷ unpacked dump_dir directory tar_file es
    else unpacked dump_dir directory tar_file es

module _ (chunks : ℕ) (positive : 0 < chunks) (stale directory tar_file dump_dir : List ℕ)
    (room : ℕ) (full : length stale ≡ desc_size) where
  -- A file that fits, of a size for which there is room.
  abbrev pub IsExtractable : Entry → Type 0
  IsExtractable e = Archivable chunks directory e × (length e.contents ≤ room)

-- What createTar makes of a directory and extract of the archive.
pub record Extracts (dump_dir directory tar_file : List ℕ) (es : List Entry) (fuel chunks room : ℕ)
    (stale : List ℕ) (r : Result Output) : Type 0 where
  pub tar : Output
  pub created : r ≡ done tar
  pub extracted :
      extract fuel chunks room dump_dir stale tar.bytes
      ≡ done (unpacked dump_dir directory tar_file es)
