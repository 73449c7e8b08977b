-- ===== src/Archive/Fields.antt =====
-- The fields of the header of a file in an archive of myTar.c, written and read.
use building_gem_os_cs.Base.{
  ℕ, zero, suc, ◌+◌, ◌/◌, ◌^◌, ◌<◌, ◌≤◌, ◌≡◌, ◌≢◌, refl, sym, ap, ◌∙◌, false, List, [], ◌∷◌, ◌++◌,
  ◌==◌, length, take, drop, length-append, length-take, length-drop, drop-append_eq, take_all, All,
  arith,
}
use mathlib.Core.List.{append_assoc}
use building_gem_os_cs.Archive.{
  le_bytes, le_value, c_string, strcpy, desc_size, tar_file_desc, desc_name, desc_file_size,
}

pub length-le_bytes : (k v : ℕ) → length (le_bytes k v) ≡ k
length-le_bytes zero v = refl
length-le_bytes (suc k) v = ap suc (length-le_bytes k (v / 256))

-- `k` bytes hold the number.
abbrev pub HoldsIn : ℕ → ℕ → Type 0
HoldsIn zero v = v ≡ 0
HoldsIn (suc k) v = HoldsIn k (v / 256)

pub le_value-le_bytes : (k v : ℕ) → HoldsIn k v → le_value (le_bytes k v) ≡ v
le_value-le_bytes zero v h = sym h
le_value-le_bytes (suc k) v h = let r = le_value-le_bytes k (v / 256) h in omega arith

-- a string with no 0 in it
abbrev pub IsText : List ℕ → Type 0
IsText s = All (λ c. c ≢ 0) s

c_string-append : (s rest : List ℕ) → IsText s → c_string (s ++ 0 ∷ rest) ≡ s
c_string-append [] rest h = refl
c_string-append (c ∷ s) rest h =
    let r = c_string-append s rest h.1 in
    let e : (c == 0) ≡ false = let n = h.0 in ground arith in rw (e, r) refl

length-strcpy :
    (field s : List ℕ) → length s < length field → length (strcpy field s) ≡ length field
length-strcpy field s h =
    omega (arith, length-append s (0 ∷ drop (length s + 1) field), length-drop (length s + 1) field)

-- What createTar needs of a file: the name and the directory fit their fields, and the size 31 bits.
pub record FitsDesc (name directory : List ℕ) (size : ℕ) : Type 0 where
  pub name_text : IsText name
  pub name_fits : length name < 20
  pub directory_fits : length directory < 300
  pub size_fits : size < 2 ^ 31

module _ (stale name directory : List ℕ) (size : ℕ) (full : desc_size ≤ length stale)
    (h : FitsDesc name directory size) where
  abbrev name_field : List ℕ
  name_field = strcpy (take 20 stale) name

  abbrev directory_field : List ℕ
  directory_field = strcpy (take 300 (drop 20 stale)) directory

  length-name_field : length name_field ≡ 20
  length-name_field =
      let a = length-take 20 stale in
      let b = h.name_fits in length-strcpy (take 20 stale) name (omega arith) ∙ omega arith

  length-directory_field : length directory_field ≡ 300
  length-directory_field =
      let a = length-take 300 (drop 20 stale) in
      let d = length-drop 20 stale in
      let b = h.directory_fits in
      length-strcpy (take 300 (drop 20 stale)) directory (omega arith) ∙ omega arith

  pub length-tar_file_desc : length (tar_file_desc stale name directory size) ≡ desc_size
  unfolding tar_file_desc
  length-tar_file_desc =
      let a = length-append name_field (directory_field ++ le_bytes 8 size) in
      let b = length-append directory_field (le_bytes 8 size) in
      omega (arith, length-name_field, length-directory_field, length-le_bytes 8 size)

  pub desc_name_lem : desc_name (tar_file_desc stale name directory size) ≡ name
  unfolding tar_file_desc
  desc_name_lem =
      let tail = drop (length name + 1) (take 20 stale) in
      ap c_string (append_assoc name (0 ∷ tail) (directory_field ++ le_bytes 8 size))
      ∙ c_string-append name (tail ++ (directory_field ++ le_bytes 8 size)) h.name_text

  pub desc_file_size_lem : desc_file_size (tar_file_desc stale name directory size) ≡ size
  unfolding tar_file_desc
  desc_file_size_lem =
      let n = name_field in
      let d = directory_field in
      let l = le_bytes 8 size in
      let q : length (n ++ d) ≡ 320 =
        omega (arith, length-append n d, length-name_field, length-directory_field) in
      let e : drop 320 (n ++ (d ++ l)) ≡ l =
        ap (drop 320) (sym (append_assoc n d l)) ∙ (rw q at (drop-append_eq (n ++ d) l)) in
      let t : take 8 (drop 320 (n ++ (d ++ l))) ≡ l =
        ap (take 8) e ∙ take_all 8 l (length-le_bytes 8 size) in
      let f = h.size_fits in ap le_value t ∙ le_value-le_bytes 8 size (omega arith)
