-- ===== src/Files/Seek.antt =====
-- do_lseek_regular of file.c.
use building_gem_os_cs.Base.{
  ℕ, ◌+◌, ◌%◌, ◌^◌, ◌<◌, ◌≤◌, ◌≡◌, ◌≢◌, refl, ◌||◌, ◌==◌, leb, ltb, ◌⊎◌, inl, inr, arith,
  Bool-cases,
}
use building_gem_os_cs.Kernel.{einval, Reply, ok, err}
use building_gem_os_cs.Files.Io.{seek_set, seek_cur, seek_end, do_lseek_regular}

-- `n` is where a seek leads, on the integers: a negative offset is 2^64 more as a `long`.
abbrev pub Leads : (offp offset whence n : ℕ) → Type 0
Leads offp offset whence n =
    ((whence ≡ seek_set) × (n ≡ offset))
    ⊎ (((whence ≡ seek_cur) ⊎ (whence ≡ seek_end))
        × ((n ≡ offp + offset) ⊎ (n + 2 ^ 64 ≡ offp + offset)))

-- The two ends of a seek.
abbrev pub Sought : (size offp offset whence : ℕ) → Reply × ℕ → Type 0
Sought size offp offset whence r =
    ((n : ℕ) × (r ≡ (ok n, n)) × (n ≤ size) × Leads offp offset whence n)
    ⊎ ((r ≡ (err einval, offp)) × ((n : ℕ) → n ≤ size → ¬ (Leads offp offset whence n)))

set_lem :
    (size offp offset : ℕ)
    → size < 2 ^ 32
    → Sought size offp offset seek_set (do_lseek_regular size offp offset seek_set)
unfolding do_lseek_regular
set_lem size offp offset hs = elim (Bool-cases (ltb size offset)) [
  | inl e ↦ inr (ground arith, λ n l w. ground arith)
  | inr e ↦ inl (offset, ground arith, ground arith, inl (refl, refl))
]

-- the position that a seek from the offset leads to
abbrev pub wrapped : ℕ → ℕ → ℕ
wrapped offset offp = (offset + offp) % 2 ^ 64

relative_lem :
    (size offp offset whence : ℕ)
    → size < 2 ^ 32
    → offp < 2 ^ 32
    → offset < 2 ^ 64
    → (whence ≡ seek_cur) ⊎ (whence ≡ seek_end)
    → Sought size offp offset whence (do_lseek_regular size offp offset whence)
unfolding do_lseek_regular
relative_lem size offp offset whence hs ho hf w =
    elim (Bool-cases (leb (2 ^ 63) (wrapped offset offp) || ltb size (wrapped offset offp))) [
      | inl e ↦ inr (ground arith, λ n l k. ground arith)
      | inr e ↦ inl (wrapped offset offp, ground arith, ground arith, inr (w, ground arith))
    ]

other_lem :
    (size offp offset whence : ℕ)
    → whence ≢ seek_set
    → whence ≢ seek_cur
    → whence ≢ seek_end
    → Sought size offp offset whence (do_lseek_regular size offp offset whence)
unfolding do_lseek_regular
other_lem size offp offset whence a b c = inr (ground arith, λ n l k. ground arith)

-- For a file of fewer than 2^32 bytes, an offset in the file below 2^32 and any `long`:
-- do_lseek_regular moves to the position that the seek leads to on the integers and returns it, if
-- this lies between 0 and the size of the file, with SEEK_END counted from the offset too; or it
-- returns -EINVAL and leaves the offset, and there is no such position.
pub do_lseek_regular-Sought :
    (size offp offset whence : ℕ)
    → size < 2 ^ 32
    → offp < 2 ^ 32
    → offset < 2 ^ 64
    → Sought size offp offset whence (do_lseek_regular size offp offset whence)
do_lseek_regular-Sought size offp offset whence hs ho hf = elim (Bool-cases (whence == seek_set)) [
  | inl e ↦ let e' : whence ≡ seek_set = ground arith in rw e' (set_lem size offp offset hs)
  | inr e ↦ elim (Bool-cases (whence == seek_cur || whence == seek_end)) [
    | inl f ↦ relative_lem size offp offset whence hs ho hf (ground arith)
    | inr f ↦ other_lem size offp offset whence (ground arith) (ground arith) (ground arith)
  ]
]
