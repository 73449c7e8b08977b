-- ===== src/Ppipe/Flush.antt =====
-- do_flush_ppipe of ppipe.c: it reclaims the bytes that every reader has read.
use building_gem_os_cs.Base.{
  ℕ, ◌+◌, ◌-◌, ◌%◌, ◌≤◌, ◌<◌, ◌≡◌, refl, sym, ◌∙◌, ◌⊎◌, inl, inr, Bool, true, false, ◌&&◌, List, [],
  ◌∷◌, ltb, if◌then◌else◌, arith, length, All, All-map, All-get_or, get_or-map, length-map, drop,
  Bool-cases,
}
use building_gem_os_cs.ProcTable.Laws.{IsDistinct-map}
use building_gem_os_cs.Ring.{max_pipe_size}
use building_gem_os_cs.Ring.Window.{drop-window, window_mod}
use building_gem_os_cs.Ppipe.{
  Proc, PpipeInfo, pid_of, free_proc, proc_at, read_by_all, rewind, reclaimed, do_flush_ppipe,
}
use building_gem_os_cs.Ppipe.Invariant.{IsValid, IsReader, contents, pending}

-- Some slot with its read end open has read exactly `n` bytes.
abbrev pub Attains : ℕ → List Proc → Type 0
Attains n [] = ⊥
Attains n (q ∷ qs) = ((q.read_open ≡ true) × (q.bytes_read ≡ n)) ⊎ Attains n qs

-- Every process with its read end open has read at least `n` bytes.
abbrev pub AtLeast : ℕ → List Proc → Type 0
AtLeast n = All (λ q. q.read_open ≡ true → n ≤ q.bytes_read)

abbrev pub AllClosed : List Proc → Type 0
AllClosed = All (λ q. q.read_open ≡ false)

-- `n` is the least count of bytes read among the processes that may read, and 0 if there are none.
abbrev pub Reclaims : ℕ → List Proc → Type 0
Reclaims n qs = AtLeast n qs × ((AllClosed qs × (n ≡ 0)) ⊎ Attains n qs)

least-le :
    (qs : List Proc) (c : Bool) (n : ℕ)
    → ((read_by_all qs c n).1 ≤ n) × AtLeast (read_by_all qs c n).1 qs
unfolding read_by_all
least-le [] c n = (omega arith, tt)
least-le (q ∷ qs) c n =
    let r =
      least-le qs (if q.read_open then false else c)
        (if q.read_open && ltb q.bytes_read n then q.bytes_read else n) in
    (ground (arith, r.0), ((λ h. ground (arith, r.0)), r.1))

closed_flag :
    (qs : List Proc) (c : Bool) (n : ℕ) → (read_by_all qs c n).0 ≡ true → (c ≡ true) × AllClosed qs
unfolding read_by_all
closed_flag [] c n h = (h, tt)
closed_flag (q ∷ qs) c n h =
    let r =
      closed_flag qs (if q.read_open then false else c)
        (if q.read_open && ltb q.bytes_read n then q.bytes_read else n) h in
    (ground (arith, r.0), (ground (arith, r.0), r.1))

-- The least value is that of a reader, or the one that the loop starts from.
least-attained :
    (qs : List Proc) (c : Bool) (n : ℕ)
    → Attains (read_by_all qs c n).1 qs ⊎ ((read_by_all qs c n).1 ≡ n)
unfolding read_by_all
least-attained [] c n = inr refl
least-attained (q ∷ qs) c n =
    let r =
      least-attained qs (if q.read_open then false else c)
        (if q.read_open && ltb q.bytes_read n then q.bytes_read else n) in
    elim r [
      | inl a ↦ inl (inr a)
      | inr e ↦ elim (Bool-cases (q.read_open && ltb q.bytes_read n)) [
        | inl t ↦ inl (inl (ground arith, ground arith))
        | inr f ↦ inr (ground arith)
      ]
    ]

abbrev HasOpen : List Proc → Type 0
HasOpen [] = ⊥
HasOpen (q ∷ qs) = (q.read_open ≡ true) ⊎ HasOpen qs

open_flag :
    (qs : List Proc) (c : Bool) (n : ℕ) → (read_by_all qs c n).0 ≡ false → (c ≡ false) ⊎ HasOpen qs
unfolding read_by_all
open_flag [] c n h = inl h
open_flag (q ∷ qs) c n h =
    let r =
      open_flag qs (if q.read_open then false else c)
        (if q.read_open && ltb q.bytes_read n then q.bytes_read else n) h in
    elim r [
      | inr o ↦ inr (inr o)
      | inl e ↦ elim (Bool-cases q.read_open) [ inl t ↦ inr (inl t) | inr f ↦ inl (ground arith) ]
    ]

abbrev AtMost : ℕ → List Proc → Type 0
AtMost n = All (λ q. q.read_open ≡ true → q.bytes_read ≤ n)

HasOpen-Attains : (n : ℕ) (qs : List Proc) → HasOpen qs → AtMost n qs → AtLeast n qs → Attains n qs
HasOpen-Attains n (q ∷ qs) (inl o) u l = inl (o, omega (arith, u.0 o, l.0 o))
HasOpen-Attains n (q ∷ qs) (inr h) u l = inr (HasOpen-Attains n qs h u.1 l.1)
HasOpen-Attains n [] h u l = absurd h

IsReader-AtMost : (start len : ℕ) (qs : List Proc) → All (IsReader start len) qs → AtMost len qs
IsReader-AtMost start len [] a = tt
IsReader-AtMost start len (q ∷ qs) a = ((λ h. (a.0 h).0), IsReader-AtMost start len qs a.1)

AtLeast-zero : (qs : List Proc) → AtLeast 0 qs
AtLeast-zero [] = tt
AtLeast-zero (q ∷ qs) = ((λ h. omega arith), AtLeast-zero qs)

module _ (p : PpipeInfo) (v : IsValid p) where
  reclaimed-Reclaims : Reclaims (reclaimed p) p.procs × (reclaimed p ≤ p.buff_len)
  unfolding reclaimed
  reclaimed-Reclaims =
      let r = read_by_all p.procs true p.buff_len in
      let l = least-le p.procs true p.buff_len in
      elim (Bool-cases r.0) [
        | inl t ↦
            rw (t, reclaimed)
              (
                (AtLeast-zero p.procs, inl ((closed_flag p.procs true p.buff_len t).1, refl)),
                omega arith,
              )
        | inr f ↦
            rw (f, reclaimed)
              (
                (
                  l.1,
                  inr (
                      attained r.1 l.1 (least-attained p.procs true p.buff_len)
                        (open_flag p.procs true p.buff_len f)),
                ),
                l.0,
              )
      ]
    where
      attained :
          (n : ℕ)
          → AtLeast n p.procs
          → Attains n p.procs ⊎ (n ≡ p.buff_len)
          → (true ≡ false) ⊎ HasOpen p.procs
          → Attains n p.procs
      attained n l (inl a) o = a
      attained n l (inr e) (inl c) = absurd (cc)
      attained n l (inr e) (inr o) =
          HasOpen-Attains n p.procs o
            (rw e (IsReader-AtMost p.buff_start p.buff_len p.procs v.each)) l

rewind-IsReader :
    (start len n : ℕ) (qs : List Proc)
    → All (IsReader start len) qs
    → AtLeast n qs
    → All (λ q. IsReader ((start + n) % max_pipe_size) (len - n) (rewind n q)) qs
rewind-IsReader start len n [] a l = tt
rewind-IsReader start len n (q ∷ qs) a l = (one q a.0 l.0, rewind-IsReader start len n qs a.1 l.1)
  where
    one :
        (q : Proc)
        → IsReader start len q
        → (q.read_open ≡ true → n ≤ q.bytes_read)
        → IsReader ((start + n) % max_pipe_size) (len - n) (rewind n q)
    one q r g h = elim (Bool-cases q.read_open) [
      | inl t ↦ rw t (omega (arith, r t, g t))
      | inr f ↦ absurd (ground arith)
    ]

-- What a flush that reclaims `n` bytes leaves.
pub record Flushed (n : ℕ) (p : PpipeInfo) (r : ℕ × PpipeInfo) : Type 0 where
  pub count : r.0 ≡ n
  pub least : Reclaims n p.procs
  pub valid : IsValid r.1
  pub rest : contents r.1 ≡ drop n (contents p)
  pub room : r.1.buff_len + n ≡ p.buff_len
  pub readers :
      (i : ℕ)
      → i < length p.procs
      → (proc_at p i).read_open ≡ true
      → pending r.1 (proc_at r.1 i) ≡ pending p (proc_at p i)

-- A flush returns the least number of bytes that a process with an open read end has read, 0 if
-- there is none; it drops exactly these oldest bytes, so that as much room is won, keeps the pipe
-- well formed, and takes from no process a byte that it has yet to read.
pub do_flush_ppipe-Flushed :
    (p : PpipeInfo) → IsValid p → Flushed (reclaimed p) p (do_flush_ppipe p)
unfolding do_flush_ppipe
do_flush_ppipe-Flushed p v = record {
  count = refl;
  least = (reclaimed-Reclaims p v).0;
  valid = record {
    slots = length-map (rewind (reclaimed p)) p.procs ∙ v.slots;
    each = All-map _ (rewind (reclaimed p)) p.procs (
        rewind-IsReader p.buff_start p.buff_len (reclaimed p) p.procs v.each
          (reclaimed-Reclaims p v).0.0);
    distinct = IsDistinct-map pid_of (rewind (reclaimed p)) p.procs (λ q. ground arith) v.distinct;
    len_in = omega arith;
    start_in = omega arith;
    end_at = omega (arith, reclaimed-Reclaims p v);
  };
  rest =
      window_mod p.ppipe_buff ((p.buff_start + reclaimed p) % max_pipe_size)
        (p.buff_start + reclaimed p) (p.buff_len - reclaimed p) (omega arith)
      ∙ sym (
          drop-window p.ppipe_buff p.buff_start (reclaimed p) p.buff_len
            (reclaimed-Reclaims p v).1);
  room = omega (arith, reclaimed-Reclaims p v);
  readers = λ i h o.
      let l = All-get_or _ p.procs i free_proc (reclaimed-Reclaims p v).0.0 h o in
      let e : p.buff_len - reclaimed p - ((proc_at p i).bytes_read - reclaimed p)
          ≡ p.buff_len - (proc_at p i).bytes_read =
        omega (arith, reclaimed-Reclaims p v) in
      rw (get_or-map (rewind (reclaimed p)) p.procs i free_proc h, o, e) refl;
}
