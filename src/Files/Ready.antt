-- ===== src/Files/Ready.antt =====
-- When the loop of do_file_fork meets no pointer that is NULL or leads to free memory.
use building_gem_os_cs.Base.{
  ℕ, Bool, true, false, ◌≡◌, refl, Option, none, some, List, [], ◌∷◌, ◌==◌, ◌&&◌, arith, Bool-cases,
  Option-cases, inl, inr,
}
use building_gem_os_cs.Base.Partial.{◌>>=◌, put}
use building_gem_os_cs.Kernel.{
  Reply, Context, FileType, stdin, stdout, stderr, regular, pipe, ppipe,
}
use building_gem_os_cs.Pipe.{PipeInfo, do_pipe_fork}
use building_gem_os_cs.Ppipe.{PpipeInfo, do_ppipe_fork}
use building_gem_os_cs.Files.{Object, System, add_ref, fork_handler, fork_file, fork_files}

abbrev pub has {ℓ} : {A : Type ℓ} → Option A → Bool
has none = false
has (some a) = true

has-some {ℓ} : {A : Type ℓ} (o : Option A) → has o ≡ true → (a : A) × (o ≡ some a)
has-some none h = absurd (cc)
has-some (some a) h = (a, refl)

has-put {ℓ} :
    {A : Type ℓ} (m : ℕ → Option A) (b : ℕ) (v : A) (c : Option ℕ)
    → has (c >>= m) ≡ true
    → has (c >>= put m b (some v)) ≡ true
has-put m b v none h = h
has-put m b v (some c) h = ground arith

module _ {D : Type 0} where
  -- The pointer that the handler of a file of this type follows leads to an object.
  abbrev pub has_target : System D → FileType → Object → Bool
  has_target s pipe o = has (o.pipe >>= s.pipes)
  has_target s ppipe o = has (o.ppipe >>= s.ppipes)
  has_target s _ o = true

  abbrev pub is_sound : System D → Option Object → Bool
  is_sound s none = false
  is_sound s (some o) = has_target s o.file.type o

  -- The descriptor is closed, or it names a file object whose handler can run.
  abbrev pub is_ready : System D → Option ℕ → Bool
  is_ready s none = true
  is_ready s (some a) = is_sound s (s.files a)

  abbrev pub are_ready : System D → List (Option ℕ) → Bool
  are_ready s [] = true
  are_ready s (x ∷ xs) = is_ready s x && are_ready s xs

  -- A step returns, changes no file object, and leaves every pointer with a target.
  record Handled (s : System D) (call : Option (Reply × System D)) : Type 0 where
    reply : Reply
    system : System D
    returns : call ≡ some (reply, system)
    files : system.files ≡ s.files
    kept : (y : FileType) (o : Object) → has_target s y o ≡ true → has_target system y o ≡ true

  idle_handler : (ret : Reply) (s : System D) → Handled s (some (ret, s))
  idle_handler ret s = record {
    reply = ret;
    system = s;
    returns = refl;
    files = refl;
    kept = λ y o h. h;
  }

  pipe_kept :
      (s : System D) (b : ℕ) (p : PipeInfo) (y : FileType) (o : Object)
      → has_target s y o ≡ true
      → has_target (record s { pipes = put s.pipes b (some p) }) y o ≡ true
  pipe_kept s b p stdin o h = refl
  pipe_kept s b p stdout o h = refl
  pipe_kept s b p stderr o h = refl
  pipe_kept s b p regular o h = refl
  pipe_kept s b p pipe o h = has-put s.pipes b p o.pipe h
  pipe_kept s b p ppipe o h = h

  ppipe_kept :
      (s : System D) (b : ℕ) (p : PpipeInfo) (y : FileType) (o : Object)
      → has_target s y o ≡ true
      → has_target (record s { ppipes = put s.ppipes b (some p) }) y o ≡ true
  ppipe_kept s b p stdin o h = refl
  ppipe_kept s b p stdout o h = refl
  ppipe_kept s b p stderr o h = refl
  ppipe_kept s b p regular o h = refl
  ppipe_kept s b p pipe o h = h
  ppipe_kept s b p ppipe o h = has-put s.ppipes b p o.ppipe h

  fork_handler-Handled :
      (y : FileType) (child : Context) (o : Object) (ret : Reply) (s : System D)
      → has_target s y o ≡ true
      → Handled s (fork_handler y child o ret s)
  fork_handler-Handled stdin child o ret s h = idle_handler ret s
  fork_handler-Handled stdout child o ret s h = idle_handler ret s
  fork_handler-Handled stderr child o ret s h = idle_handler ret s
  fork_handler-Handled regular child o ret s h = idle_handler ret s
  fork_handler-Handled pipe child o ret s h = elim (Option-cases o.pipe) [
    | inl n ↦ absurd (ground arith)
    | inr (b, e) ↦
        let (p, f) = has-some (s.pipes b) (rw e at h) in
        let p' = (do_pipe_fork child p).1 in
        record {
          reply = (do_pipe_fork child p).0;
          system = record s { pipes = put s.pipes b (some p') };
          returns = rw (e, f) refl;
          files = refl;
          kept = pipe_kept s b p';
        }
  ]
  fork_handler-Handled ppipe child o ret s h = elim (Option-cases o.ppipe) [
    | inl n ↦ absurd (ground arith)
    | inr (b, e) ↦
        let (p, f) = has-some (s.ppipes b) (rw e at h) in
        let p' = (do_ppipe_fork child p).1 in
        record {
          reply = (do_ppipe_fork child p).0;
          system = record s { ppipes = put s.ppipes b (some p') };
          returns = rw (e, f) refl;
          files = refl;
          kept = ppipe_kept s b p';
        }
  ]

  -- The system after a round: a descriptor that was ready is ready still.
  record Round (s : System D) (call : Option (Reply × System D)) : Type 0 where
    reply : Reply
    system : System D
    returns : call ≡ some (reply, system)
    kept : (x : Option ℕ) → is_ready s x ≡ true → is_ready system x ≡ true

  target_ref :
      (a : ℕ) (p o o' : Object) (s : System D) (y : FileType)
      → o'.pipe ≡ o.pipe
      → o'.ppipe ≡ o.ppipe
      → has_target s y o ≡ true
      → has_target (add_ref a p s) y o' ≡ true
  target_ref a p o o' s stdin e f h = refl
  target_ref a p o o' s stdout e f h = refl
  target_ref a p o o' s stderr e f h = refl
  target_ref a p o o' s regular e f h = refl
  target_ref a p o o' s pipe e f h = rw e h
  target_ref a p o o' s ppipe e f h = rw f h

  sound_ref :
      (a : ℕ) (o : Object) (s : System D) (m : Option Object)
      → is_sound s m ≡ true
      → is_sound (add_ref a o s) m ≡ true
  sound_ref a o s none h = h
  sound_ref a o s (some q) h = target_ref a o q q s q.file.type refl refl h

  add_ref-is_ready :
      (a : ℕ) (o : Object) (s : System D)
      → s.files a ≡ some o
      → (x : Option ℕ) → is_ready s x ≡ true
      → is_ready (add_ref a o s) x ≡ true
  add_ref-is_ready a o s e none h = refl
  add_ref-is_ready a o s e (some b) h = elim (Bool-cases (b == a)) [
    | inl y ↦
        let y' : b ≡ a = ground arith in
        let g = rw (y', e) at h in rw y (target_ref a o o _ s o.file.type refl refl g)
    | inr y ↦ rw y (sound_ref a o s (s.files b) h)
  ]

  sound_kept :
      (s s' : System D) (m : Option Object)
      → ((y : FileType) (o : Object) → has_target s y o ≡ true → has_target s' y o ≡ true)
      → is_sound s m ≡ true
      → is_sound s' m ≡ true
  sound_kept s s' none k h = h
  sound_kept s s' (some o) k h = k o.file.type o h

  ready_kept :
      (s s' : System D) (x : Option ℕ)
      → ((y : FileType) (o : Object) → has_target s y o ≡ true → has_target s' y o ≡ true)
      → s'.files ≡ s.files
      → is_ready s x ≡ true
      → is_ready s' x ≡ true
  ready_kept s s' none k f h = refl
  ready_kept s s' (some a) k f h = rw f (sound_kept s s' (s.files a) k h)

  fork_file-Round :
      (child : Context) (x : Option ℕ) (ret : Reply) (s : System D)
      → is_ready s x ≡ true
      → Round s (fork_file child x ret s)
  unfolding fork_file
  fork_file-Round child none ret s h = record {
    reply = ret;
    system = s;
    returns = refl;
    kept = λ x k. k;
  }
  fork_file-Round child (some a) ret s h = elim (Option-cases (s.files a)) [
    | inl n ↦ absurd (ground arith)
    | inr (o, e) ↦
        let g = rw e at h in
        let r =
          fork_handler-Handled o.file.type child o ret (add_ref a o s)
            (target_ref a o o o s o.file.type refl refl g) in
        record {
          reply = r.reply;
          system = r.system;
          returns = rw e r.returns;
          kept = λ x k.
              ready_kept (add_ref a o s) r.system x r.kept r.files (add_ref-is_ready a o s e x k);
        }
  ]

  all_kept :
      (s s' : System D) (xs : List (Option ℕ))
      → ((x : Option ℕ) → is_ready s x ≡ true → is_ready s' x ≡ true)
      → are_ready s xs ≡ true
      → are_ready s' xs ≡ true
  all_kept s s' [] k h = refl
  all_kept s s' (x ∷ xs) k h = let kx = k x in let rest = all_kept s s' xs k in ground arith

  pub fork_files-returns :
      (child : Context) (xs : List (Option ℕ)) (ret : Reply) (s : System D)
      → are_ready s xs ≡ true
      → (r : Reply) × (s' : System D) × (fork_files child xs ret s ≡ some (r, s'))
  unfolding fork_files
  fork_files-returns child [] ret s h = (ret, s, refl)
  fork_files-returns child (x ∷ xs) ret s h =
      let one = fork_file-Round child x ret s (ground arith) in
      let (r, s', e) =
        fork_files-returns child xs one.reply one.system
          (all_kept s one.system xs one.kept (ground arith)) in
      (r, s', rw one.returns e)
