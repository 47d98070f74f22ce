-- ===== src/Fds/Files.antt =====
-- What opening, closing and seeking do to the table of open files of src/cpu/syscall.cpp.
use retux.Prelude.{
  ℕ, zero, suc, ◌+◌, ◌≤◌, ◌<◌, ◌≡◌, ◌≢◌, refl, sym, ap, ◌∙◌, ◌==◌, ltb, if◌then◌else◌, false, ◌⊎◌,
  inl, inr, none, some, arith, update, Bool-cases, ==_iff,
}
use retux.Prelude.Int.{ℤ, pos, negsuc, neg, is_neg, ◌+ℤ◌, pos_part}
use retux.Fds.{
  Process, max_fds, alloc_fd_from, alloc_fd, real_file, sys_openat, sys_close, seek_base, sys_lseek,
  kfree, emfile,
}

used_from :
    (p : Process) (i j : ℕ)
    → (p.fds i == 0) ≡ false
    → i ≤ j
    → (i + 1 ≤ j → p.fds j ≢ 0)
    → p.fds j ≢ 0
used_from p i j used lo above z = elim (Bool-cases (j == i)) [
  | inl e ↦ ground (arith, used, z, ap p.fds ((==_iff j i).0 e))
  | inr ne ↦ above (ground (arith, lo, ne)) z
]

-- The lowest free number from `i` on is taken, or none is free.
alloc_fd_from_lem :
    (rounds i : ℕ) (p : Process) (f : ℕ)
    → ((alloc_fd_from rounds i p f ≡ none) × ((j : ℕ) → i ≤ j → j < i + rounds → p.fds j ≢ 0))
      ⊎ ((fd : ℕ) × (i ≤ fd)
          × (fd < i + rounds)
          × (p.fds fd ≡ 0)
          × ((j : ℕ) → i ≤ j → j < fd → p.fds j ≢ 0)
          × (alloc_fd_from rounds i p f ≡ some (fd, record p { fds = update p.fds fd f })))
unfolding alloc_fd_from
alloc_fd_from_lem zero i p f = inl (refl, λ j lo hi. absurd (omega (arith, lo, hi)))
alloc_fd_from_lem (suc rounds) i p f = elim (Bool-cases (p.fds i == 0)) [
  | inl free ↦ inr (
    i,
    omega arith,
    omega arith,
    (==_iff (p.fds i) 0).0 free,
    λ j lo hi. absurd (omega (arith, lo, hi)),
    rw free refl,
  )
  | inr used ↦ elim (alloc_fd_from_lem rounds (i + 1) p f) [
    | inl (e, all_used) ↦
        inl (rw used e, λ j lo hi. used_from p i j used lo (λ a. all_used j a (omega (arith, hi))))
    | inr (fd, lo, hi, free, below, e) ↦ inr (
      fd,
      omega (arith, lo),
      omega (arith, hi),
      free,
      (λ j a b. used_from p i j used a (λ c. below j c b)),
      rw used e,
    )
  ]
]

-- Opening a file that is not null takes the lowest free number from 3 on and changes no other;
-- with none free it gives EMFILE and frees the file.
pub sys_openat_lem :
    (p : Process) (f : ℕ)
    → f ≢ 0
    → ((sys_openat p f ≡ (neg emfile, kfree p f)) × ((j : ℕ) → 3 ≤ j → j < max_fds → p.fds j ≢ 0))
      ⊎ ((fd : ℕ) × (3 ≤ fd)
          × (fd < max_fds)
          × (p.fds fd ≡ 0)
          × ((j : ℕ) → 3 ≤ j → j < fd → p.fds j ≢ 0)
          × (sys_openat p f ≡ (pos fd, record p { fds = update p.fds fd f })))
unfolding sys_openat alloc_fd
sys_openat_lem p f real =
    let found : (f == 0) ≡ false = ground (arith, real) in
    elim (alloc_fd_from_lem 13 3 p f) [
      | inl (e, all_used) ↦ inl (rw (found, e) refl, all_used)
      | inr (fd, lo, hi, free, below, e) ↦ inr (fd, lo, hi, free, below, rw (found, e) refl)
    ]

-- While a number is free, a file that is not null and is opened and closed again leaves the table
-- as it was and frees the file and nothing else.
pub sys_close-sys_openat :
    (p : Process) (f j : ℕ)
    → f ≢ 0
    → 3 ≤ j
    → j < max_fds
    → p.fds j ≡ 0
    → (fd : ℕ) × (p' p'' : Process) × (sys_openat p f ≡ (pos fd, p'))
      × (real_file p' fd ≡ f)
      × (sys_close p' fd ≡ (pos 0, p''))
      × ((q : ℕ) → p''.fds q ≡ p.fds q)
      × ((q : ℕ) → p''.allocated q ≡ (if f == q then false else p.allocated q))
unfolding sys_close real_file
sys_close-sys_openat p f j real lo hi free = elim (sys_openat_lem p f real) [
  | inl (_, all_used) ↦ absurd (all_used j lo hi free)
  | inr (fd, lo', hi', free', _, e) ↦
      let p' : Process = record p { fds = update p.fds fd f } in
      let p'' : Process = record (kfree p' f) { fds = update p'.fds fd 0 } in
      let there : real_file p' fd ≡ f = ground (arith, lo', hi') in
      let found : (f == 0) ≡ false = ground (arith, real) in
      (
        fd,
        p',
        p'',
        e,
        there,
        rw (there, found) refl,
        λ q. ground (arith, free', ap p.fds {x = fd} {y = q}),
        λ q. refl,
      )
]

-- The file of a number, moved to an offset.
abbrev sought : Process → ℕ → ℕ → Process
sought p fd n = record p {
  files = update p.files (real_file p fd) (record (p.files (real_file p fd)) { offset = n });
}

sys_lseek-done :
    (p : Process) (fd : ℕ) (offset : ℤ) (whence base : ℕ)
    → real_file p fd ≢ 0
    → seek_base (p.files (real_file p fd)) whence ≡ some base
    → is_neg (pos base +ℤ offset) ≡ false
    → sys_lseek p fd offset whence
      ≡ (pos base +ℤ offset, sought p fd (pos_part (pos base +ℤ offset)))
unfolding sys_lseek
sys_lseek-done p fd offset whence base real b up =
    let found : (real_file p fd == 0) ≡ false = ground (arith, real) in rw (found, b, up) refl

pos-pos_part : (z : ℤ) → is_neg z ≡ false → pos (pos_part z) ≡ z
pos-pos_part (pos n) up = refl
pos-pos_part (negsuc n) up = absurd (ground (arith, up))

ltb-zero_right : (n : ℕ) → ltb n 0 ≡ false
ltb-zero_right n = ground arith

pos-zero_right : (n : ℕ) → pos n +ℤ pos 0 ≡ pos n
unfolding ◌+ℤ◌
pos-zero_right n = ground arith

seek_base-sought :
    (p : Process) (fd n : ℕ) → seek_base ((sought p fd n).files (real_file p fd)) 1 ≡ some n
unfolding seek_base
seek_base-sought p fd n = ground arith

real_file-sought : (p : Process) (fd n : ℕ) → real_file (sought p fd n) fd ≡ real_file p fd
unfolding real_file
real_file-sought p fd n = refl

-- After a seek on an open file to a place that is not negative, a seek by 0 from the current place
-- reports the place that was sought.
pub sys_lseek-sys_lseek :
    (p : Process) (fd : ℕ) (offset : ℤ) (whence base : ℕ)
    → real_file p fd ≢ 0
    → seek_base (p.files (real_file p fd)) whence ≡ some base
    → is_neg (pos base +ℤ offset) ≡ false
    → ((sys_lseek p fd offset whence).0 ≡ pos base +ℤ offset)
      × ((sys_lseek (sys_lseek p fd offset whence).1 fd (pos 0) 1).0 ≡ pos base +ℤ offset)
sys_lseek-sys_lseek p fd offset whence base real b up =
    let n = pos_part (pos base +ℤ offset) in
    let p1 = sought p fd n in
    let first = sys_lseek-done p fd offset whence base real b up in
    let same = real_file-sought p fd n in
    let second : (sys_lseek p1 fd (pos 0) 1).0 ≡ pos n +ℤ pos 0 =
      ap (λ r. r.0)
        (sys_lseek-done p1 fd (pos 0) 1 n (λ e. real (sym same ∙ e))
          (ap (λ f. seek_base (p1.files f) 1) same ∙ seek_base-sought p fd n)
          (ap is_neg (pos-zero_right n) ∙ ltb-zero_right n)) in
    (
      ap (λ r. r.0) first,
      ap (λ r. (sys_lseek r.1 fd (pos 0) 1).0) first
          ∙ second
          ∙ pos-zero_right n
          ∙ pos-pos_part (pos base +ℤ offset) up,
    )
