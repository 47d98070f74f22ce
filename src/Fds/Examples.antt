-- ===== src/Fds/Examples.antt =====
-- A process with two open files, and the theorems on its table.
use retux.Prelude.{
  ℕ, ◌≡◌, ◌≢◌, ◌≤◌, ◌<◌, ◌⊎◌, refl, arith, false, ◌==◌, ◌||◌, if◌then◌else◌, update,
}
use retux.Prelude.Int.{pos, neg, negsuc, ◌+ℤ◌}
use retux.Fds.{
  Process, File, max_fds, sys_openat, sys_close, sys_lseek, real_file, kfree, emfile, seek_base,
}
use retux.Fds.Files.{sys_openat_lem, sys_close-sys_openat, sys_lseek-sys_lseek}

abbrev two_files : Process
two_files = record {
  fds = λ q. if q == 3 then 100 else if q == 5 then 200 else 0;
  files = λ f. record { offset = 7; size = 50 };
  allocated = λ f. f == 100 || f == 200;
}

opens_at_4 : (sys_openat two_files 300).0 ≡ pos 4
unfolding sys_openat retux.Fds.alloc_fd retux.Fds.alloc_fd_from
opens_at_4 = refl

sys_openat_lem_run :
    ((sys_openat two_files 300 ≡ (neg emfile, kfree two_files 300))
      × ((j : ℕ) → 3 ≤ j → j < max_fds → two_files.fds j ≢ 0))
    ⊎ ((fd : ℕ) × (3 ≤ fd)
        × (fd < max_fds)
        × (two_files.fds fd ≡ 0)
        × ((j : ℕ) → 3 ≤ j → j < fd → two_files.fds j ≢ 0)
        × (sys_openat two_files 300
            ≡ (pos fd, record two_files { fds = update two_files.fds fd 300 })))
sys_openat_lem_run = sys_openat_lem two_files 300 (omega arith)

sys_close-sys_openat_example :
    (fd : ℕ) × (p' p'' : Process) × (sys_openat two_files 300 ≡ (pos fd, p'))
    × (real_file p' fd ≡ 300)
    × (sys_close p' fd ≡ (pos 0, p''))
    × ((q : ℕ) → p''.fds q ≡ two_files.fds q)
    × ((q : ℕ) → p''.allocated q ≡ (if 300 == q then false else two_files.allocated q))
sys_close-sys_openat_example =
    sys_close-sys_openat two_files 300 6 (omega arith) (omega arith) (omega arith) refl

sys_lseek-sys_lseek_run :
    ((sys_lseek two_files 5 (negsuc 9) 2).0 ≡ pos 50 +ℤ negsuc 9)
    × ((sys_lseek (sys_lseek two_files 5 (negsuc 9) 2).1 5 (pos 0) 1).0 ≡ pos 50 +ℤ negsuc 9)
unfolding real_file seek_base ◌+ℤ◌
sys_lseek-sys_lseek_run = sys_lseek-sys_lseek two_files 5 (negsuc 9) 2 50 (omega arith) refl refl
