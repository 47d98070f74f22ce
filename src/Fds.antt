-- ===== src/Fds.antt =====
-- The table of open files in src/cpu/syscall.cpp: `alloc_fd`, `real_file`, `sys_openat`, `sys_close`
-- and `sys_lseek`. A pointer is a number and null is 0. What `vfs::open` returns is an argument. A
-- result below zero is an error number.
pub mod Files
mod Examples
use retux.Prelude.{
  ℕ, zero, suc, ◌+◌, ◌==◌, ltb, leb, if◌then◌else◌, Bool, true, false, ◌||◌, Option, none, some,
  update,
}
use retux.Prelude.Int.{ℤ, pos, ◌+ℤ◌, is_neg, pos_part, neg}

abbrev pub max_fds : ℕ
max_fds = 16

-- The offset and the size of the inode, of each open file.
pub record File : Type 0 where
  pub offset : ℕ
  pub size : ℕ

pub record Process : Type 0 where
  pub fds : ℕ → ℕ
  pub files : ℕ → File
  pub allocated : ℕ → Bool

abbrev pub enoent : ℕ
enoent = 2

abbrev pub ebadf : ℕ
ebadf = 9

abbrev pub einval : ℕ
einval = 22

abbrev pub emfile : ℕ
emfile = 24

-- `for (i = 3; i < MAX_FDS; ++i)`; `none` is -EMFILE.
pub alloc_fd_from : ℕ → ℕ → Process → ℕ → Option (ℕ × Process)
alloc_fd_from zero i p f = none
alloc_fd_from (suc rounds) i p f =
    let rest = alloc_fd_from rounds (i + 1) p f in
    if p.fds i == 0 then some (i, record p { fds = update p.fds i f }) else rest

pub alloc_fd : Process → ℕ → Option (ℕ × Process)
alloc_fd p f = alloc_fd_from 13 3 p f

pub real_file : Process → ℕ → ℕ
real_file p fd = if ltb fd 3 || leb max_fds fd then 0 else p.fds fd

abbrev pub kfree : Process → ℕ → Process
kfree p f = record p { allocated = update p.allocated f false }

-- `f` is what `vfs::open` returned for the path.
pub sys_openat : Process → ℕ → ℤ × Process
sys_openat p f =
    if f == 0
    then (neg enoent, p)
    else elim (alloc_fd p f) [ none ↦ (neg emfile, kfree p f) | some (fd, p') ↦ (pos fd, p') ]

pub sys_close : Process → ℕ → ℤ × Process
sys_close p fd =
    let f = real_file p fd in
    if f == 0 then (neg ebadf, p) else (pos 0, record (kfree p f) { fds = update p.fds fd 0 })

-- SEEK_SET, SEEK_CUR and SEEK_END are 0, 1 and 2.
pub seek_base : File → ℕ → Option ℕ
seek_base f whence =
    if whence == 0
    then some 0
    else if whence == 1
    then some f.offset
    else if whence == 2
    then some f.size
    else none

pub sys_lseek : Process → ℕ → ℤ → ℕ → ℤ × Process
sys_lseek p fd offset whence =
    let f = real_file p fd in
    if f == 0 then (neg ebadf, p) else elim (seek_base (p.files f) whence) [
      | none ↦ (neg einval, p)
      | some base ↦
          let result = pos base +ℤ offset in
          if is_neg result then (neg einval, p) else (
            result,
            record p { files = update p.files f (record (p.files f) { offset = pos_part result }) },
          )
    ]
