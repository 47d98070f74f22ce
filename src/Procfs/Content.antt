-- ===== src/Procfs/Content.antt =====
-- The files of src/fs/procfs.cpp fit in the scratch buffer in which they are written.
use Prim.Native.String.{String}
use retux.Prelude.{
  ℕ, ◌+◌, ◌-◌, ◌*◌, ◌/◌, ◌%◌, ◌^◌, ◌==◌, ltb, ◌≤◌, ◌<◌, ◌≡◌, refl, true, Option, some, List, [],
  ◌∷◌, ◌++◌, length, arith, length-append, Bool-cases, inl, inr,
}
use retux.Pmm.{Pmm, total_frame_count, used_frame_count}
use retux.Procfs.{
  Clocks, bytes, write_dec, write_seconds, uptime_ms, format_uptime, field, format_meminfo,
  format_cpuinfo, render,
}
use retux.Procfs.Numbers.{write_dec_lem}

-- A text of at most `n` bytes is written.
abbrev pub Writes : Option (List ℕ) → ℕ → Type 0
Writes r n = (t : List ℕ) × (r ≡ some t) × (length t ≤ n) × (0 < length t)

write_dec-Writes : (value : ℕ) → value < 2 ^ 64 → Writes (write_dec value) 20
write_dec-Writes value word =
    let (ds, run, _, short, some_digit, _) = write_dec_lem value word in
    (ds, run, short, some_digit)

write_seconds-Writes :
    (secs centi : ℕ) → secs < 2 ^ 64 → centi < 2 ^ 64 → Writes (write_seconds secs centi) 42
unfolding write_seconds
write_seconds-Writes secs centi word word' =
    let (whole, run, short, _) = write_dec-Writes secs word in
    let (part, run', short', _) = write_dec-Writes centi word' in
    elim (Bool-cases (ltb centi 10)) [
      | inl small ↦ (
        whole ++ b'.' ∷ b'0' ∷ part,
        rw (run, run', small) refl,
        omega (arith, length-append whole (b'.' ∷ b'0' ∷ part), short, short'),
        omega (arith, length-append whole (b'.' ∷ b'0' ∷ part)),
      )
      | inr large ↦ (
        whole ++ b'.' ∷ part,
        rw (run, run', large) refl,
        omega (arith, length-append whole (b'.' ∷ part), short, short'),
        omega (arith, length-append whole (b'.' ∷ part)),
      )
    ]

format_uptime-Writes : (c : Clocks) → uptime_ms c < 2 ^ 64 → Writes (format_uptime c) 86
unfolding format_uptime
format_uptime-Writes c word =
    let (t, run, short, some_byte) =
      write_seconds-Writes (uptime_ms c / 1000) (uptime_ms c % 1000 / 10) (omega (arith, word))
        (omega (arith, word)) in
    let behind = length-append t (b'\n' ∷ []) in
    (
      t ++ b' ' ∷ (t ++ b'\n' ∷ []),
      rw run refl,
      omega (arith, length-append t (b' ' ∷ (t ++ b'\n' ∷ [])), behind, short),
      omega (arith, length-append t (b' ' ∷ (t ++ b'\n' ∷ []))),
    )

field-Writes :
    (label : String) (kb : ℕ) → length (bytes label) ≡ 16 → kb < 2 ^ 64 → Writes (field label kb) 40
unfolding field bytes
field-Writes label kb width word =
    let (ds, run, short, some_digit) = write_dec-Writes kb word in
    let all = length-append (bytes label) (ds ++ bytes " kB\n") in
    let end = length-append ds (bytes " kB\n") in
    (
      bytes label ++ (ds ++ bytes " kB\n"),
      rw run refl,
      omega (arith, all, end, short, width),
      omega (arith, all, end, some_digit),
    )

format_meminfo-Writes : (p : Pmm) → Writes (format_meminfo p) 280
unfolding format_meminfo bytes
format_meminfo-Writes p =
    let total_kb = total_frame_count p * 4 % 2 ^ 64 in
    let free_kb = (total_frame_count p + 2 ^ 64 - used_frame_count p) % 2 ^ 64 * 4 % 2 ^ 64 in
    let (a, run_a, short_a, more) = field-Writes "MemTotal:       " total_kb refl (omega arith) in
    let (b, run_b, short_b, _) = field-Writes "MemFree:        " free_kb refl (omega arith) in
    let (c, run_c, short_c, _) = field-Writes "MemAvailable:   " free_kb refl (omega arith) in
    let (d, run_d, short_d, _) = field-Writes "Buffers:        " 0 refl (omega arith) in
    let (e, run_e, short_e, _) = field-Writes "Cached:         " 0 refl (omega arith) in
    let (f, run_f, short_f, _) = field-Writes "SwapTotal:      " 0 refl (omega arith) in
    let (g, run_g, short_g, _) = field-Writes "SwapFree:       " 0 refl (omega arith) in
    let sizes = length-append a (b ++ (c ++ (d ++ (e ++ (f ++ g))))) in
    (
      a ++ (b ++ (c ++ (d ++ (e ++ (f ++ g))))),
      rw (run_a, run_b, run_c, run_d, run_e, run_f, run_g) refl,
      omega (
        arith,
        sizes,
        length-append b (c ++ (d ++ (e ++ (f ++ g)))),
        length-append c (d ++ (e ++ (f ++ g))),
        length-append d (e ++ (f ++ g)),
        length-append e (f ++ g),
        length-append f g,
        short_a,
        short_b,
        short_c,
        short_d,
        short_e,
        short_f,
        short_g,
      ),
      omega (arith, sizes, more),
    )

-- Each of the three files is written within the scratch buffer of 512 bytes, and is not empty; the
-- uptime is below 2^64 ms.
pub render_lem :
    (c : Clocks) (p : Pmm) (ino : ℕ)
    → uptime_ms c < 2 ^ 64
    → 0 < ino
    → ino ≤ 3
    → (t : List ℕ) × (render c p ino ≡ some (some t)) × (length t ≤ 512) × (0 < length t)
unfolding render bytes
render_lem c p ino word real known = elim (Bool-cases (ino == 1)) [
  | inl one ↦
      let (t, run, short, more) = format_uptime-Writes c word in
      (t, rw (one, run) refl, omega (arith, short), more)
  | inr other ↦ (elim (Bool-cases (ino == 2)) [
    | inl two ↦
        let (t, run, short, more) = format_meminfo-Writes p in
        (t, rw (other, two, run) refl, omega (arith, short), more)
    | inr other' ↦
        let three : (ino == 3) ≡ true = ground (arith, other, other', real, known) in
        (format_cpuinfo, rw (other, other', three) refl, omega arith, omega arith)
  ])
]
