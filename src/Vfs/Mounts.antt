-- ===== src/Vfs/Mounts.antt =====
-- The table of mounts of src/fs/vfs.cpp.
use retux.Prelude.{
  ℕ, ◌==◌, ltb, ◌<◌, ◌≡◌, ◌↔◌, ◌⊎◌, refl, ap, ◌∙◌, true, false, List, [], ◌∷◌, ◌++◌, length, drop,
  All, arith, Bool-cases, inl, inr,
}
use retux.Strings.{char, strncmp, strlen}
use retux.Strings.Compare.{NulFree, strlen_lem}
use retux.Vfs.{Vfs, under, is_zero, resolve_in, resolve_mount, mount_at}

strncmp-prefix :
    (prefix path : List ℕ)
    → NulFree prefix
    → is_zero (strncmp path prefix (length prefix)) ≡ true
    → path ≡ prefix ++ drop (length prefix) path
unfolding strncmp
strncmp-prefix [] path plain e = refl
strncmp-prefix (p ∷ prefix) [] plain e = absurd (ground (arith, plain.0, e))
strncmp-prefix (p ∷ prefix) (c ∷ path) plain e =
    let heads : c ≡ p = ground (arith, plain.0, e) in
    let rest : is_zero (strncmp path prefix (length prefix)) ≡ true =
      ground (arith, plain.0, e, heads) in
    ap (λ x. x ∷ path) heads ∙ ap (λ l. p ∷ l) (strncmp-prefix prefix path plain.1 rest)

strncmp-append :
    (prefix rel : List ℕ)
    → NulFree prefix
    → is_zero (strncmp (prefix ++ rel) prefix (length prefix)) ≡ true
unfolding strncmp
strncmp-append [] rel plain = refl
strncmp-append (p ∷ prefix) rel plain = ground (arith, plain.0, strncmp-append prefix rel plain.1)

drop-append : (xs ys : List ℕ) → drop (length xs) (xs ++ ys) ≡ ys
drop-append [] ys = refl
drop-append (x ∷ xs) ys = drop-append xs ys

-- A path belongs to a mount exactly if it is the prefix followed by nothing or by a slash; the
-- prefix holds no NUL.
pub under_iff :
    (prefix path : List ℕ)
    → NulFree prefix
    → (under prefix path ≡ true)
      ↔ ((rel : List ℕ) × (path ≡ prefix ++ rel) × ((char rel ≡ b'/') ⊎ (char rel ≡ 0)))
unfolding under
under_iff prefix path plain = rw (strlen_lem prefix plain) (
  λ e.
      let starts : is_zero (strncmp path prefix (length prefix)) ≡ true = ground (arith, e) in
      (
        drop (length prefix) path,
        strncmp-prefix prefix path plain starts,
        (elim (Bool-cases (char (drop (length prefix) path) == b'/')) [
          | inl slash ↦ inl (ground (arith, slash))
          | inr other ↦ inr (ground (arith, e, other))
        ]),
      ),
  λ (rel, e, ends).
      rw (e, strncmp-append prefix rel plain, drop-append prefix rel)
        (elim ends [ inl slash ↦ ground (arith, slash) | inr end ↦ ground (arith, end) ]),
)

resolve_in-last :
    (mounts : List (List ℕ × ℕ)) (root_sb sb : ℕ) (prefix path : List ℕ)
    → All (λ m. under m.0 path ≡ false) mounts
    → under prefix path ≡ true
    → resolve_in (mounts ++ (prefix, sb) ∷ []) root_sb path ≡ (sb, drop (strlen prefix) path)
unfolding resolve_in
resolve_in-last [] root_sb sb prefix path others here = rw here refl
resolve_in-last (m ∷ mounts) root_sb sb prefix path (other, others) here =
    rw other (resolve_in-last mounts root_sb sb prefix path others here)

-- While fewer than 4 file systems are mounted, after mount_at a path below the prefix that no
-- earlier mount claims is resolved against the new superblock, with the prefix taken off.
pub mount_at-resolve :
    (v : Vfs) (prefix rel : List ℕ) (sb : ℕ)
    → length v.mounts < 4
    → NulFree prefix
    → (char rel ≡ b'/') ⊎ (char rel ≡ 0)
    → All (λ m. under m.0 (prefix ++ rel) ≡ false) v.mounts
    → resolve_mount (mount_at v prefix sb) (prefix ++ rel) ≡ (sb, rel)
unfolding resolve_mount mount_at
mount_at-resolve v prefix rel sb room plain ends others =
    let here = (under_iff prefix (prefix ++ rel) plain).1 (rel, refl, ends) in
    let room' : ltb (length v.mounts) 4 ≡ true = ground (arith, room) in
    rw
      (
        room',
        resolve_in-last v.mounts v.root_sb sb prefix (prefix ++ rel) others here,
        strlen_lem prefix plain,
        drop-append prefix rel,
      )
      refl
