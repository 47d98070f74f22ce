-- ===== src/Keyboard/Buffer.antt =====
-- The ring buffer of src/io/keyboard.cpp as a queue of at most 63 characters.
use retux.Prelude.{
  ℕ, zero, suc, ◌+◌, ◌-◌, ◌%◌, ◌<◌, ◌≡◌, ◌≢◌, refl, ap, ◌==◌, if◌then◌else◌, true, false, ◌||◌, ◌↔◌,
  List, [], ◌∷◌, ◌++◌, arith, length, update, Bool-cases, inl, inr, if-elim, ==_iff,
}
use retux.Keyboard.{Keyboard, buffer_size, push_char, getchar}

-- The `n` characters from index `i` on, going round at 64.
abbrev pub window : (ℕ → ℕ) → ℕ → ℕ → List ℕ
window b i zero = []
window b i (suc n) = b i ∷ window b ((i + 1) % buffer_size) n

unfoldable pub count : Keyboard → ℕ
count k = (k.head + buffer_size - k.tail) % buffer_size

-- What has been typed and not yet read, oldest first.
abbrev pub contents : Keyboard → List ℕ
contents k = window k.buffer k.tail (count k)

abbrev pub AllNonzero : List ℕ → Type 0
AllNonzero [] = Unit {0}
AllNonzero (c ∷ cs) = (c ≢ 0) × AllNonzero cs

pub record IsValid (k : Keyboard) : Type 0 where
  pub head_in : k.head < buffer_size
  pub tail_in : k.tail < buffer_size
  pub typed : AllNonzero (contents k)

length-window : (b : ℕ → ℕ) (i n : ℕ) → length (window b i n) ≡ n
length-window b i zero = refl
length-window b i (suc n) = ap suc (length-window b ((i + 1) % buffer_size) n)

-- Writing at the end of a window that does not fill the buffer extends it.
window-update :
    (b : ℕ → ℕ) (i j n c : ℕ)
    → i < buffer_size
    → n < buffer_size - 1
    → j ≡ (i + n) % buffer_size
    → window (update b j c) i (suc n) ≡ window b i n ++ c ∷ []
window-update b i j zero c hi hn e = ground arith
window-update b i j (suc n) c hi hn e =
    ground (arith, window-update b ((i + 1) % buffer_size) j n c)

AllNonzero-append : (xs : List ℕ) (c : ℕ) → c ≢ 0 → AllNonzero xs → AllNonzero (xs ++ c ∷ [])
AllNonzero-append [] c h a = (h, tt)
AllNonzero-append (x ∷ xs) c h a = (a.0, AllNonzero-append xs c h a.1)

window_of_pos :
    (b : ℕ → ℕ) (i n : ℕ) → n ≢ 0 → window b i n ≡ b i ∷ window b ((i + 1) % buffer_size) (n - 1)
window_of_pos b i zero h = absurd (h refl)
window_of_pos b i (suc n) h = ap (λ k. window b i (suc k)) (omega arith)

count_of_full :
    (k : Keyboard)
    → IsValid k
    → ((k.head + 1) % buffer_size == k.tail) ≡ true
    → (count k == buffer_size - 1) ≡ true
unfolding count
count_of_full k v full = ground arith

count_of_room :
    (k : Keyboard)
    → IsValid k
    → ((k.head + 1) % buffer_size == k.tail) ≡ false
    → (count k == buffer_size - 1) ≡ false
unfolding count
count_of_room k v room = ground arith

abbrev pushed : Keyboard → ℕ → Keyboard
pushed k c = record k { buffer = update k.buffer k.head c; head = (k.head + 1) % buffer_size }

contents-pushed :
    (k : Keyboard) (c : ℕ)
    → IsValid k
    → (k.head + 1) % buffer_size ≢ k.tail
    → contents (pushed k c) ≡ contents k ++ c ∷ []
unfolding count
contents-pushed k c v room =
    let n : ℕ = (k.head + buffer_size - k.tail) % buffer_size in
    let e : ((k.head + 1) % buffer_size + buffer_size - k.tail) % buffer_size ≡ suc n =
      omega arith in
    rw e (window-update k.buffer k.tail k.head n c v.tail_in (omega arith) (omega arith))

pushed-IsValid :
    (k : Keyboard) (c : ℕ)
    → c ≢ 0
    → (k.head + 1) % buffer_size ≢ k.tail
    → IsValid k
    → IsValid (pushed k c)
pushed-IsValid k c h room v = record {
  head_in = omega arith;
  tail_in = v.tail_in;
  typed = rw (contents-pushed k c v room) (AllNonzero-append (contents k) c h v.typed);
}

-- Push_char keeps the ring valid; it drops NUL and any character that comes when 63 wait, and puts
-- every other at the end of the queue.
pub push_char_lem :
    (k : Keyboard) (c : ℕ)
    → IsValid k
    → IsValid (push_char k c)
      × (contents (push_char k c)
          ≡ (if c == 0 || count k == buffer_size - 1 then contents k else contents k ++ c ∷ []))
unfolding push_char
push_char_lem k c v =
    let result =
      if c == 0 || count k == buffer_size - 1 then contents k else contents k ++ c ∷ [] in
    (
      if-elim IsValid (c == 0) (λ _. v)
          (λ char.
            if-elim IsValid ((k.head + 1) % buffer_size == k.tail) (λ _. v)
              (λ room. pushed-IsValid k c (λ z. ground arith) (λ z. ground arith) v)),
      if-elim (λ q. contents q ≡ result) (c == 0) (λ nul. simp nul)
          (λ char.
            if-elim (λ q. contents q ≡ result) ((k.head + 1) % buffer_size == k.tail)
              (λ full. simp (char, count_of_full k v full))
              (λ room.
                simp (char, count_of_room k v room) (contents-pushed k c v (λ z. ground arith)))),
    )

get_next : Keyboard → Keyboard
get_next k = record k { tail = (k.tail + 1) % buffer_size }

contents-get_next :
    (k : Keyboard)
    → IsValid k
    → k.head ≢ k.tail
    → contents k ≡ k.buffer k.tail ∷ contents (get_next k)
unfolding count get_next
contents-get_next k v some_left =
    let n : ℕ = (k.head + buffer_size - k.tail) % buffer_size in
    let e : (k.head + buffer_size - (k.tail + 1) % buffer_size) % buffer_size ≡ n - 1 =
      omega arith in
    rw e (window_of_pos k.buffer k.tail n (omega arith))

count_zero : (k : Keyboard) → IsValid k → k.head ≡ k.tail → count k ≡ 0
unfolding count
count_zero k v h = omega arith

get_next-IsValid : (k : Keyboard) → IsValid k → k.head ≢ k.tail → IsValid (get_next k)
unfolding get_next
get_next-IsValid k v h = record {
  head_in = v.head_in;
  tail_in = omega arith;
  typed = (rw (contents-get_next k v h) at v.typed).1;
}

-- From a valid ring getchar returns 0 exactly when nothing waits, takes the oldest character
-- otherwise, and keeps the ring valid.
pub getchar_lem :
    (k : Keyboard)
    → IsValid k
    → IsValid (getchar k).1
      × (((getchar k).0 ≡ 0) ↔ (contents k ≡ []))
      × ((getchar k).0 ≢ 0 → contents k ≡ (getchar k).0 ∷ contents (getchar k).1)
unfolding getchar get_next
getchar_lem k v = elim (Bool-cases (k.head == k.tail)) [
  | inl empty ↦
      let same : k.head ≡ k.tail = (==_iff _ _).0 empty in
      let e : count k ≡ 0 = count_zero k v same in
      let nil : contents k ≡ [] = rw e in
      simp empty (v, (λ _. nil, λ _. refl), λ z. absurd (z refl))
  | inr waiting ↦
      let h : k.head ≢ k.tail = λ z. ground arith in
      let e = contents-get_next k v h in
      let first : k.buffer k.tail ≢ 0 = (rw e at v.typed).0 in
      simp waiting
        (get_next-IsValid k v h, (λ z. absurd (first z), λ z. absurd (ground (arith, e))), λ _. e)
]
