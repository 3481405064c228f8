-- ===== src/Ring/Window.antt =====
-- The bytes that lie round a ring from an index on, and what the copying loops do to them.
use mathlib.Core.Path.{ap₂}
use native.Mathlib.Nat.{mod-add-mod, add-zero, add_assoc, mod-lt}
use mikos.Prelude.{
  ℕ, zero, suc, ◌+◌, ◌%◌, ◌^◌, ◌≤◌, ◌<◌, ◌≡◌, ◌≢◌, refl, sym, ap, ◌∙◌, List, [], ◌∷◌, ◌++◌, arith,
  u32, get_or, set, take, drop, drop-cons, length, length-set, get_or-set_self, get_or-set_ne,
  mod-add-ne,
}
use mikos.Ring.{write_loop, read_loop}

module _ (capacity : ℕ) (bytes : List ℕ) where
  -- The byte at index `k`, counted round the ring.
  abbrev pub peek : ℕ → ℕ
  peek k = get_or bytes (k % capacity) 0

  -- The `n` bytes from index `k` on.
  abbrev pub window : ℕ → ℕ → List ℕ
  window k zero = []
  window k (suc n) = peek k ∷ window (k + 1) n

  pub length-window : (k n : ℕ) → length (window k n) ≡ n
  length-window k zero = refl
  length-window k (suc n) = ap suc (length-window (k + 1) n)

  pub window-add : (k m n : ℕ) → window k (m + n) ≡ window k m ++ window (k + m) n
  window-add k zero n = ap₂ window (omega arith) (omega arith)
  window-add k (suc m) n =
      let e : suc m + n ≡ suc (m + n) = omega arith in
      let f : k + 1 + m ≡ k + suc m = omega arith in
      ap (window k) e
      ∙ ap (◌∷◌ (peek k)) (window-add (k + 1) m n ∙ ap (λ j. window (k + 1) m ++ window j n) f)

  -- An index counts as its remainder.
  pub window-mod : (k j n : ℕ) → window (k % capacity + j) n ≡ window (k + j) n
  window-mod k j zero = refl
  window-mod k j (suc n) =
      ap₂ ◌∷◌ (ap (λ i. get_or bytes i 0) (mod-add-mod k capacity j))
        (rw (add_assoc (k % capacity) j 1, add_assoc k j 1) (window-mod k (j + 1) n))

-- Two windows are equal where they are equal byte by byte.
pub window_ext :
    (capacity : ℕ) (xs ys : List ℕ) (k n : ℕ)
    → ((j : ℕ) → j < n → peek capacity xs (k + j) ≡ peek capacity ys (k + j))
    → window capacity xs k n ≡ window capacity ys k n
window_ext capacity xs ys k zero h = refl
window_ext capacity xs ys k (suc n) h =
    ap₂ ◌∷◌ (rw add-zero at (h 0 (omega arith)))
      (window_ext capacity xs ys (k + 1) n (λ j hj. rw add_assoc (h (1 + j) (omega arith))))

-- `read` copies out the window at the head.
pub read_loop-window :
    (capacity n head i : ℕ) (bytes : List ℕ)
    → head + i + n ≤ 2 ^ 32
    → read_loop capacity n head i bytes ≡ window capacity bytes (head + i) n
unfolding read_loop
read_loop-window capacity zero head i bytes h = refl
read_loop-window capacity (suc n) head i bytes h =
    ap₂ ◌∷◌ (ap (λ j. get_or bytes (j % capacity) 0) (omega arith)) (
      read_loop-window capacity n head (i + 1) bytes (omega arith)
      ∙ ap (λ j. window capacity bytes j n) (omega arith))

pub length-read_loop :
    (capacity n head i : ℕ) (bytes : List ℕ) → length (read_loop capacity n head i bytes) ≡ n
unfolding read_loop
length-read_loop capacity zero head i bytes = refl
length-read_loop capacity (suc n) head i bytes =
    ap suc (length-read_loop capacity n head (i + 1) bytes)

-- `write` changes no place that it does not come to.
pub write_loop_ne :
    (capacity n start : ℕ) (input : List ℕ) (i : ℕ) (bytes : List ℕ) (k : ℕ)
    → ((j : ℕ) → j < n → (start + (i + j)) % capacity ≢ k)
    → start + i + n ≤ 2 ^ 32
    → get_or (write_loop capacity n start input i bytes) k 0 ≡ get_or bytes k 0
unfolding write_loop
write_loop_ne capacity zero start input i bytes k h b = refl
write_loop_ne capacity (suc n) start input i bytes k h b =
    write_loop_ne capacity n start input (i + 1) _ k
      (λ j hj. rw add_assoc (h (1 + j) (omega arith))) (omega arith)
    ∙ get_or-set_ne bytes (get_or input i 0) 0 (λ e. h 0 (omega arith) (here ∙ e))
  where
    here : (start + (i + 0)) % capacity ≡ u32 (start + i) % capacity
    here = ap (λ j. j % capacity) (omega arith)

pub length-write_loop :
    (capacity n start : ℕ) (input : List ℕ) (i : ℕ) (bytes : List ℕ)
    → length (write_loop capacity n start input i bytes) ≡ length bytes
unfolding write_loop
length-write_loop capacity zero start input i bytes = refl
length-write_loop capacity (suc n) start input i bytes =
    length-write_loop capacity n start input (i + 1) _ ∙ length-set bytes _ _

-- What `write` puts in is the window from the first place on.
pub window-write_loop :
    (capacity n start : ℕ) (input : List ℕ) (i : ℕ) (bytes : List ℕ)
    → 0 < capacity
    → n ≤ capacity
    → length bytes ≡ capacity
    → start + i + n ≤ 2 ^ 32
    → i + n ≤ length input
    → window capacity (write_loop capacity n start input i bytes) (start + i) n
      ≡ take n (drop i input)
unfolding write_loop
window-write_loop capacity zero start input i bytes pos le len b src = refl
window-write_loop capacity (suc n) start input i bytes pos le len b src =
    rw (drop-cons i input 0 (omega arith)) (
      ap₂ ◌∷◌ first (
        ap (λ j. window capacity (write_loop capacity n start input (i + 1) next) j n) (omega arith)
        ∙ window-write_loop capacity n start input (i + 1) next pos (omega arith)
            (length-set bytes _ _ ∙ len) (omega arith) (omega arith)
        ∙ ap (λ j. take n (drop j input)) step))
  where
    step : i + 1 ≡ suc i
    step = omega arith

    here : u32 (start + i) % capacity ≡ (start + i) % capacity
    here = ap (λ j. j % capacity) (omega arith)

    next : List ℕ
    next = set bytes (u32 (start + i) % capacity) (get_or input i 0)

    later : (j : ℕ) → j < n → (start + (i + 1 + j)) % capacity ≢ (start + i) % capacity
    later j hj e =
        mod-add-ne capacity (start + i) (1 + j) (omega arith) (omega arith)
          (ap (λ t. t % capacity) (omega arith) ∙ e)

    first :
        get_or (write_loop capacity n start input (i + 1) next) ((start + i) % capacity) 0
        ≡ get_or input i 0
    first =
        write_loop_ne capacity n start input (i + 1) next _ later (omega arith)
        ∙ ap (λ t. get_or next t 0) (sym here)
        ∙ get_or-set_self bytes _ _ 0 (rw len (mod-lt _ pos))
