-- ===== src/Socket/Slices.antt =====
-- Pieces of a byte stream, and how they are cut and joined.
use mikos.Prelude.{
  ℕ, zero, suc, ◌+◌, ◌≤◌, ◌≡◌, refl, sym, ap, ◌∙◌, List, [], ◌∷◌, ◌++◌, append_assoc, Bool, false,
  not, ◌&&◌, ◌==◌, leb, arith, length, length-take, length-drop, take, drop, take-append-drop,
}

module _ {A : Type 0} where
  drop-nil : (k : ℕ) → drop {A = A} k [] ≡ []
  drop-nil zero = refl
  drop-nil (suc k) = refl

  pub drop-add : (m n : ℕ) (xs : List A) → drop (m + n) xs ≡ drop n (drop m xs)
  drop-add zero n xs = ap (λ (k : ℕ). drop k xs) (omega arith)
  drop-add (suc m) n [] = drop-nil (suc m + n) ∙ sym (drop-nil n)
  drop-add (suc m) n (x ∷ xs) =
      let next : suc m + n ≡ suc (m + n) = omega arith in
      ap (λ (k : ℕ). drop k (x ∷ xs)) next ∙ drop-add m n xs

  pub drop-append_le :
      (k : ℕ) (xs ys : List A) → k ≤ length xs → drop k (xs ++ ys) ≡ drop k xs ++ ys
  drop-append_le zero xs ys h = refl
  drop-append_le (suc k) [] ys h = absurd (omega arith)
  drop-append_le (suc k) (x ∷ xs) ys h = drop-append_le k xs ys (omega arith)

  pub take_all : (k : ℕ) (xs : List A) → length xs ≤ k → take k xs ≡ xs
  take_all zero [] h = refl
  take_all zero (x ∷ xs) h = absurd (omega arith)
  take_all (suc k) [] h = refl
  take_all (suc k) (x ∷ xs) h = ap (◌∷◌ x) (take_all k xs (omega arith))

-- `bytes` are those of the stream from `off` on; the end is set only where they reach its end.
pub record Piece (stream : List ℕ) (off : ℕ) (bytes : List ℕ) (finish : Bool) : Type 0 where
  pub rest : List ℕ
  pub fits : drop off stream ≡ bytes ++ rest
  pub within : off + length bytes ≤ length stream
  pub ends : (finish && not (off + length bytes == length stream)) ≡ false

module _ (stream : List ℕ) (off : ℕ) (bytes : List ℕ) (finish : Bool) where
  -- The first bytes cut off.
  pub Piece-drop :
      (k : ℕ)
      → k ≤ length bytes
      → Piece stream off bytes finish
      → Piece stream (off + k) (drop k bytes) finish
  Piece-drop k h p = record {
    rest = p.rest;
    fits = drop-add off k stream ∙ ap (drop k) p.fits ∙ drop-append_le k bytes p.rest h;
    within = omega (arith, p.within, length-drop k bytes);
    ends = ground (arith, p.ends, length-drop k bytes);
  }

  -- Only the first bytes kept, and with them the end only if they are all.
  pub Piece-take :
      (k : ℕ) (ends : Bool)
      → (ends && not (finish && leb (length bytes) k)) ≡ false
      → Piece stream off bytes finish
      → Piece stream off (take k bytes) ends
  Piece-take k ends h p = record {
    rest = drop k bytes ++ p.rest;
    fits =
        p.fits
        ∙ ap (λ xs. xs ++ p.rest) (sym (take-append-drop k bytes))
        ∙ append_assoc (take k bytes) (drop k bytes) p.rest;
    within = omega (arith, p.within, length-take k bytes);
    ends = ground (arith, p.ends, length-take k bytes);
  }
