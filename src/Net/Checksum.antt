-- ===== src/Net/Checksum.antt =====
-- The Internet checksum: a sum with end-around carries. Bytes that carry their own checksum have the
-- checksum 0.
use mikos.Prelude.{
  if_intro, ℕ, ◌+◌, ◌-◌, ◌*◌, ◌/◌, ◌%◌, ◌^◌, ◌≤◌, ◌<◌, ◌≡◌, ap, ◌∙◌, List, [], ◌∷◌, if◌then◌else◌,
  ◌==◌, arith, length, u32,
}
use mikos.Slots.{All}
use mikos.Net.{IsByte, checksum_add, fold_carries, checksum_finish}

-- The sum of the 16-bit words of some bytes.
unfoldable pub sum16 : List ℕ → ℕ
sum16 [] = 0
sum16 (a ∷ []) = a * 256
sum16 (a ∷ b ∷ bytes) = a * 256 + b + sum16 bytes

-- For fewer than 2^16 bytes, nothing wraps around.
pub checksum_add_lem :
    (sum : ℕ) (bytes : List ℕ)
    → All IsByte bytes
    → sum + 65536 * length bytes < 2 ^ 32
    → checksum_add sum bytes ≡ sum + sum16 bytes
unfolding checksum_add sum16
checksum_add_lem sum [] all short = omega arith
checksum_add_lem sum (a ∷ []) all short = let byte = all.0 in omega (arith, byte, short)
checksum_add_lem sum (a ∷ b ∷ bytes) all short =
    let here = all.0 in
    let next = all.1.0 in
    let exact : u32 (sum + (a * 256 + b)) ≡ sum + (a * 256 + b) =
      omega (arith, here, next, short) in
    ap (λ s. checksum_add s bytes) exact
    ∙ checksum_add_lem (sum + (a * 256 + b)) bytes all.1.1 (omega (arith, here, next, short))
    ∙ omega arith

-- Adding the carries keeps the sum but for multiples of 65535, and makes 0 only of 0.
record Folded (sum result : ℕ) : Type 0 where
  folds : ℕ
  rest : sum ≡ result + 65535 * folds
  small : result ≤ 65535
  positive : 0 < sum → 0 < result

fold_carries_lem : (sum : ℕ) → sum < 2 ^ 32 → Folded sum (fold_carries 2 sum)
unfolding fold_carries
fold_carries_lem sum short =
    if_intro (Folded sum) (sum / 65536 == 0) sum
      (if once / 65536 == 0 then once else once % 65536 + once / 65536)
      (λ none. record {
        folds = 0;
        rest = omega arith;
        small = ground (arith, none);
        positive = λ p. p;
      })
      (λ more.
        if_intro (Folded sum) (once / 65536 == 0) once (once % 65536 + once / 65536)
          (λ none. record {
            folds = sum / 65536;
            rest = omega arith;
            small = ground (arith, none);
            positive = λ p. ground (arith, more);
          })
          (λ again. record {
            folds = sum / 65536 + 1;
            rest = ground (arith, again, short);
            small = ground (arith, again, short);
            positive = λ p. ground (arith, again, short);
          }))
  where
    once : ℕ
    once = sum % 65536 + sum / 65536

complement :
    (sum f g k l : ℕ)
    → sum ≡ f + 65535 * k
    → f ≤ 65535
    → sum + (65535 - f % 65536) ≡ g + 65535 * l
    → g ≤ 65535
    → (0 < sum + (65535 - f % 65536) → 0 < g)
    → 65535 - g % 65536 ≡ 0
complement sum f g k l a b d e p =
    let c : 0 < sum + (65535 - f % 65536) = omega (arith, a, b) in
    let q = p c in omega (arith, a, b, d, e, q)

-- A sum that its own checksum is added to has the checksum 0.
pub checksum_finish_lem :
    (sum : ℕ) → sum + 65536 < 2 ^ 32 → checksum_finish (sum + checksum_finish sum) ≡ 0
unfolding checksum_finish
checksum_finish_lem sum short =
    let first = fold_carries_lem sum (omega (arith, short)) in
    let last =
      fold_carries_lem (sum + (65535 - fold_carries 2 sum % 65536)) (omega (arith, short)) in
    complement sum (fold_carries 2 sum)
      (fold_carries 2 (sum + (65535 - fold_carries 2 sum % 65536))) first.folds last.folds
      first.rest first.small last.rest last.small last.positive

pub sum16-bound : (bytes : List ℕ) → All IsByte bytes → sum16 bytes ≤ 65536 * length bytes
unfolding sum16
sum16-bound [] all = omega arith
sum16-bound (a ∷ []) all = let byte = all.0 in omega (arith, byte)
sum16-bound (a ∷ b ∷ bytes) all =
    let here = all.0 in let next = all.1.0 in omega (arith, here, next, sum16-bound bytes all.1.1)

-- Bytes that differ from others only in that they carry the checksum of these, and so sum up to that
-- much more, have the checksum 0.
pub checksum_add-checksum_finish :
    (seed : ℕ) (whole blank : List ℕ)
    → All IsByte whole
    → All IsByte blank
    → seed + 65536 * length whole < 2 ^ 32
    → seed + 65536 * length blank + 65536 < 2 ^ 32
    → sum16 whole ≡ sum16 blank + checksum_finish (checksum_add seed blank)
    → checksum_finish (checksum_add seed whole) ≡ 0
checksum_add-checksum_finish seed whole blank bytes others short room more =
    let plain = checksum_add_lem seed blank others (omega (arith, room)) in
    let bound = sum16-bound blank others in
    let whole_sum : checksum_add seed whole
        ≡ seed + sum16 blank + checksum_finish (seed + sum16 blank) =
      checksum_add_lem seed whole bytes short
      ∙ omega (arith, more ∙ ap (λ s. sum16 blank + checksum_finish s) plain) in
    ap checksum_finish whole_sum
    ∙ checksum_finish_lem (seed + sum16 blank) (omega (arith, room, bound))
