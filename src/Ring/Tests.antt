-- ===== src/Ring/Tests.antt =====
-- The ring on concrete bytes, and its theorems at an input.
use mikos.Prelude.{◌-◌, ◌≡◌, refl, [], ◌∷◌, ◌++◌, min, arith, take, length}
use mikos.Ring.{Ring, write, read, write_loop, read_loop}
use mikos.Ring.Refine.{IsCapacity, IsValid, contents, write_lem, read_lem}

-- 8, then 9, round the end of the storage.
abbrev wrapped : Ring
wrapped = record { bytes = 9 ∷ 7 ∷ 8 ∷ []; head = 2; size = 2 }

abbrev three : IsCapacity 3
three = record { positive = omega arith; bounded = omega arith }

abbrev wrapped-IsValid : IsValid 3 wrapped
wrapped-IsValid = record { storage = refl; head_in = omega arith; size_in = omega arith }

write-wrapped :
    write 3 wrapped (5 ∷ 6 ∷ []) 2 ≡ (1, record wrapped { bytes = 9 ∷ 5 ∷ 8 ∷ []; size = 3 })
unfolding write write_loop
write-wrapped = refl

read-wrapped : read 3 wrapped 5 ≡ (2, 8 ∷ 9 ∷ [], record wrapped { head = 1; size = 0 })
unfolding read read_loop
read-wrapped = refl

write_test :
    let (n, r') = write 3 wrapped (5 ∷ 6 ∷ []) 2 in
    (n ≡ min 2 (3 - 2)) × (contents 3 r' ≡ 8 ∷ 9 ∷ take n (5 ∷ 6 ∷ [])) × IsValid 3 r'
write_test = write_lem 3 three wrapped (5 ∷ 6 ∷ []) 2 wrapped-IsValid (omega arith)

read_test :
    let (n, out, r') = read 3 wrapped 1 in
    (n ≡ min 1 2) × (length out ≡ n) × (out ++ contents 3 r' ≡ 8 ∷ 9 ∷ []) × IsValid 3 r'
read_test = read_lem 3 three wrapped 1 wrapped-IsValid
