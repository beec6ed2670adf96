-- ===== src/Crc/File.antt =====
-- `CalculateFileCrc32` reads the file in chunks; what it returns does not depend on them.
use native.Mathlib.Nat.{le_refl}
use mathlib.Core.Path.{ap₂}
use trftp.Base.{
  ℕ, zero, suc, ◌+◌, ◌<◌, ◌≡◌, refl, ap, ◌∙◌, arith, List, [], ◌∷◌, ◌++◌, some, length, take, drop,
  take_all, take-append-drop, length-take, length-drop, u32_mod, ne→==,
}
use trftp.Crc.{crc_loop, not32, calculate_crc32, file_crc_loop, calculate_file_crc32}
use trftp.Crc.Reference.{crc_loop-lt, crc32_of, AreBytes, calculate_crc32-eq-crc32_of}

crc_loop-append :
    (xs ys : List ℕ) (crc : ℕ) → crc_loop (xs ++ ys) crc ≡ crc_loop ys (crc_loop xs crc)
unfolding crc_loop
crc_loop-append [] ys crc = refl
crc_loop-append (x ∷ xs) ys crc = crc_loop-append xs ys _

-- A call over a whole buffer.
calculate_whole :
    (xs : List ℕ) (crc : ℕ) → calculate_crc32 xs (length xs) crc ≡ not32 (crc_loop xs (not32 crc))
unfolding calculate_crc32
calculate_whole xs crc =
    ap (λ l. not32 (crc_loop l (not32 crc))) (take_all (length xs) xs (le_refl _))

pub calculate_crc32-lt : (xs : List ℕ) (n crc : ℕ) → calculate_crc32 xs n crc < u32_mod
unfolding calculate_crc32
calculate_crc32-lt xs n crc = omega arith

not32_twice : (n : ℕ) → n < u32_mod → not32 (not32 n) ≡ n
not32_twice n h = omega arith

-- The CRC of two pieces, the first one's CRC handed to the second call, is that of the whole.
calculate_crc32-append :
    (xs ys : List ℕ) (crc : ℕ)
    → calculate_crc32 ys (length ys) (calculate_crc32 xs (length xs) crc)
      ≡ calculate_crc32 (xs ++ ys) (length (xs ++ ys)) crc
calculate_crc32-append xs ys crc =
    rw
      (
        calculate_whole xs crc,
        calculate_whole ys (not32 (crc_loop xs (not32 crc))),
        calculate_whole (xs ++ ys) crc,
        crc_loop-append xs ys (not32 crc),
        not32_twice (crc_loop xs (not32 crc)) (crc_loop-lt xs (not32 crc) (omega arith)),
      )
      refl

chunk_rest :
    (rest : List ℕ) (crc : ℕ)
    → calculate_crc32
        (drop 4096 rest)
        (length (drop 4096 rest))
        (calculate_crc32 (take 4096 rest) (length (take 4096 rest)) crc)
      ≡ calculate_crc32 rest (length rest) crc
chunk_rest rest crc =
    calculate_crc32-append (take 4096 rest) (drop 4096 rest) crc
    ∙ ap (λ l. calculate_crc32 l (length l) crc) (take-append-drop 4096 rest)

calculate_empty : (crc : ℕ) → crc < u32_mod → calculate_crc32 [] 0 crc ≡ crc
unfolding calculate_crc32 crc_loop
calculate_empty crc h = not32_twice crc h

file_crc_loop-eq :
    (fuel : ℕ) (rest : List ℕ) (crc total : ℕ)
    → crc < u32_mod
    → length rest < fuel
    → file_crc_loop fuel rest crc total
      ≡ some (calculate_crc32 rest (length rest) crc, total + length rest)
unfolding file_crc_loop
file_crc_loop-eq zero rest crc total c h = absurd (omega arith)
file_crc_loop-eq (suc fuel) [] crc total c h = ground (arith, calculate_empty crc c)
file_crc_loop-eq (suc fuel) (x ∷ xs) crc total c h =
    let n = length (take 4096 (x ∷ xs)) in
    rw (ne→== n 0 (omega arith)) (
      file_crc_loop-eq fuel (drop 4096 (x ∷ xs)) (calculate_crc32 (take 4096 (x ∷ xs)) n crc)
        (total + n) (calculate_crc32-lt (take 4096 (x ∷ xs)) n crc)
        (omega (arith, length-drop 4096 (x ∷ xs)))
      ∙ ap₂ (λ a b. some (a, b)) (chunk_rest (x ∷ xs) crc)
          (omega (arith, length-take 4096 (x ∷ xs), length-drop 4096 (x ∷ xs))))

-- The read loop ends, its count is the file's size, and the result is the CRC of all bytes.
pub calculate_file_crc32-eq :
    (c : List ℕ) → calculate_file_crc32 (some c) ≡ calculate_crc32 c (length c) 0
unfolding calculate_file_crc32
calculate_file_crc32-eq c =
    rw (file_crc_loop-eq (suc (length c)) c 0 0 (omega arith) (le_refl _)) (ground arith)

-- So it is the bit-serial CRC-32 of the file's bytes, at any size.
pub calculate_file_crc32-eq-crc32_of :
    (c : List ℕ) → AreBytes c → calculate_file_crc32 (some c) ≡ crc32_of c
calculate_file_crc32-eq-crc32_of c h = calculate_file_crc32-eq c ∙ calculate_crc32-eq-crc32_of c h
