-- ===== src/File/Descriptors/Buffers.antt =====
-- The buffer of ReadFile in kwctoolkit/file/file_utils.h, which it resizes.
use kwctoolkit.Prelude.{
  ◌⊎◌, inl, inr, Bool-cases, ltb, ◌<◌, ◌*◌, ◌/◌, ℕ, zero, suc, ◌+◌, ◌-◌, ◌%◌, ◌^◌, ◌≤◌, ◌≡◌, refl,
  ap, arith, min, [], ◌∷◌, ◌++◌, append-nil, length, length-append, take, drop, Bytes, replicate, ℤ,
  pos, negsuc, take-append_length, length-take, take-all,
}
use kwctoolkit.File.Descriptors.{initial_size, resize}
use kwctoolkit.File.Descriptors.Reading.{IsOffset}

length-replicate : (n : ℕ) → length {A = ℕ} (replicate n 0) ≡ n
length-replicate zero = refl
length-replicate (suc n) = ap suc (length-replicate n)

pub length-resize : (n : ℕ) (out : Bytes) → length (resize n out) ≡ n
length-resize n out = omega (
  arith,
  length-append (take n out) (replicate (n - length out) 0),
  length-take n out,
  length-replicate (n - length out),
)

pub resize-take : (n : ℕ) (out : Bytes) → n ≤ length out → resize n out ≡ take n out
resize-take n out h = let e : n - length out ≡ 0 = omega arith in rw (e) (append-nil (take n out))

-- Growing keeps what is there.
pub take-resize : (n : ℕ) (out : Bytes) → length out ≤ n → take (length out) (resize n out) ≡ out
take-resize n out h = rw (take-all n out h) (take-append_length out (replicate (n - length out) 0))

-- The two parts of a list, of which the first has the length of a prefix.
pub cut :
    (n : ℕ) (xs ys : Bytes)
    → length xs ≡ min n (length xs + length ys)
    → (take n (xs ++ ys) ≡ xs) × (drop n (xs ++ ys) ≡ ys)
cut zero [] ys h = (refl, refl)
cut zero (x ∷ xs) ys h = absurd (omega arith)
cut (suc n) [] [] h = (refl, refl)
cut (suc n) [] (y ∷ ys) h = absurd (omega arith)
cut (suc n) (x ∷ xs) ys h = let (e, e') = cut n xs ys (omega arith) in (ap (λ t. x ∷ t) e, e')

-- Two bytes or more are allocated first, unless the caller takes fewer.
pub initial_size-min :
    (num_bytes : ℕ) (st_size : ℤ)
    → IsOffset st_size
    → (x : ℕ) × (initial_size st_size num_bytes ≡ min x num_bytes) × (2 ≤ x)
initial_size-min num_bytes (pos zero) h = (4096, refl, omega arith)
initial_size-min num_bytes (pos (suc n)) h = ((suc n + 1) % 2 ^ 64, ground arith, omega arith)
initial_size-min num_bytes (negsuc n) h = (4096, refl, omega arith)

-- Between two rounds: there is room for another byte, or all is read that the caller takes.
abbrev pub HasRoom : ℕ → ℕ → ℕ → Type 0
HasRoom num_bytes so_far size =
    ((so_far < size) × ((2 ≤ size) ⊎ (size ≡ num_bytes))) ⊎ ((so_far ≡ size) × (size ≡ num_bytes))

abbrev pub grown : ℕ → ℕ → ℕ
grown size num_bytes = min (size * 3 % 2 ^ 64 / 2) num_bytes

pub HasRoom-grown :
    (num_bytes size : ℕ)
    → size < 2 ^ 31
    → size ≤ num_bytes
    → ((2 ≤ size) ⊎ (size ≡ num_bytes))
    → HasRoom num_bytes size (grown size num_bytes)
HasRoom-grown num_bytes size h g (inr e) = inr (omega arith, omega arith)
HasRoom-grown num_bytes size h g (inl two) = elim (Bool-cases (ltb size num_bytes)) [
  | inl more ↦ let l : size < num_bytes = ground arith in inl (omega arith, inl (omega arith))
  | inr no_more ↦ let l : size ≡ num_bytes = ground arith in inr (omega arith, omega arith)
]

pub HasRoom-min : (num_bytes x : ℕ) → 2 ≤ x → HasRoom num_bytes 0 (min x num_bytes)
HasRoom-min zero x h = inr (omega arith, omega arith)
HasRoom-min (suc k) x h = elim (Bool-cases (ltb x (suc k))) [
  | inl less ↦ let l : x < suc k = ground arith in inl (omega arith, inl (omega arith))
  | inr more ↦ let l : suc k ≤ x = ground arith in inl (omega arith, inr (omega arith))
]
