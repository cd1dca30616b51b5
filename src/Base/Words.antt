-- ===== src/Base/Words.antt =====
-- Bytes as numbers below 256, and Go's encoding/binary in big-endian order.
use Prim.Native.Nat.{ℕ, zero, suc, ◌+◌, ◌*◌, ◌/◌, ◌%◌, ◌^◌, ◌<◌, ◌≤◌, ◌-◌}
use mathlib.Core.Path.{◌≡◌, refl, sym, ap, ◌∙◌}
use mathlib.Core.List.{List, [], ◌∷◌, ◌++◌}
use mathlib.Core.Bool.{Bool, true, false, ◌&&◌}
use fido_go.Base.Tests.{◌==◌, ==_refl}
use native.Mathlib.Nat.{zero-add, suc-add}
use native.Mathlib.Omega.{arith}
use fido_go.Base.Lists.{length, get_or, drop, replicate, All, length-append, length-replicate}

abbrev pub Bytes : Type 0
Bytes = List ℕ

abbrev pub IsByte : ℕ → Type 0
IsByte b = b < 256

-- `byte(n)`, `uint16(n)` and `uint32(n)`
abbrev pub u8 : ℕ → ℕ
u8 n = n % 2 ^ 8

abbrev pub u16 : ℕ → ℕ
u16 n = n % 2 ^ 16

abbrev pub u32 : ℕ → ℕ
u32 n = n % 2 ^ 32

-- An index expression; each use stands behind the length test that keeps it in range.
abbrev pub byte_at : Bytes → ℕ → ℕ
byte_at bs i = get_or bs i 0

-- `binary.BigEndian.PutUint16` and `PutUint32`
abbrev pub put_uint16 : ℕ → Bytes
put_uint16 n = u8 (n / 2 ^ 8) ∷ u8 n ∷ []

abbrev pub put_uint32 : ℕ → Bytes
put_uint32 n = u8 (n / 2 ^ 24) ∷ u8 (n / 2 ^ 16) ∷ u8 (n / 2 ^ 8) ∷ u8 n ∷ []

-- `binary.BigEndian.Uint16(bs[i:i+2])` and `Uint32(bs[i:i+4])`
abbrev pub uint16_at : Bytes → ℕ → ℕ
uint16_at bs i = byte_at bs i * 2 ^ 8 + byte_at bs (i + 1)

abbrev pub uint32_at : Bytes → ℕ → ℕ
uint32_at bs i =
    byte_at bs i * 2 ^ 24
    + byte_at bs (i + 1) * 2 ^ 16
    + byte_at bs (i + 2) * 2 ^ 8
    + byte_at bs (i + 3)

-- `make([]byte, size)` with `content` written from its start: the rest stays zero.
abbrev pub zeros : ℕ → Bytes
zeros n = replicate n 0

abbrev pub zero_filled : ℕ → Bytes → Bytes
zero_filled size content = content ++ zeros (size - length content)

pub length-zero_filled :
    (size : ℕ) (content : Bytes) → length content ≤ size → length (zero_filled size content) ≡ size
length-zero_filled size content h =
    let n = size - length content in
    omega (arith, length-append content (zeros n), length-replicate {A = ℕ} n 0)

pub put_uint16_bytes : (n : ℕ) → All IsByte (put_uint16 n)
put_uint16_bytes n = omega arith

pub put_uint32_bytes : (n : ℕ) → All IsByte (put_uint32 n)
put_uint32_bytes n = omega arith

pub uint32_at-put_uint32 :
    (n : ℕ) (rest : Bytes) → n < 2 ^ 32 → uint32_at (put_uint32 n ++ rest) 0 ≡ n
uint32_at-put_uint32 n rest h = omega arith

pub byte_at-append : (xs ys : Bytes) (i : ℕ) → byte_at (xs ++ ys) (length xs + i) ≡ byte_at ys i
byte_at-append [] ys i = ap (λ k. byte_at ys k) (zero-add i)
byte_at-append (x ∷ xs) ys i =
    ap (λ k. byte_at (x ∷ (xs ++ ys)) k) (suc-add (length xs) i) ∙ byte_at-append xs ys i

pub byte_at_end : (xs ys : Bytes) → byte_at (xs ++ ys) (length xs) ≡ byte_at ys 0
byte_at_end [] ys = refl
byte_at_end (x ∷ xs) ys = byte_at_end xs ys

pub byte_at_after : (n : ℕ) (xs ys : Bytes) → length xs ≡ n → byte_at (xs ++ ys) n ≡ byte_at ys 0
byte_at_after n xs ys e = ap (λ k. byte_at (xs ++ ys) k) (sym e) ∙ byte_at_end xs ys

pub byte_at_before : (n : ℕ) (xs ys : Bytes) → n < length xs → byte_at (xs ++ ys) n ≡ byte_at xs n
byte_at_before n [] ys h = absurd (omega arith)
byte_at_before zero (x ∷ xs) ys h = refl
byte_at_before (suc n) (x ∷ xs) ys h = byte_at_before n xs ys (omega arith)

-- An index splits a slice.
pub drop-eq-cons : (n : ℕ) (xs : Bytes) → n < length xs → drop n xs ≡ byte_at xs n ∷ drop (suc n) xs
drop-eq-cons n [] h = absurd (omega arith)
drop-eq-cons zero (x ∷ xs) h = refl
drop-eq-cons (suc n) (x ∷ xs) h = drop-eq-cons n xs (omega arith)

-- `bytes.Equal`, and `==` of strings as their bytes.
unfoldable pub equal_bytes : Bytes → Bytes → Bool
equal_bytes [] [] = true
equal_bytes [] (y ∷ ys) = false
equal_bytes (x ∷ xs) [] = false
equal_bytes (x ∷ xs) (y ∷ ys) = x == y && equal_bytes xs ys

pub equal_bytes_refl : (bs : Bytes) → equal_bytes bs bs ≡ true
unfolding equal_bytes
equal_bytes_refl [] = refl
equal_bytes_refl (x ∷ xs) = rw (==_refl, equal_bytes_refl xs) refl

pub equal_bytes-eq : (bs cs : Bytes) → equal_bytes bs cs ≡ true → bs ≡ cs
unfolding equal_bytes
equal_bytes-eq [] [] e = refl
equal_bytes-eq [] (y ∷ ys) e = absurd (ground (arith, e))
equal_bytes-eq (x ∷ xs) [] e = absurd (ground (arith, e))
equal_bytes-eq (x ∷ xs) (y ∷ ys) e =
    let tails = equal_bytes-eq xs ys (ground (arith, e)) in ground (arith, e, tails)
