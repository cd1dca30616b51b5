-- ===== src/Base/Lists.antt =====
-- Slices as lists, measured and cut by native numbers, under the library's names.
use Prim.Native.Nat.{ℕ, zero, suc, ◌+◌, ◌-◌, ◌≤◌, min}
use mathlib.Core.Path.{◌≡◌, refl, sym, ap, ◌∙◌}
use mathlib.Core.List.{List, [], ◌∷◌, ◌++◌}
use mathlib.Core.Option.{Option, none, some}
use native.Mathlib.Omega.{arith}

module _ {ℓ} {A : Type ℓ} where
  abbrev pub length : List A → ℕ
  length [] = 0
  length (x ∷ xs) = suc (length xs)

  abbrev pub get_elem? : List A → ℕ → Option A
  get_elem? [] i = none
  get_elem? (x ∷ xs) zero = some x
  get_elem? (x ∷ xs) (suc i) = get_elem? xs i

  abbrev pub get_or : List A → ℕ → A → A
  get_or [] i d = d
  get_or (x ∷ xs) zero d = x
  get_or (x ∷ xs) (suc i) d = get_or xs i d

  -- `s[:n]` and `s[n:]`
  abbrev pub take : ℕ → List A → List A
  take zero xs = []
  take (suc n) [] = []
  take (suc n) (x ∷ xs) = x ∷ take n xs

  abbrev pub drop : ℕ → List A → List A
  drop zero xs = xs
  drop (suc n) [] = []
  drop (suc n) (x ∷ xs) = drop n xs

  abbrev pub replicate : ℕ → A → List A
  replicate zero a = []
  replicate (suc n) a = a ∷ replicate n a

  pub length-append : (xs ys : List A) → length (xs ++ ys) ≡ length xs + length ys
  length-append [] ys = omega arith
  length-append (x ∷ xs) ys = omega (arith, length-append xs ys)

  pub take-append-drop : (n : ℕ) (xs : List A) → take n xs ++ drop n xs ≡ xs
  take-append-drop zero xs = refl
  take-append-drop (suc n) [] = refl
  take-append-drop (suc n) (x ∷ xs) = ap (◌∷◌ x) (take-append-drop n xs)

  pub length-take : (n : ℕ) (xs : List A) → length (take n xs) ≡ min n (length xs)
  length-take zero xs = omega arith
  length-take (suc n) [] = omega arith
  length-take (suc n) (x ∷ xs) = omega (arith, length-take n xs)

  pub length-drop : (n : ℕ) (xs : List A) → length (drop n xs) ≡ length xs - n
  length-drop zero xs = omega arith
  length-drop (suc n) [] = omega arith
  length-drop (suc n) (x ∷ xs) = omega (arith, length-drop n xs)

  pub length-replicate : (n : ℕ) (a : A) → length (replicate n a) ≡ n
  length-replicate zero a = refl
  length-replicate (suc n) a = ap suc (length-replicate n a)

  -- A slice of the length of the first part is the first part.
  pub take-append : (n : ℕ) (xs ys : List A) → length xs ≡ n → take n (xs ++ ys) ≡ xs
  take-append zero [] ys h = refl
  take-append zero (x ∷ xs) ys h = absurd (omega arith)
  take-append (suc n) [] ys h = absurd (omega arith)
  take-append (suc n) (x ∷ xs) ys h = ap (◌∷◌ x) (take-append n xs ys (omega arith))

  pub drop-append : (n : ℕ) (xs ys : List A) → length xs ≡ n → drop n (xs ++ ys) ≡ ys
  drop-append zero [] ys h = refl
  drop-append zero (x ∷ xs) ys h = absurd (omega arith)
  drop-append (suc n) [] ys h = absurd (omega arith)
  drop-append (suc n) (x ∷ xs) ys h = drop-append n xs ys (omega arith)

  pub take_all : (n : ℕ) (xs : List A) → length xs ≤ n → take n xs ≡ xs
  take_all zero [] h = refl
  take_all zero (x ∷ xs) h = absurd (omega arith)
  take_all (suc n) [] h = refl
  take_all (suc n) (x ∷ xs) h = ap (◌∷◌ x) (take_all n xs (omega arith))

  pub drop_all : (n : ℕ) (xs : List A) → length xs ≤ n → drop n xs ≡ []
  drop_all zero [] h = refl
  drop_all zero (x ∷ xs) h = absurd (omega arith)
  drop_all (suc n) [] h = refl
  drop_all (suc n) (x ∷ xs) h = drop_all n xs (omega arith)

  take_of_eq : (m n : ℕ) (xs : List A) → m ≡ n → take m xs ≡ take n xs
  take_of_eq m n xs e = ap (λ k. take k xs) e

  pub take-append_split :
      (n : ℕ) (xs ys : List A) → take n (xs ++ ys) ≡ take n xs ++ take (n - length xs) ys
  take-append_split zero [] ys = refl
  take-append_split zero (x ∷ xs) ys = take_of_eq 0 (0 - suc (length xs)) ys (omega arith)
  take-append_split (suc n) [] ys = take_of_eq (suc n) (suc n - 0) ys (omega arith)
  take-append_split (suc n) (x ∷ xs) ys = ap (◌∷◌ x) (
      take-append_split n xs ys
      ∙ ap (◌++◌ (take n xs))
          (take_of_eq (n - length xs) (suc n - suc (length xs)) ys (omega arith)))

  pub take_of_min : (n : ℕ) (xs : List A) → take (min n (length xs)) xs ≡ take n xs
  take_of_min zero xs = take_of_eq (min 0 (length xs)) 0 xs (omega arith)
  take_of_min (suc n) [] = take_of_eq (min (suc n) 0) 0 [] (omega arith)
  take_of_min (suc n) (x ∷ xs) =
      take_of_eq (min (suc n) (suc (length xs))) (suc (min n (length xs))) (x ∷ xs) (omega arith)
      ∙ ap (◌∷◌ x) (take_of_min n xs)

  pub drop-append_le :
      (n : ℕ) (xs ys : List A) → n ≤ length xs → drop n (xs ++ ys) ≡ drop n xs ++ ys
  drop-append_le zero xs ys h = refl
  drop-append_le (suc n) [] ys h = absurd (omega arith)
  drop-append_le (suc n) (x ∷ xs) ys h = drop-append_le n xs ys (omega arith)

  drop-nil : (n : ℕ) → drop n [] ≡ []
  drop-nil zero = refl
  drop-nil (suc n) = refl

  drop_of_eq : (m n : ℕ) (xs : List A) → m ≡ n → drop m xs ≡ drop n xs
  drop_of_eq m n xs e = ap (λ k. drop k xs) e

  pub drop-drop : (m n : ℕ) (xs : List A) → drop n (drop m xs) ≡ drop (m + n) xs
  drop-drop zero n xs = drop_of_eq n (0 + n) xs (omega arith)
  drop-drop (suc m) n [] = drop-nil n ∙ sym (drop-nil (suc m + n))
  drop-drop (suc m) n (x ∷ xs) =
      drop-drop m n xs ∙ drop_of_eq (suc (m + n)) (suc m + n) (x ∷ xs) (omega arith)

  -- `s[lo:hi]`, shut: its laws are enough.
  unfoldable pub slice : List A → ℕ → ℕ → List A
  slice xs lo hi = take (hi - lo) (drop lo xs)

  pub slice-append :
      (lo hi : ℕ) (xs ys zs : List A)
      → length xs ≡ lo
      → lo + length ys ≡ hi
      → slice (xs ++ (ys ++ zs)) lo hi ≡ ys
  unfolding slice
  slice-append lo hi xs ys zs h k =
      rw (drop-append lo xs (ys ++ zs) h) (take-append (hi - lo) ys zs (omega arith))

  -- Cutting at two places.
  pub slice-append-drop :
      (lo hi : ℕ) (xs : List A) → lo ≤ hi → slice xs lo hi ++ drop hi xs ≡ drop lo xs
  unfolding slice
  slice-append-drop lo hi xs h =
      ap (◌++◌ (take (hi - lo) (drop lo xs)))
        (drop_of_eq hi (lo + (hi - lo)) xs (omega arith) ∙ sym (drop-drop lo (hi - lo) xs))
      ∙ take-append-drop (hi - lo) (drop lo xs)

  pub length-slice :
      (lo hi : ℕ) (xs : List A) → lo ≤ hi → hi ≤ length xs → length (slice xs lo hi) ≡ hi - lo
  unfolding slice
  length-slice lo hi xs h k = omega (arith, length-take (hi - lo) (drop lo xs), length-drop lo xs)

  -- Filling a buffer of `n` places from two slices, one after the other.
  pub take-append_fill :
      (n m : ℕ) (xs ys : List A)
      → m ≡ length ys
      → take n xs ++ take (min (n - length (take n xs)) m) ys ≡ take n (xs ++ ys)
  take-append_fill n m xs ys e =
      ap (◌++◌ (take n xs)) (
        take_of_eq (min (n - length (take n xs)) m) (min (n - length xs) (length ys)) ys
          (omega (arith, length-take n xs))
        ∙ take_of_min (n - length xs) ys)
      ∙ sym (take-append_split n xs ys)

  pub eq-nil_of_length : (xs : List A) → length xs ≡ 0 → xs ≡ []
  eq-nil_of_length [] h = refl
  eq-nil_of_length (x ∷ xs) h = absurd (omega arith)

-- A predicate on every element, by recursion, so that it computes to a tuple.
abbrev pub All {ℓ κ} : {A : Type ℓ} → (A → Type κ) → List A → Type κ
All P [] = Unit
All P (x ∷ xs) = P x × All P xs

pub All-append {ℓ κ} :
    {A : Type ℓ} (P : A → Type κ) (xs ys : List A) → All P xs → All P ys → All P (xs ++ ys)
All-append P [] ys h k = k
All-append P (x ∷ xs) ys h k = (h.0, All-append P xs ys h.1 k)
