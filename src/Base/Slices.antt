-- ===== src/Base/Slices.antt =====
-- Slices of arrays: consecutive pieces, and a block written into an array.
use Prim.Native.Nat.{ℕ, zero, suc, ◌+◌, ◌-◌, ◌≤◌}
use mathlib.Core.Path.{◌≡◌, refl, ap, ◌∙◌}
use mathlib.Core.List.{List, [], ◌∷◌, ◌++◌}
use native.Mathlib.Omega.{arith}
use agentic_engineering_trai.Base.Lists.{length, take, drop}

module _ {ℓ} {A : Type ℓ} where
  pub take-nil : (n : ℕ) → take {A = A} n [] ≡ []
  take-nil zero = refl
  take-nil (suc n) = refl

  pub drop-nil : (n : ℕ) → drop {A = A} n [] ≡ []
  drop-nil zero = refl
  drop-nil (suc n) = refl

  -- The first `r` elements are the first `n` and those behind them.
  pub take_split :
      (n r : ℕ) (xs : List A) → n ≤ r → take n (take r xs) ++ take (r - n) (drop n xs) ≡ take r xs
  take_split zero r xs h = ap (λ k. take k xs) (omega arith)
  take_split (suc n) zero xs h = absurd (omega arith)
  take_split (suc n) (suc r) [] h = take-nil (suc r - suc n)
  take_split (suc n) (suc r) (x ∷ xs) h =
      ap (λ k. x ∷ (take n (take r xs) ++ take k (drop n xs))) {y = r - n} (omega arith)
      ∙ ap (λ k. x ∷ k) (take_split n r xs (omega arith))

  pub drop-drop : (n m : ℕ) (xs : List A) → drop n (drop m xs) ≡ drop (m + n) xs
  drop-drop n zero xs = ap (λ k. drop k xs) (omega arith)
  drop-drop n (suc m) [] = drop-nil n ∙ ap (λ k. drop {A = A} k []) {x = suc (m + n)} (omega arith)
  drop-drop n (suc m) (x ∷ xs) =
      drop-drop n m xs ∙ ap (λ k. drop k (x ∷ xs)) {x = suc (m + n)} (omega arith)

  pub take-append_more :
      (n m : ℕ) (xs ys : List A) → length xs ≡ n → take (n + m) (xs ++ ys) ≡ xs ++ take m ys
  take-append_more n m [] ys h = ap (λ k. take k ys) (omega arith)
  take-append_more zero m (x ∷ xs) ys h = absurd (omega arith)
  take-append_more (suc n) m (x ∷ xs) ys h =
      ap (λ k. take k (x ∷ xs ++ ys)) {y = suc (n + m)} (omega arith)
      ∙ ap (λ k. x ∷ k) (take-append_more n m xs ys (omega arith))

  -- The first `m` elements and the next `n`.
  pub take_more : (m n : ℕ) (xs : List A) → take m xs ++ take n (drop m xs) ≡ take (m + n) xs
  take_more zero n xs = ap (λ k. take k xs) (omega arith)
  take_more (suc m) n [] = take-nil n ∙ ap (λ k. take {A = A} k []) {x = suc (m + n)} (omega arith)
  take_more (suc m) n (x ∷ xs) =
      ap (λ k. x ∷ k) (take_more m n xs) ∙ ap (λ k. take k (x ∷ xs)) {x = suc (m + n)} (omega arith)
