-- ===== src/Base/Slices.antt =====
-- The slice expression xs[a:b] of Go, whose bounds the source has checked beforehand.
use Prim.Native.Nat.{ℕ, zero, suc, ◌+◌, ◌-◌, ◌≤◌}
use mathlib.Core.Path.{◌≡◌, refl, ap, ◌∙◌}
use mathlib.Core.List.{List, [], ◌∷◌, ◌++◌}
use native.Mathlib.Omega.{arith}
use native.Mathlib.Nat.{sub-zero}
use noble_cctp_relayer.Base.Lists.{length, take, drop, All, length-take, length-drop}

sub_split : {a b : ℕ} → a ≤ b → a + (b - a) ≡ b
sub_split h = omega arith

module _ {ℓ} {A : Type ℓ} where
  unfoldable pub slice : ℕ → ℕ → List A → List A
  slice a b xs = take (b - a) (drop a xs)

  drop_past :
      (k a : ℕ) (xs ys : List A) → length xs ≡ k → k ≤ a → drop a (xs ++ ys) ≡ drop (a - k) ys
  drop_past k a [] ys e h = ap (λ (n : ℕ). drop n ys) (omega arith)
  drop_past k zero (x ∷ xs) ys e h = absurd (omega arith)
  drop_past k (suc a) (x ∷ xs) ys e h =
      drop_past (k - 1) a xs ys (omega arith) (omega arith)
      ∙ ap (λ (n : ℕ). drop n ys) (omega arith)

  pub take_whole : (k : ℕ) (xs ys : List A) → length xs ≡ k → take k (xs ++ ys) ≡ xs
  take_whole zero [] ys e = refl
  take_whole (suc k) [] ys e = absurd (omega arith)
  take_whole zero (x ∷ xs) ys e = absurd (omega arith)
  take_whole (suc k) (x ∷ xs) ys e = ap (◌∷◌ x) (take_whole k xs ys (omega arith))

  -- A slice behind a first segment, and the first segment itself.
  pub slice_past :
      (k a b : ℕ) (xs ys : List A) → length xs ≡ k → slice (k + a) (k + b) (xs ++ ys) ≡ slice a b ys
  unfolding slice
  slice_past k a b xs ys e =
      ap (take (k + b - (k + a))) (drop_past k (k + a) xs ys e (omega arith))
      ∙ ap (λ (n : ℕ). take n (drop (k + a - k) ys)) (omega arith)
      ∙ ap (λ (n : ℕ). take (b - a) (drop n ys)) (omega arith)

  pub slice_here : (k : ℕ) (xs ys : List A) → length xs ≡ k → slice 0 k (xs ++ ys) ≡ xs
  unfolding slice
  slice_here k xs ys e = rw sub-zero (take_whole k xs ys e)

  pub drop_behind : (k a : ℕ) (xs ys : List A) → length xs ≡ k → drop (k + a) (xs ++ ys) ≡ drop a ys
  drop_behind k a xs ys e =
      drop_past k (k + a) xs ys e (omega arith) ∙ ap (λ (n : ℕ). drop n ys) (omega arith)

  drop-nil : (n : ℕ) → ◌≡◌ {A = List A} (drop n []) []
  drop-nil zero = refl
  drop-nil (suc n) = refl

  drop_eq : {m n : ℕ} (xs : List A) → m ≡ n → drop m xs ≡ drop n xs
  drop_eq xs e = ap (λ (k : ℕ). drop k xs) e

  drop-drop : (a b : ℕ) (xs : List A) → drop a (drop b xs) ≡ drop (b + a) xs
  drop-drop a zero xs = drop_eq xs (omega arith)
  drop-drop a (suc b) [] = rw (drop-nil a, drop-nil (suc b + a))
  drop-drop a (suc b) (x ∷ xs) = drop-drop a b xs ∙ drop_eq {m = suc (b + a)} (x ∷ xs) (omega arith)

  take-drop : (n : ℕ) (xs : List A) → take n xs ++ drop n xs ≡ xs
  take-drop zero xs = refl
  take-drop (suc n) [] = refl
  take-drop (suc n) (x ∷ xs) = ap (◌∷◌ x) (take-drop n xs)

  -- Neighbouring slices join.
  pub slice-drop : (a b : ℕ) (xs : List A) → a ≤ b → slice a b xs ++ drop b xs ≡ drop a xs
  unfolding slice
  slice-drop a b xs h =
      rw (← drop_eq xs (sub_split h), ← drop-drop (b - a) a xs) (take-drop (b - a) (drop a xs))

  pub length-slice : (a b : ℕ) (xs : List A) → a ≤ b → b ≤ length xs → length (slice a b xs) ≡ b - a
  unfolding slice
  length-slice a b xs h k = omega (arith, length-take (b - a) (drop a xs), length-drop a xs)

  All-take {κ} : (P : A → Type κ) (n : ℕ) (xs : List A) → All P xs → All P (take n xs)
  All-take P zero xs h = tt
  All-take P (suc n) [] h = tt
  All-take P (suc n) (x ∷ xs) (hx, h) = (hx, All-take P n xs h)

  All-drop {κ} : (P : A → Type κ) (n : ℕ) (xs : List A) → All P xs → All P (drop n xs)
  All-drop P zero xs h = h
  All-drop P (suc n) [] h = tt
  All-drop P (suc n) (x ∷ xs) (hx, h) = All-drop P n xs h

  pub All-slice {κ} : (P : A → Type κ) (a b : ℕ) (xs : List A) → All P xs → All P (slice a b xs)
  unfolding slice
  All-slice P a b xs h = All-take P (b - a) (drop a xs) (All-drop P a xs h)
