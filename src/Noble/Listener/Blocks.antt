-- ===== src/Noble/Listener/Blocks.antt =====
-- The blocks that the loops of noble/listener.go put on the queue, one after another.
use noble_cctp_relayer.Base.{
  Any, All, ◌==◌, inl, inr, Bool-cases, ℕ, zero, suc, ◌+◌, ◌-◌, ◌≤◌, ◌<◌, ◌^◌, List, [], ◌∷◌, ◌++◌,
  Bool, true, false, some, ◌≡◌, refl, ap, ◌∙◌, arith, leb, if◌then◌else◌, add64,
}
use noble_cctp_relayer.Noble.Listener.{queue_loop}

-- The numbers from `a` on, `n` of them.
abbrev pub count_from : ℕ → ℕ → List ℕ
count_from a zero = []
count_from a (suc n) = a ∷ count_from (a + 1) n

pub from_eq : (n : ℕ) {a b : ℕ} → a ≡ b → count_from a n ≡ count_from b n
from_eq n e = ap (λ (c : ℕ). count_from c n) e

pub upto_eq : (a : ℕ) {m n : ℕ} → m ≡ n → count_from a m ≡ count_from a n
upto_eq a e = ap (count_from a) e

pub count_from-append : (a n m : ℕ) → count_from a n ++ count_from (a + n) m ≡ count_from a (n + m)
count_from-append a zero m = from_eq m {a = a + 0} (omega arith) ∙ upto_eq a {m = m} (omega arith)
count_from-append a (suc n) m =
    let shifted : a + suc n ≡ a + 1 + n = omega arith in
    ap (λ (b : ℕ). a ∷ (count_from (a + 1) n ++ count_from b m)) shifted
    ∙ ap (◌∷◌ a) (count_from-append (a + 1) n m)
    ∙ upto_eq a {m = suc (n + m)} (omega arith)

pub join_ranges :
    {first current next : ℕ}
    → first ≤ current
    → current ≤ next
    → count_from first (current - first) ++ count_from current (next - current)
      ≡ count_from first (next - first)
join_ranges {first} {current} {next} h k =
    let reached : current ≡ first + (current - first) = omega arith in
    ap (λ (c : ℕ). count_from first (current - first) ++ count_from c (next - current)) reached
    ∙ count_from-append first (current - first) (next - current)
    ∙ upto_eq first (omega arith)

pub if_true {ℓ} : {A : Type ℓ} {b : Bool} (x y : A) → b ≡ true → (if b then x else y) ≡ x
if_true x y e = rw e refl

pub if_false {ℓ} : {A : Type ℓ} {b : Bool} (x y : A) → b ≡ false → (if b then x else y) ≡ y
if_false x y e = rw e refl

pub queue_loop_lem :
    (n current tip fuel : ℕ)
    → current + n ≡ suc tip
    → n < fuel
    → suc tip < 2 ^ 64
    → queue_loop fuel current tip ≡ some (count_from current n, suc tip)
unfolding queue_loop
queue_loop_lem zero current tip zero e f b = absurd (omega arith)
queue_loop_lem zero current tip (suc fuel) e f b =
    let past : leb current tip ≡ false = ground arith in
    let same : current ≡ suc tip = omega arith in rw past (ap (λ (c : ℕ). some ([], c)) same)
queue_loop_lem (suc n) current tip zero e f b = absurd (omega arith)
queue_loop_lem (suc n) current tip (suc fuel) e f b =
    let more : leb current tip ≡ true = ground arith in
    let step : add64 current 1 ≡ current + 1 = omega arith in
    rw (more, step, queue_loop_lem n (current + 1) tip fuel (omega arith) (omega arith) b) refl

pub count_from-Any : (a n b : ℕ) → a ≤ b → b < a + n → Any (λ c. c ≡ b) (count_from a n)
count_from-Any a zero b low high = absurd (omega arith)
count_from-Any a (suc n) b low high = elim (Bool-cases (a == b)) [
  | inl here ↦ inl (ground arith)
  | inr later ↦ inr (count_from-Any (a + 1) n b (ground arith) (omega arith))
]

pub count_from-All :
    (a n low high : ℕ)
    → low ≤ a
    → a + n ≤ suc high
    → All (λ c. (low ≤ c) × (c ≤ high)) (count_from a n)
count_from-All a zero low high h k = tt
count_from-All a (suc n) low high h k =
    ((h, omega arith), count_from-All (a + 1) n low high (omega arith) (omega arith))
