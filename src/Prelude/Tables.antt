-- ===== src/Prelude/Tables.antt =====
-- C tables as functions from the index, with the sums and counts over a range that proofs need.
use Prim.Native.Nat.{ℕ, zero, suc, ◌+◌, ◌≤◌, ◌<◌}
use mathlib.Core.Path.{◌≡◌, refl, ap}
use mathlib.Core.Logic.{◌≢◌, inl, inr}
use mathlib.Core.Bool.{Bool, true, false}
use native.Mathlib.Omega.{arith}
use cs.Prelude.Tests.{◌==◌, if◌then◌else◌, Bool-cases, ltb}

-- `t[i] = v`
abbrev pub update {ℓ} : {A : Type ℓ} → (ℕ → A) → ℕ → A → ℕ → A
update t i v j = if i == j then v else t j

pub update-same {ℓ} : {A : Type ℓ} (t : ℕ → A) (i j : ℕ) (v : A) → i ≡ j → update t i v j ≡ v
update-same t i j v e = let here : (i == j) ≡ true = ground arith in rw here refl

pub update-other {ℓ} : {A : Type ℓ} (t : ℕ → A) (i j : ℕ) (v : A) → i ≢ j → update t i v j ≡ t j
update-other t i j v e = let there : (i == j) ≡ false = ground arith in rw there refl

-- The sum of `f` over the indices below `n`.
pub sum_below : ℕ → (ℕ → ℕ) → ℕ
sum_below zero f = 0
sum_below (suc n) f = sum_below n f + f n

pub sum_below-ext :
    (n : ℕ) (f g : ℕ → ℕ) → ((i : ℕ) → i < n → f i ≡ g i) → sum_below n f ≡ sum_below n g
unfolding sum_below
sum_below-ext zero f g h = refl
sum_below-ext (suc n) f g h =
    omega (arith, sum_below-ext n f g (λ i p. h i (omega arith)), h n (omega arith))

-- Two tables that differ at one index below `n` only have sums that differ by those entries.
pub sum_below-change :
    (n k : ℕ) (f g : ℕ → ℕ)
    → k < n
    → ((i : ℕ) → i ≢ k → f i ≡ g i)
    → sum_below n f + g k ≡ sum_below n g + f k
unfolding sum_below
sum_below-change zero k f g p h = absurd (omega arith)
sum_below-change (suc n) k f g p h = elim (Bool-cases (k == n)) [
  | inl e ↦
      let same : sum_below n f ≡ sum_below n g = sum_below-ext n f g (λ i q. h i (below-ne e q)) in
      let e' : k ≡ n = ground arith in omega (arith, same, ap f e', ap g e')
  | inr e ↦ omega (arith, sum_below-change n k f g (ground arith) h, h n (ground arith))
]
  where
    below-ne : (k == n) ≡ true → {i : ℕ} → i < n → i ≢ k
    below-ne e q = ground arith

pub sum_below-le :
    (n : ℕ) (f g : ℕ → ℕ) → ((i : ℕ) → i < n → f i ≤ g i) → sum_below n f ≤ sum_below n g
unfolding sum_below
sum_below-le zero f g h = omega arith
sum_below-le (suc n) f g h =
    omega (arith, sum_below-le n f g (λ i p. h i (omega arith)), h n (omega arith))

pub sum_below-lt :
    (n k : ℕ) (f g : ℕ → ℕ)
    → k < n
    → ((i : ℕ) → i < n → f i ≤ g i)
    → f k < g k
    → sum_below n f < sum_below n g
unfolding sum_below
sum_below-lt zero k f g p h q = absurd (omega arith)
sum_below-lt (suc n) k f g p h q = elim (Bool-cases (k == n)) [
  | inl e ↦
      let e' : k ≡ n = ground arith in
      omega (arith, sum_below-le n f g (λ i p'. h i (omega arith)), ap f e', ap g e')
  | inr e ↦
      omega (
        arith,
        sum_below-lt n k f g (ground arith) (λ i p'. h i (omega arith)) q,
        h n (omega arith),
      )
]

-- A smaller sum has a smaller entry.
pub smaller_entry :
    (n : ℕ) (f g : ℕ → ℕ) → sum_below n f < sum_below n g → (i : ℕ) × (i < n) × (f i < g i)
unfolding sum_below
smaller_entry zero f g h = absurd (omega arith)
smaller_entry (suc n) f g h = elim (Bool-cases (ltb (f n) (g n))) [
  | inl e ↦ (n, omega arith, ground arith)
  | inr e ↦ let (i, p, q) = smaller_entry n f g (ground arith) in (i, omega arith, q)
]

-- Entries of 0 behind the first `n` add nothing.
pub sum_below-pad :
    (d n m : ℕ) (f : ℕ → ℕ)
    → n + d ≡ m
    → ((i : ℕ) → n ≤ i → i < m → f i ≡ 0)
    → sum_below m f ≡ sum_below n f
unfolding sum_below
sum_below-pad zero n m f e h = let e' : m ≡ n = omega arith in rw e'
sum_below-pad (suc d) n m f e h = omega (
  arith,
  sum_below-pad d (suc n) m f (omega arith) (λ i p q. h i (omega arith) q),
  h n (omega arith) (omega arith),
)

pub sum_below-suc : (n : ℕ) (f : ℕ → ℕ) → sum_below (suc n) f ≡ sum_below n f + f n
unfolding sum_below
sum_below-suc n f = refl

-- A sum of bits is at most their number.
pub sum_below-le_count : (n : ℕ) (f : ℕ → ℕ) → ((i : ℕ) → f i ≤ 1) → sum_below n f ≤ n
unfolding sum_below
sum_below-le_count zero f h = omega arith
sum_below-le_count (suc n) f h = omega (arith, sum_below-le_count n f h, h n)

pub sum_below-zero : (f : ℕ → ℕ) → sum_below 0 f ≡ 0
unfolding sum_below
sum_below-zero f = refl

-- A sum of zeros.
pub sum_below-zeros : (n : ℕ) (f : ℕ → ℕ) → ((i : ℕ) → f i ≡ 0) → sum_below n f ≡ 0
unfolding sum_below
sum_below-zeros zero f h = refl
sum_below-zeros (suc n) f h = omega (arith, sum_below-zeros n f h, h n)

-- The test holds at each of the first `count` entries of a table.
unfoldable pub passes : (ℕ → Bool) → ℕ → Bool
passes test zero = true
passes test (suc last) = elim (test last) [ true ↦ passes test last | false ↦ false ]

pub passes-at :
    (test : ℕ → Bool) (count entry : ℕ)
    → passes test count ≡ true
    → entry < count
    → test entry ≡ true
unfolding passes
passes-at test zero entry found inside = absurd (omega arith)
passes-at test (suc last) entry found inside = elim (Bool-cases (entry == last)) [
  | inl newest ↦ ground arith
  | inr older ↦ ground (arith, passes-at test last entry)
]
