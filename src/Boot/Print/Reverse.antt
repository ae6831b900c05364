-- ===== src/Boot/Print/Reverse.antt =====
-- `reverse` and the reversed list.
use cs.Prelude.{
  ℕ, zero, suc, ◌+◌, ◌-◌, ◌<◌, ◌≤◌, ◌≡◌, ◌≢◌, ◌∙◌, refl, ap, inl, inr, true, false, ◌&&◌, some,
  List, [], ◌∷◌, ◌++◌, ltb, leb, ◌==◌, if◌then◌else◌, length, length-append, arith, Bool-cases,
}
use cs.KernLib.Dprintf.Buffer.{Holds, Holds-snoc}
use cs.Boot.Print.{strlen_from, swap, reverse_loop, reverse}

abbrev pub rev : List ℕ → List ℕ
rev [] = []
rev (x ∷ xs) = rev xs ++ x ∷ []

pub rev-snoc : (xs : List ℕ) (x : ℕ) → rev (xs ++ x ∷ []) ≡ x ∷ rev xs
rev-snoc [] x = refl
rev-snoc (y ∷ ys) x = ap (λ l. l ++ y ∷ []) (rev-snoc ys x)

pub length-rev : (xs : List ℕ) → length (rev xs) ≡ length xs
length-rev [] = refl
length-rev (x ∷ xs) = omega (arith, length-append (rev xs) (x ∷ []), length-rev xs)

-- No byte is 0.
abbrev pub IsNonzero : List ℕ → Type 0
IsNonzero [] = Unit
IsNonzero (x ∷ xs) = (x ≢ 0) × IsNonzero xs

strlen_from_lem :
    (room n : ℕ) (s : ℕ → ℕ) (xs : List ℕ)
    → Holds s n xs
    → IsNonzero xs
    → s (n + length xs) ≡ 0
    → length xs < room
    → strlen_from room n s ≡ some (n + length xs)
unfolding strlen_from
strlen_from_lem zero n s xs h nz z lt = absurd (omega arith)
strlen_from_lem (suc room) n s [] h nz z lt =
    let here : s n ≡ 0 = ap s (omega arith) ∙ z in rw here (ap some (omega arith))
strlen_from_lem (suc room) n s (x ∷ xs) (e, h) (nz, nzs) z lt =
    let goes_on : (x == 0) ≡ false = ground arith in
    let here : n + 1 + length xs ≡ n + suc (length xs) = omega arith in
    let rest = strlen_from_lem room (n + 1) s xs h nzs (ap s here ∙ z) (omega arith) in
    rw (strlen_from, e, goes_on, rest) (ap some here)

turned-small :
    (i j : ℕ) (s : ℕ → ℕ) (k : ℕ)
    → j ≤ i
    → s k ≡ (if leb i k && leb k j then s (i + j - k) else s k)
turned-small i j s k h = elim (Bool-cases (leb i k && leb k j)) [
  | inl e ↦ let same : k ≡ i + j - k = ground arith in rw e (ap s same)
  | inr e ↦ rw e refl
]

turned-swap :
    (i j : ℕ) (s : ℕ → ℕ) (k : ℕ)
    → i < j
    → (if leb (i + 1) k && leb k (j - 1) then swap i j s (i + 1 + (j - 1) - k) else swap i j s k)
      ≡ (if leb i k && leb k j then s (i + j - k) else s k)
turned-swap i j s k h =
    let sum : i + 1 + (j - 1) ≡ i + j = omega arith in
    rw sum (elim (Bool-cases (k == i)) [
      | inl first ↦
          let ki : k ≡ i = ground arith in
          let other : i + j - k ≡ j = omega arith in ground (arith, ap s other)
      | inr _ ↦ elim (Bool-cases (k == j)) [
        | inl last ↦
            let kj : k ≡ j = ground arith in
            let other : i + j - k ≡ i = omega arith in ground (arith, ap s other)
        | inr _ ↦ ground arith
      ]
    ])

reverse_loop_lem :
    (rounds i j : ℕ) (s : ℕ → ℕ) (k : ℕ)
    → j ≤ i + rounds
    → reverse_loop rounds i j s k ≡ (if leb i k && leb k j then s (i + j - k) else s k)
unfolding reverse_loop
reverse_loop_lem zero i j s k h = turned-small i j s k (omega arith)
reverse_loop_lem (suc rounds) i j s k h = elim (Bool-cases (ltb i j)) [
  | inl lt ↦ rw lt (
      reverse_loop_lem rounds (i + 1) (j - 1) (swap i j s) k (ground arith)
      ∙ turned-swap i j s k (ground arith))
  | inr ge ↦ rw ge (turned-small i j s k (ground arith))
]

Holds-rev :
    (xs : List ℕ) (s s' : ℕ → ℕ) (i o : ℕ)
    → Holds s i xs
    → ((k : ℕ) → k < length xs → s' (o + k) ≡ s (i + (length xs - 1 - k)))
    → Holds s' o (rev xs)
Holds-rev [] s s' i o h turned = tt
Holds-rev (x ∷ xs) s s' i o (e, h) turned =
    let rest = Holds-rev xs s s' (i + 1) o h (λ k lt.
      let at : i + (suc (length xs) - 1 - k) ≡ i + 1 + (length xs - 1 - k) = omega arith in
      turned k (omega arith) ∙ ap s at) in
    let at : i + (suc (length xs) - 1 - length xs) ≡ i = omega arith in
    Holds-snoc s' o x (rev xs) rest
      (ap (λ n. s' (o + n)) (length-rev xs) ∙ turned (length xs) (omega arith) ∙ ap s at ∙ e)

turned-behind :
    (n : ℕ) (s : ℕ → ℕ) (k : ℕ)
    → n ≤ k
    → (if leb 0 k && leb k (n - 1) then s (0 + (n - 1) - k) else s k) ≡ s k
turned-behind n s k h = elim (Bool-cases (leb 0 k && leb k (n - 1))) [
  | inl e ↦ let same : 0 + (n - 1) - k ≡ k = ground arith in rw e (ap s same)
  | inr e ↦ rw e refl
]

-- `reverse` of a string that ends within its array turns it round, and leaves what stands behind
-- it alone, the 0 included.
pub reverse_lem :
    (room : ℕ) (s : ℕ → ℕ) (xs : List ℕ)
    → Holds s 0 xs
    → IsNonzero xs
    → s (length xs) ≡ 0
    → length xs < room
    → (s' : ℕ → ℕ) × (reverse room s ≡ some s')
      × Holds s' 0 (rev xs)
      × ((k : ℕ) → length xs ≤ k → s' k ≡ s k)
unfolding reverse
reverse_lem room s xs h nz z lt =
    let n = length xs in
    let found = strlen_from_lem room 0 s xs h nz (ap s (omega arith) ∙ z) lt in
    let found' : strlen_from room 0 s ≡ some n = found ∙ ap some (omega arith) in
    let turned = λ (k : ℕ). reverse_loop_lem n 0 (n - 1) s k (omega arith) in
    (
      reverse_loop n 0 (n - 1) s,
      rw (found', reverse) refl,
      Holds-rev xs s (reverse_loop n 0 (n - 1) s) 0 0 h (λ k p.
          let inside : leb 0 k && leb k (n - 1) ≡ true = ground arith in
          let at : 0 + (n - 1) - k ≡ 0 + (n - 1 - k) = omega arith in
          let place : 0 + k ≡ k = omega arith in
          ap (reverse_loop n 0 (n - 1) s) place ∙ turned k ∙ rw inside (ap s at)),
      λ k p. turned k ∙ turned-behind n s k p,
    )
