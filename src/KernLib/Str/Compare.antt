-- ===== src/KernLib/Str/Compare.antt =====
-- The functions on strings, on strings that end within their objects.
use cs.Prelude.{
  ℕ, zero, suc, ◌+◌, ◌≡◌, ◌≢◌, ◌↔◌, ◌∙◌, refl, ap, inl, inr, false, some, List, [], ◌∷◌, leb, ◌==◌,
  arith, Bool-cases, sym, length, min, take,
}
use cs.Prelude.Int.{ℤ, pos, sub_ℕ}
use cs.KernLib.Str.{byte_diff, strncmp, strnlen_loop, strnlen, strcmp}

-- No byte of the text is 0.
abbrev pub IsText : List ℕ → Type 0
IsText [] = Unit
IsText (x ∷ xs) = (x ≢ 0) × IsText xs

-- The text with its 0, and what follows in the object.
abbrev pub ended : List ℕ → List ℕ → List ℕ
ended [] rest = 0 ∷ rest
ended (x ∷ xs) rest = x ∷ ended xs rest

strnlen_loop_lem :
    (size : ℕ) (xs rest : List ℕ) (n : ℕ)
    → IsText xs
    → strnlen_loop size (ended xs rest) n ≡ some (n + min (length xs) size)
unfolding strnlen_loop
strnlen_loop_lem zero xs rest n t = ground arith
strnlen_loop_lem (suc size) [] rest n t = ground arith
strnlen_loop_lem (suc size) (x ∷ xs) rest n t =
    ground (arith, strnlen_loop_lem size xs rest (n + 1) t.1)

-- `strnlen` is the smaller of the text's length and the limit.
pub strnlen_lem :
    (xs rest : List ℕ) (size : ℕ)
    → IsText xs
    → strnlen (ended xs rest) size ≡ some (min (length xs) size)
unfolding strnlen
strnlen_lem xs rest size t = strnlen_loop_lem size xs rest 0 t ∙ ap some (omega arith)

byte_diff-ne : (x y : ℕ) → x ≢ y → byte_diff x y ≢ pos 0
unfolding sub_ℕ
byte_diff-ne x y ne e = elim (Bool-cases (leb y x)) [
  | inl le ↦ let d : x ≡ y = ground arith in ne d
  | inr lt ↦ absurd (ground arith)
]

strcmp-same : (x : ℕ) (p q : List ℕ) → x ≢ 0 → strcmp (x ∷ p) (x ∷ q) ≡ strcmp p q
unfolding strcmp
strcmp-same x p q nx = ground arith

strcmp-differ : (x y : ℕ) (p q : List ℕ) → x ≢ y → strcmp (x ∷ p) (y ∷ q) ≡ some (byte_diff x y)
unfolding strcmp
strcmp-differ x y p q ne = ground arith

strcmp-ends : (p q : List ℕ) → strcmp (0 ∷ p) (0 ∷ q) ≡ some (pos 0)
unfolding strcmp
strcmp-ends p q = refl

-- `strcmp` of two texts returns, and 0 exactly when they are equal.
pub strcmp_iff :
    (xs ys r q : List ℕ)
    → IsText xs
    → IsText ys
    → (d : ℤ) × (strcmp (ended xs r) (ended ys q) ≡ some d) × ((d ≡ pos 0) ↔ (xs ≡ ys))
strcmp_iff [] [] r q t u = (pos 0, strcmp-ends r q, ((λ e. refl), λ e. refl))
strcmp_iff [] (y ∷ ys) r q t (ny, u) = (
  byte_diff 0 y,
  strcmp-differ 0 y r (ended ys q) (λ e. ny (sym e)),
  ((λ e. absurd (byte_diff-ne 0 y (λ e. ny (sym e)) e)), λ e. absurd (cc e)),
)
strcmp_iff (x ∷ xs) [] r q (nx, t) u = (
  byte_diff x 0,
  strcmp-differ x 0 (ended xs r) q nx,
  ((λ e. absurd (byte_diff-ne x 0 nx e)), λ e. absurd (cc e)),
)
strcmp_iff (x ∷ xs) (y ∷ ys) r q (nx, t) (ny, u) = elim (Bool-cases (x == y)) [
  | inl e ↦
      let xy : x ≡ y = ground arith in
      let (d, run, iff) = strcmp_iff xs ys r q t u in
      (
        d,
        ap (λ z. strcmp (x ∷ ended xs r) (z ∷ ended ys q)) (sym xy)
            ∙ strcmp-same x (ended xs r) (ended ys q) nx
            ∙ run,
        ((λ z. let same = iff.0 z in cc (same, xy)), λ z. iff.1 (cc z)),
      )
  | inr ne ↦
      let differ : x ≢ y = ground arith in
      (
        byte_diff x y,
        strcmp-differ x y (ended xs r) (ended ys q) differ,
        ((λ e. absurd (byte_diff-ne x y differ e)), λ e. absurd (differ (cc e))),
      )
]

-- Up to `n` bytes `strncmp` compares as `strcmp` does the texts cut to `n` bytes.
pub strncmp-take :
    (n : ℕ) (xs ys r q : List ℕ)
    → IsText xs
    → IsText ys
    → strncmp (ended xs r) (ended ys q) n ≡ strcmp (ended (take n xs) r) (ended (take n ys) q)
unfolding strcmp strncmp
strncmp-take zero xs ys r q t u = refl
strncmp-take (suc n) [] [] r q t u = refl
strncmp-take (suc n) [] (y ∷ ys) r q t u = refl
strncmp-take (suc n) (x ∷ xs) [] r q (nx, t) u =
    let nz : (x == 0) ≡ false = ground arith in rw nz refl
strncmp-take (suc n) (x ∷ xs) (y ∷ ys) r q (nx, t) (ny, u) = rw (strncmp-take n xs ys r q t u) refl
