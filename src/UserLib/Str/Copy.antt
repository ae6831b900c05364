-- ===== src/UserLib/Str/Copy.antt =====
-- The functions that copy strings, on texts that end within their objects.
use cs.Prelude.{
  ℕ, zero, suc, ◌+◌, ◌-◌, ◌≤◌, ◌<◌, ◌≡◌, ◌⊎◌, ◌∙◌, refl, sym, ap, false, some, List, [], ◌∷◌, ◌++◌,
  ◌==◌, arith, length, length-append, min, take, replicate, update,
}
use cs.KernLib.Str.{Memory}
use cs.KernLib.Str.Compare.{IsText, ended}
use cs.UserLib.Str.{strcpy, strncpy, strlcpy_loop, strlcpy}

-- The bytes, stored one behind the other from an address on.
abbrev pub stored : ℕ → List ℕ → Memory → Memory
stored a [] mem = mem
stored a (x ∷ xs) mem = stored (a + 1) xs (update mem a x)

-- The `n` bytes from an address on.
abbrev pub bytes_at : Memory → ℕ → ℕ → List ℕ
bytes_at mem a zero = []
bytes_at mem a (suc n) = mem a ∷ bytes_at mem (a + 1) n

pub stored-outside :
    (d : ℕ) (xs : List ℕ) (mem : Memory) (a : ℕ)
    → (a < d) ⊎ (d + length xs ≤ a)
    → stored d xs mem a ≡ mem a
stored-outside d [] mem a h = refl
stored-outside d (x ∷ xs) mem a h =
    stored-outside (d + 1) xs (update mem d x) a (omega arith) ∙ ground arith

pub bytes_at-stored :
    (d : ℕ) (xs : List ℕ) (mem : Memory) → bytes_at (stored d xs mem) d (length xs) ≡ xs
bytes_at-stored d [] mem = refl
bytes_at-stored d (x ∷ xs) mem =
    let first : stored (d + 1) xs (update mem d x) d ≡ x =
      stored-outside (d + 1) xs (update mem d x) d (omega arith) ∙ ground arith in
    let others = bytes_at-stored (d + 1) xs (update mem d x) in cc (first, others)

strcpy_stores :
    (dst : ℕ) (xs rest : List ℕ) (mem : Memory)
    → IsText xs
    → strcpy dst (ended xs rest) mem ≡ some (stored dst (xs ++ 0 ∷ []) mem)
unfolding strcpy
strcpy_stores dst [] rest mem t = refl
strcpy_stores dst (x ∷ xs) rest mem (nx, t) =
    let e : (x == 0) ≡ false = ground arith in
    rw (e, strcpy) (strcpy_stores (dst + 1) xs rest (update mem dst x) t)

strlcpy_loop_stores :
    (size dst : ℕ) (xs rest : List ℕ) (mem : Memory)
    → IsText xs
    → strlcpy_loop dst (ended xs rest) size mem
      ≡ some (stored dst (take size xs ++ 0 ∷ []) mem, dst + min (length xs) size)
unfolding strlcpy_loop
strlcpy_loop_stores zero dst xs rest mem t = ap (λ n. some (update mem dst 0, n)) (omega arith)
strlcpy_loop_stores (suc size) dst [] rest mem t =
    ap (λ n. some (update mem dst 0, n)) (omega arith)
strlcpy_loop_stores (suc size) dst (x ∷ xs) rest mem (nx, t) =
    let e : (x == 0) ≡ false = ground arith in
    rw (e, strlcpy_loop)
      (strlcpy_loop_stores size (dst + 1) xs rest (update mem dst x) t
        ∙ ap (λ n. some (stored (dst + 1) (take size xs ++ 0 ∷ []) (update mem dst x), n))
            (omega arith))

strlcpy_stores :
    (size dst : ℕ) (xs rest : List ℕ) (mem : Memory)
    → IsText xs
    → strlcpy dst (ended xs rest) (suc size) mem
      ≡ some (stored dst (take size xs ++ 0 ∷ []) mem, min (length xs) size)
unfolding strlcpy
strlcpy_stores size dst xs rest mem t =
    rw (strlcpy_loop_stores size dst xs rest mem t, strlcpy)
      (ap (λ n. some (stored dst (take size xs ++ 0 ∷ []) mem, n)) (omega arith))

-- A text and its 0 at an address, in a memory that is otherwise as before.
abbrev pub IsCopied : ℕ → List ℕ → Memory → Memory → Type 0
IsCopied dst xs mem mem' =
    (bytes_at mem' dst (length xs + 1) ≡ xs ++ 0 ∷ [])
    × ((a : ℕ) → (a < dst) ⊎ (dst + length xs < a) → mem' a ≡ mem a)

pub stored-IsCopied :
    (dst : ℕ) (xs : List ℕ) (mem : Memory) → IsCopied dst xs mem (stored dst (xs ++ 0 ∷ []) mem)
stored-IsCopied dst xs mem =
    let size : length (xs ++ 0 ∷ []) ≡ length xs + 1 = omega (arith, length-append xs (0 ∷ [])) in
    (
      ap (bytes_at (stored dst (xs ++ 0 ∷ []) mem) dst) (sym size)
          ∙ bytes_at-stored dst (xs ++ 0 ∷ []) mem,
      λ a h. stored-outside dst (xs ++ 0 ∷ []) mem a (omega arith),
    )

-- `strcpy` of a text writes it with its 0, and nothing else.
pub strcpy_lem :
    (dst : ℕ) (xs rest : List ℕ) (mem : Memory)
    → IsText xs
    → (mem' : Memory) × (strcpy dst (ended xs rest) mem ≡ some mem') × IsCopied dst xs mem mem'
strcpy_lem dst xs rest mem t = (_, strcpy_stores dst xs rest mem t, stored-IsCopied dst xs mem)

-- `strlcpy` with room for `size + 1` bytes writes the first `size` bytes of the text, or all of a
-- shorter one, with a 0 behind them, and nothing else; it returns how many stand before the 0.
pub strlcpy_lem :
    (size dst : ℕ) (xs rest : List ℕ) (mem : Memory)
    → IsText xs
    → (mem' : Memory) × (strlcpy dst (ended xs rest) (suc size) mem
        ≡ some (mem', min (length xs) size))
      × IsCopied dst (take size xs) mem mem'
strlcpy_lem size dst xs rest mem t =
    (_, strlcpy_stores size dst xs rest mem t, stored-IsCopied dst (take size xs) mem)

strncpy_pads :
    (n dst : ℕ) (rest : List ℕ) (mem : Memory)
    → strncpy dst (0 ∷ rest) n mem ≡ some (stored dst (replicate n 0) mem)
unfolding strncpy
strncpy_pads zero dst rest mem = refl
strncpy_pads (suc n) dst rest mem = strncpy_pads n (dst + 1) rest (update mem dst 0)

-- `strncpy` writes exactly `n` bytes: the text cut to `n`, and zeros behind a shorter one.
pub strncpy_lem :
    (n dst : ℕ) (xs rest : List ℕ) (mem : Memory)
    → IsText xs
    → strncpy dst (ended xs rest) n mem
      ≡ some (stored dst (take n xs ++ replicate (n - length xs) 0) mem)
unfolding strncpy
strncpy_lem zero dst xs rest mem t =
    let z : 0 ≡ 0 - length xs = omega arith in ap (λ k. some (stored dst (replicate k 0) mem)) z
strncpy_lem (suc n) dst [] rest mem t =
    let z : suc n ≡ suc n - 0 = omega arith in
    strncpy_pads (suc n) dst rest mem ∙ ap (λ k. some (stored dst (replicate k 0) mem)) z
strncpy_lem (suc n) dst (x ∷ xs) rest mem (nx, t) =
    let e : (x == 0) ≡ false = ground arith in
    let z : n - length xs ≡ suc n - suc (length xs) = omega arith in
    rw (e, strncpy)
      (strncpy_lem n (dst + 1) xs rest (update mem dst x) t
        ∙ ap (λ k. some (stored (dst + 1) (take n xs ++ replicate k 0) (update mem dst x))) z)
