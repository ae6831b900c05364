-- ===== src/Boot/Print/Itox.antt =====
-- `itox` and numerals.
use cs.Prelude.{
  ℕ, zero, suc, ◌+◌, ◌-◌, ◌/◌, ◌%◌, ◌^◌, ◌<◌, ◌≤◌, ◌≡◌, ◌≢◌, ◌∙◌, refl, sym, ap, subst, inl, inr,
  Bool, true, false, some, List, [], ◌∷◌, ◌++◌, ltb, ◌==◌, if◌then◌else◌, update, get_or, length,
  length-append, arith, Bool-cases, passes, passes-at,
}
use native.Mathlib.Nat.{mod-eq_of_lt, mod-lt, div-add-mod', div-eq_of_lt}
use cs.KernLib.Printfmt.Numeral.{hex_digit, IsNumeral, one, more, div-lt_half, div-pos, fuel-pos}
use cs.KernLib.Dprintf.Buffer.{Holds, Holds-snoc, Holds-update}
use cs.Boot.Print.{itox_loop, itox, reverse, dec, hex}
use cs.Boot.Print.Reverse.{rev, rev-snoc, length-rev, IsNonzero, reverse_lem}

-- The table holds the digits of the base.
abbrev pub IsTable : ℕ → List ℕ → Type 0
IsTable root table = (d : ℕ) → d < root → get_or table d 0 ≡ hex_digit d

pub dec-IsTable : IsTable 10 dec
unfolding passes
dec-IsTable d h = ground (arith, passes-at (λ d. get_or dec d 0 == hex_digit d) 10 d refl h)

hex-IsTable : IsTable 16 hex
unfolding passes
hex-IsTable d h = ground (arith, passes-at (λ d. get_or hex d 0 == hex_digit d) 16 d refl h)

-- From `i` on the array holds the digits of a numeral, the last first, and before it what it did.
abbrev IsWritten : ℕ → (ℕ → ℕ) → List ℕ → ℕ → (ℕ → ℕ) → Type 0
IsWritten i s ds i' s' =
    (i' ≡ i + length ds) × (Holds s' i (rev ds) × ((k : ℕ) → k < i → s' k ≡ s k))

itox_loop-last :
    (rounds n root : ℕ) (table : List ℕ) (i : ℕ) (s : ℕ → ℕ)
    → n < root
    → IsTable root table
    → itox_loop (suc rounds) n root table i s ≡ some (i + 1, update s i (hex_digit n))
unfolding itox_loop
itox_loop-last rounds n root table i s h t =
    let m : n % root ≡ n = mod-eq_of_lt h in
    let d : n / root ≡ 0 = div-eq_of_lt h in rw (itox_loop, d, m, t n h) refl

itox_loop-more :
    (rounds n root : ℕ) (table : List ℕ) (i : ℕ) (s : ℕ → ℕ)
    → 0 < n / root
    → n % root < root
    → IsTable root table
    → itox_loop (suc rounds) n root table i s
      ≡ itox_loop rounds (n / root) root table (i + 1) (update s i (hex_digit (n % root)))
unfolding itox_loop
itox_loop-more rounds n root table i s h lt t =
    let e : ltb 0 (n / root) ≡ true = ground arith in rw (itox_loop, e, t (n % root) lt) refl

itox_loop_lem :
    (rounds n root : ℕ) (table : List ℕ) (i : ℕ) (s : ℕ → ℕ)
    → 2 ≤ root
    → IsTable root table
    → n < 2 ^ rounds
    → 0 < rounds
    → (ds : List ℕ) × (i' : ℕ) × (s' : ℕ → ℕ) × (itox_loop rounds n root table i s ≡ some (i', s'))
      × IsNumeral root n ds
      × (length ds ≤ rounds)
      × IsWritten i s ds i' s'
itox_loop_lem zero n root table i s hr t h hf = absurd (omega arith)
itox_loop_lem (suc rounds) n root table i s hr t h hf = elim (Bool-cases (ltb n root)) [
  | inl small ↦
      let lt : n < root = ground arith in
      (
        hex_digit n ∷ [],
        i + 1,
        update s i (hex_digit n),
        itox_loop-last rounds n root table i s lt t,
        one lt,
        (omega arith),
        (refl, (((ground arith), tt), λ k p. ground arith)),
      )
  | inr big ↦
      let le : root ≤ n = ground arith in
      let half : n / root < 2 ^ rounds = div-lt_half n root (2 ^ rounds) hr (omega arith) in
      let some_left = div-pos n root (omega arith) le in
      let lt = mod-lt n {m = root} (omega arith) in
      let c = hex_digit (n % root) in
      let (ds, i', s', run, numeral, short, (e, (holds, kept))) =
        itox_loop_lem rounds (n / root) root table (i + 1) (update s i c) hr t half
          (fuel-pos rounds half some_left) in
      let at : s' i ≡ c = kept i (omega arith) ∙ ground arith in
      let longer = length-append ds (c ∷ []) in
      (
        ds ++ c ∷ [],
        i',
        s',
        itox_loop-more rounds n root table i s some_left lt t ∙ run,
        subst (λ k. IsNumeral root k (ds ++ c ∷ [])) (div-add-mod' n root)
            (more some_left lt numeral),
        (omega arith),
        (
          (omega arith),
          (
            subst (Holds s' i) (sym (rev-snoc ds c)) (at, holds),
            λ k p. kept k (omega arith) ∙ ground arith,
          ),
        ),
      )
]

rev-rev : (xs : List ℕ) → rev (rev xs) ≡ xs
rev-rev [] = refl
rev-rev (x ∷ xs) = rev-snoc (rev xs) x ∙ ap (λ l. x ∷ l) (rev-rev xs)

IsNonzero-snoc : (xs : List ℕ) (x : ℕ) → IsNonzero xs → x ≢ 0 → IsNonzero (xs ++ x ∷ [])
IsNonzero-snoc [] x h nz = (nz, tt)
IsNonzero-snoc (y ∷ ys) x (ny, h) nz = (ny, IsNonzero-snoc ys x h nz)

IsNonzero-rev : (xs : List ℕ) → IsNonzero xs → IsNonzero (rev xs)
IsNonzero-rev [] h = tt
IsNonzero-rev (x ∷ xs) (nz, h) = IsNonzero-snoc (rev xs) x (IsNonzero-rev xs h) nz

IsNonzero-numeral : {root n : ℕ} {ds : List ℕ} → IsNumeral root n ds → IsNonzero ds
IsNonzero-numeral (one {d} h) = ((ground arith), tt)
IsNonzero-numeral (more {n} {d} {ds} p h numeral) =
    IsNonzero-snoc ds (hex_digit d) (IsNonzero-numeral numeral) (ground arith)

-- The digits and the sign stand in the array the last first, with a 0 behind them.
finish-reverse :
    (room : ℕ) (s : ℕ → ℕ) (xs : List ℕ)
    → Holds s 0 (rev xs)
    → IsNonzero xs
    → s (length xs) ≡ 0
    → length xs < room
    → (s' : ℕ → ℕ) × (reverse room s ≡ some s') × Holds s' 0 xs × (s' (length xs) ≡ 0)
finish-reverse room s xs h nz z lt =
    let len = length-rev xs in
    let (s', run, holds, kept) =
      reverse_lem room s (rev xs) h (IsNonzero-rev xs nz) (ap s len ∙ z) (omega arith) in
    (s', run, subst (Holds s' 0) (rev-rev xs) holds, kept (length xs) (omega arith) ∙ z)

-- The magnitude and the sign of a 32-bit pattern.
abbrev pub magnitude : ℕ → ℕ
magnitude n = if ltb n 0x8000_0000 then n else 0x1_0000_0000 - n

abbrev pub sign : ℕ → List ℕ
sign n = if ltb n 0x8000_0000 then [] else 45 ∷ []

itox-nonneg :
    (room n root : ℕ) (table : List ℕ) (s : ℕ → ℕ) (i : ℕ) (s' : ℕ → ℕ)
    → n < 0x8000_0000
    → itox_loop 32 (magnitude n) root table 0 s ≡ some (i, s')
    → itox room n root table s ≡ reverse room (update s' i 0)
unfolding itox
itox-nonneg room n root table s i s' h run =
    let least : (n == 0x8000_0000) ≡ false = ground arith in
    let pos_n : ltb n 0x8000_0000 ≡ true = ground arith in rw (itox, least, run, pos_n) refl

itox-neg :
    (room n root : ℕ) (table : List ℕ) (s : ℕ → ℕ) (i : ℕ) (s' : ℕ → ℕ)
    → 0x8000_0000 < n
    → itox_loop 32 (magnitude n) root table 0 s ≡ some (i, s')
    → itox room n root table s ≡ reverse room (update (update s' i 45) (i + 1) 0)
unfolding itox
itox-neg room n root table s i s' h run =
    let least : (n == 0x8000_0000) ≡ false = ground arith in
    let neg_n : ltb n 0x8000_0000 ≡ false = ground arith in rw (itox, least, run, neg_n) refl

sign-append :
    (n : ℕ) (b : Bool) (ds : List ℕ)
    → ltb n 0x8000_0000 ≡ b
    → sign n ++ ds ≡ (if b then [] else 45 ∷ []) ++ ds
sign-append n b ds e = ap (λ t. (if t then [] else 45 ∷ []) ++ ds) e

-- In an array with room for more than 33 bytes, `itox` of any 32-bit pattern but 0x80000000, in a
-- base of at least 2 whose digits the table holds, prints a minus, if the number is negative, and
-- the numeral of its magnitude, with a 0 behind them.
pub itox_lem :
    (room n root : ℕ) (table : List ℕ) (s : ℕ → ℕ)
    → 33 < room
    → n < 0x1_0000_0000
    → n ≢ 0x8000_0000
    → 2 ≤ root
    → ((d : ℕ) → d < root → get_or table d 0 ≡ hex_digit d)
    → (ds : List ℕ) × (s' : ℕ → ℕ) × IsNumeral root (magnitude n) ds
      × (itox room n root table s ≡ some s')
      × Holds s' 0 (sign n ++ ds)
      × (s' (length (sign n ++ ds)) ≡ 0)
itox_lem room n root table s big bound least hr t =
    let (ds, i, s', run, numeral, short, (e, (holds, kept))) =
      itox_loop_lem 32 (magnitude n) root table 0 s hr t (ground arith) (omega arith) in
    let at : i ≡ length ds = omega arith in
    let len = length-rev ds in
    elim (Bool-cases (ltb n 0x8000_0000)) [
      | inl pos_n ↦
          let (s3, turned, text, ends) =
            finish-reverse room (update s' i 0) ds
              (Holds-update s' 0 i 0 (rev ds) holds (omega arith)) (IsNonzero-numeral numeral)
              (ground arith) (omega arith) in
          (
            ds,
            s3,
            numeral,
            itox-nonneg room n root table s i s' (ground arith) run ∙ turned,
            subst (Holds s3 0) (sym (sign-append n true ds pos_n)) text,
            ap (λ l. s3 (length l)) (sign-append n true ds pos_n) ∙ ends,
          )
      | inr neg_n ↦
          let s1 = update s' i 45 in
          let digits = Holds-update s' 0 i 45 (rev ds) holds (omega arith) in
          let whole =
            let place : 0 + length (rev ds) ≡ i = omega arith in
            Holds-snoc s1 0 45 (rev ds) digits (ap s1 place ∙ ground arith) in
          let longer = length-append (rev ds) (45 ∷ []) in
          let (s3, turned, text, ends) =
            finish-reverse room (update s1 (i + 1) 0) (45 ∷ ds)
              (Holds-update s1 0 (i + 1) 0 (rev ds ++ 45 ∷ []) whole (omega arith))
              ((omega arith), IsNonzero-numeral numeral) (ground arith) (omega arith) in
          (
            ds,
            s3,
            numeral,
            itox-neg room n root table s i s' (ground arith) run ∙ turned,
            subst (Holds s3 0) (sym (sign-append n false ds neg_n)) text,
            ap (λ l. s3 (length l)) (sign-append n false ds neg_n) ∙ ends,
          )
    ]
