-- ===== src/KernLib/Str/Memory.antt =====
-- `memmove` and `memset`, byte by byte.
use cs.Prelude.{
  ℕ, zero, suc, ◌+◌, ◌-◌, ◌*◌, ◌/◌, ◌%◌, ◌≤◌, ◌<◌, ◌≡◌, ◌⊎◌, ◌∙◌, inl, inr, ◌&&◌, ltb, leb, ◌==◌,
  if◌then◌else◌, update, arith, ap, Bool-cases,
}
use cs.KernLib.Str.{
  Memory, stosb, stosl, store32, spread, memset, movsb_up, movsl_up, movsb_down, movsl_down,
  copy_word, memmove,
}

-- What stands at `a` after `n` bytes were moved from `s` to `d`.
abbrev pub moved : ℕ → ℕ → ℕ → Memory → ℕ → ℕ
moved d s n mem a = if leb d a && ltb a (d + n) then mem (s + (a - d)) else mem a

copy_word_lem : (d s : ℕ) (mem : Memory) (a : ℕ) → copy_word d s mem a ≡ moved d s 4 mem a
unfolding copy_word
copy_word_lem d s mem a = ground arith

movsb_up_lem :
    (n d s : ℕ) (mem : Memory) (a : ℕ)
    → (d ≤ s) ⊎ (s + n ≤ d)
    → movsb_up n d s mem a ≡ moved d s n mem a
unfolding movsb_up
movsb_up_lem zero d s mem a h = ground arith
movsb_up_lem (suc n) d s mem a h =
    movsb_up_lem n (d + 1) (s + 1) (update mem d (mem s)) a (omega arith) ∙ ground arith

movsb_down_lem :
    (n d s : ℕ) (mem : Memory) (a : ℕ) → s ≤ d → movsb_down n d s mem a ≡ moved d s n mem a
unfolding movsb_down
movsb_down_lem zero d s mem a h = ground arith
movsb_down_lem (suc n) d s mem a h =
    movsb_down_lem n d s (update mem (d + n) (mem (s + n))) a h ∙ ground arith

-- Words that are apart, or the same: alignment makes it so.
movsl_up_lem :
    (n d s : ℕ) (mem : Memory) (a : ℕ)
    → (d ≡ s) ⊎ ((d + 4 ≤ s) ⊎ (s + 4 * n ≤ d))
    → movsl_up n d s mem a ≡ moved d s (4 * n) mem a
unfolding movsl_up
movsl_up_lem zero d s mem a h = ground arith
movsl_up_lem (suc n) d s mem a h =
    movsl_up_lem n (d + 4) (s + 4) (copy_word d s mem) a (omega arith)
    ∙ ground (arith, copy_word_lem d s mem a, copy_word_lem d s mem (s + 4 + (a - (d + 4))))

movsl_down_lem :
    (n d s : ℕ) (mem : Memory) (a : ℕ)
    → s + 4 ≤ d
    → movsl_down n d s mem a ≡ moved d s (4 * n) mem a
unfolding movsl_down
movsl_down_lem zero d s mem a h = ground arith
movsl_down_lem (suc n) d s mem a h =
    movsl_down_lem n d s (copy_word (d + 4 * n) (s + 4 * n) mem) a h
    ∙ ground (
      arith,
      copy_word_lem (d + 4 * n) (s + 4 * n) mem a,
      copy_word_lem (d + 4 * n) (s + 4 * n) mem (s + (a - d)),
    )

whole_words :
    (d s n : ℕ) (mem : Memory) (a : ℕ)
    → n % 4 ≡ 0
    → moved d s (4 * (n / 4)) mem a ≡ moved d s n mem a
whole_words d s n mem a h = let e : 4 * (n / 4) ≡ n = omega arith in ap (λ k. moved d s k mem a) e

aligned_apart :
    (d s n : ℕ)
    → s % 4 ≡ 0
    → d % 4 ≡ 0
    → n % 4 ≡ 0
    → (d ≤ s) ⊎ (s + n ≤ d)
    → (d ≡ s) ⊎ ((d + 4 ≤ s) ⊎ (s + 4 * (n / 4) ≤ d))
aligned_apart d s n p q r h = elim (Bool-cases (d == s)) [
  | inl e ↦ inl (ground arith)
  | inr ne ↦ elim (Bool-cases (ltb d s)) [
    | inl lt ↦ inr (inl (ground arith))
    | inr ge ↦ inr (inr (ground arith))
  ]
]

-- `memmove` moves the `n` bytes as they stood before the call, however source and target overlap and
-- whatever their alignment, and changes no other byte.
pub memmove_lem :
    (d s n : ℕ) (mem : Memory) (a : ℕ)
    → memmove d s n mem a ≡ (if leb d a && ltb a (d + n) then mem (s + (a - d)) else mem a)
unfolding memmove
memmove_lem d s n mem a = elim (Bool-cases (ltb s d && ltb d (s + n))) [
  | inl over ↦ elim (Bool-cases (((s + n) % 4 == 0) && (((d + n) % 4 == 0) && (n % 4 == 0)))) [
    | inl words ↦
        rw (over, words)
          (movsl_down_lem (n / 4) d s mem a (ground arith) ∙ whole_words d s n mem a (ground arith))
    | inr bytes ↦ rw (over, bytes) (movsb_down_lem n d s mem a (ground arith))
  ]
  | inr apart ↦ elim (Bool-cases ((s % 4 == 0) && ((d % 4 == 0) && (n % 4 == 0)))) [
    | inl words ↦
        rw (apart, words)
          (movsl_up_lem (n / 4) d s mem a
              (aligned_apart d s n (ground arith) (ground arith) (ground arith) (ground arith))
            ∙ whole_words d s n mem a (ground arith))
    | inr bytes ↦ rw (apart, bytes) (movsb_up_lem n d s mem a (ground arith))
  ]
]

filled : ℕ → ℕ → ℕ → Memory → ℕ → ℕ
filled v n b mem a = if leb v a && ltb a (v + n) then b else mem a

stosb_lem : (n v b : ℕ) (mem : Memory) (a : ℕ) → stosb n v b mem a ≡ filled v n b mem a
unfolding stosb filled
stosb_lem zero v b mem a = ground arith
stosb_lem (suc n) v b mem a = stosb_lem n (v + 1) b (update mem v b) a ∙ ground arith

store32_lem :
    (v c : ℕ) (mem : Memory) (a : ℕ) → c < 256 → store32 v (spread c) mem a ≡ filled v 4 c mem a
unfolding store32 filled
store32_lem v c mem a h = ground arith

stosl_lem :
    (n v c : ℕ) (mem : Memory) (a : ℕ)
    → c < 256
    → stosl n v (spread c) mem a ≡ filled v (4 * n) c mem a
unfolding stosl filled
stosl_lem zero v c mem a h = ground arith
stosl_lem (suc n) v c mem a h =
    stosl_lem n (v + 4) c (store32 v (spread c) mem) a h ∙ ground (arith, store32_lem v c mem a h)

-- `memset` stores the low byte of `c` in the `n` bytes from `v` on, by words or by bytes, and changes
-- no other byte.
pub memset_lem :
    (v c n : ℕ) (mem : Memory) (a : ℕ)
    → memset v c n mem a ≡ (if leb v a && ltb a (v + n) then c % 256 else mem a)
unfolding memset filled
memset_lem v c n mem a = elim (Bool-cases (n == 0)) [
  | inl z ↦ rw z (ground arith)
  | inr nz ↦ elim (Bool-cases ((v % 4 == 0) && (n % 4 == 0))) [
    | inl words ↦
        let e : 4 * (n / 4) ≡ n = ground arith in
        rw (nz, words)
          (stosl_lem (n / 4) v (c % 256) mem a (omega arith)
            ∙ ap (λ k. filled v k (c % 256) mem a) e)
    | inr bytes ↦ rw (nz, bytes) (stosb_lem n v (c % 256) mem a)
  ]
]
