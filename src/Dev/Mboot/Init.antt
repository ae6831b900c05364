-- ===== src/Dev/Mboot/Init.antt =====
-- `pmmap_init`: the map that it builds from the boot loader's entries.
use cs.Prelude.{
  ℕ, zero, suc, ◌+◌, ◌*◌, ◌/◌, ◌≤◌, ◌<◌, ◌≡◌, ◌∙◌, sym, ap, inl, inr, Bool, true, false, ◌&&◌, ◌||◌,
  Option, none, some, ltb, ◌==◌, arith, Option-cases, add32,
}
use cs.Dev.Mboot.{Pmmap, MbootMmap, PmmapState, copy_entry, copy_entries, region_end}
use cs.Dev.Mboot.Insert.{in_region}

-- The region that an entry describes.
abbrev pub region : MbootMmap → Pmmap
region p = record { start = p.base_addr_low; end = region_end p; type = p.type }

-- Whether an entry below 4G is of type `t` and holds address `a`.
unfoldable pub entry_covers : ℕ → ℕ → MbootMmap → Bool
entry_covers t a p = (p.base_addr_high == 0) && in_region t a (region p)

-- Whether one of the `n` entries from the `i`-th on covers the address.
unfoldable pub entries_cover : ℕ → ℕ → (ℕ → MbootMmap) → ℕ → ℕ → Bool
entries_cover t a mmap i zero = false
entries_cover t a mmap i (suc n) = entry_covers t a (mmap i) || entries_cover t a mmap (i + 1) n

-- The number of entries that begin below `mmap_length`.
abbrev pub entry_count : ℕ → ℕ
entry_count mmap_length = (mmap_length + 23) / 24

-- Copying `n` entries from the `i`-th on, with no fuel and no offset.
unfoldable pub copy_all : ℕ → (ℕ → MbootMmap) → ℕ → PmmapState → Option PmmapState
copy_all zero mmap i s = some s
copy_all (suc n) mmap i s = elim (copy_entry (mmap i) s) [
  | none ↦ none
  | some s' ↦ copy_all n mmap (i + 1) s'
]

copy_entries_stop :
    (fuel : ℕ) (mmap : ℕ → MbootMmap) (len i offset : ℕ) (s : PmmapState)
    → ltb offset len ≡ false
    → copy_entries (suc fuel) mmap len i offset s ≡ some (some s)
unfolding copy_entries
copy_entries_stop fuel mmap len i offset s e = rw (e, copy_entries)

copy_entries-none :
    (fuel : ℕ) (mmap : ℕ → MbootMmap) (len i offset : ℕ) (s : PmmapState)
    → ltb offset len ≡ true
    → copy_entry (mmap i) s ≡ none
    → copy_entries (suc fuel) mmap len i offset s ≡ some none
unfolding copy_entries
copy_entries-none fuel mmap len i offset s e c = rw (e, c, copy_entries)

copy_entries-some :
    (fuel : ℕ) (mmap : ℕ → MbootMmap) (len i offset : ℕ) (s s' : PmmapState)
    → ltb offset len ≡ true
    → copy_entry (mmap i) s ≡ some s'
    → copy_entries (suc fuel) mmap len i offset s
      ≡ copy_entries fuel mmap len (i + 1) (add32 offset 24) s'
unfolding copy_entries
copy_entries-some fuel mmap len i offset s s' e c = rw (e, c, copy_entries)

copy_all-none :
    (n : ℕ) (mmap : ℕ → MbootMmap) (i : ℕ) (s : PmmapState)
    → copy_entry (mmap i) s ≡ none
    → copy_all (suc n) mmap i s ≡ none
unfolding copy_all
copy_all-none n mmap i s c = rw (c, copy_all)

copy_all-some :
    (n : ℕ) (mmap : ℕ → MbootMmap) (i : ℕ) (s s' : PmmapState)
    → copy_entry (mmap i) s ≡ some s'
    → copy_all (suc n) mmap i s ≡ copy_all n mmap (i + 1) s'
unfolding copy_all
copy_all-some n mmap i s s' c = rw (c, copy_all)

-- The loop copies the entries that begin below `mmap_length`, each once.
pub copy_entries-copy_all :
    (n fuel : ℕ) (mmap : ℕ → MbootMmap) (len i : ℕ) (s : PmmapState)
    → len + 24 ≤ 0x1_0000_0000
    → i + n ≡ entry_count len
    → n < fuel
    → copy_entries fuel mmap len i (24 * i) s ≡ some (copy_all n mmap i s)
copy_entries-copy_all n zero mmap len i s h e f = absurd (omega arith)
copy_entries-copy_all zero (suc fuel) mmap len i s h e f =
    unfold copy_all in copy_entries_stop fuel mmap len i (24 * i) s (ground arith)
copy_entries-copy_all (suc n) (suc fuel) mmap len i s h e f =
    elim (Option-cases (copy_entry (mmap i) s)) [
      | inl c ↦
          copy_entries-none fuel mmap len i (24 * i) s (ground arith) c
          ∙ ap some (sym (copy_all-none n mmap i s c))
      | inr (s', c) ↦
          copy_entries-some fuel mmap len i (24 * i) s s' (ground arith) c
          ∙ rw (copy_all-some n mmap i s s' c) (
              let next : add32 (24 * i) 24 ≡ 24 * (i + 1) = omega arith in
              rw next
                (copy_entries-copy_all n fuel mmap len (i + 1) s' h (omega arith) (omega arith)))
    ]
