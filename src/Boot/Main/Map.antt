-- ===== src/Boot/Main/Map.antt =====
-- From the memory map of the BIOS to the kernel's.
use cs.Prelude.{
  ℕ, zero, suc, ◌+◌, ◌*◌, ◌<◌, ◌≤◌, ◌≡◌, ◌∙◌, sym, ap, subst, true, false, some, add32, arith,
}
use cs.Dev.Mboot.{MbootMmap, PmmapState, pmmap_zero, pmmap_init}
use cs.Dev.Mboot.Insert.{covers}
use cs.Dev.Mboot.Init.{entries_cover, entry_count}
use cs.Dev.Mboot.Finish.{IsMap}
use cs.Dev.Mboot.Map.{EntriesKnown, pmmap_init-IsMap, pmmap_init_succeeds}
use cs.Boot.Main.{is_entry, parse_e820, parse_e820_loop}

-- The first null entry is the one at `n`.
abbrev pub EndsAt : ℕ → (ℕ → MbootMmap) → Type 0
EndsAt n smap = ((i : ℕ) → i < n → is_entry (smap i) ≡ true) × (is_entry (smap n) ≡ false)

parse_e820_loop_lem :
    (rounds n k i : ℕ) (smap : ℕ → MbootMmap)
    → EndsAt n smap
    → i + k ≡ n
    → k < rounds
    → 24 * n < 0x1_0000_0000
    → parse_e820_loop rounds smap i (24 * i) ≡ some (24 * n)
unfolding parse_e820_loop
parse_e820_loop_lem zero n k i smap ends at enough small = absurd (omega arith)
parse_e820_loop_lem (suc rounds) n zero i smap ends at enough small =
    let here : i ≡ n = omega arith in
    let stop : is_entry (smap i) ≡ false = ap (λ j. is_entry (smap j)) here ∙ ends.1 in
    rw stop (ap (λ j. some (24 * j)) here)
parse_e820_loop_lem (suc rounds) n (suc k) i smap ends at enough small =
    let go : is_entry (smap i) ≡ true = ends.0 i (omega arith) in
    let next : add32 (24 * i) 24 ≡ 24 * (i + 1) = omega arith in
    rw (go, next)
      (parse_e820_loop_lem rounds n k (i + 1) smap ends (omega arith) (omega arith) small)

-- A BIOS's map of at most 128 entries, all of known types, that a null entry ends, becomes a kernel
-- map: `parse_e820` ends with a length at which `pmmap_init` answers, and the map it builds is
-- sorted and counted right and covers an address with a memory type exactly when an entry in front
-- of the null one, below 4G, does.
pub parse_e820-pmmap_init :
    (rounds n : ℕ) (smap : ℕ → MbootMmap)
    → EndsAt n smap
    → EntriesKnown n smap
    → n ≤ 128
    → n < rounds
    → (len : ℕ) × (s : PmmapState) × (parse_e820 rounds smap ≡ some len)
      × (pmmap_init smap len pmmap_zero ≡ some (some s))
      × IsMap s
      × ((t a : ℕ) → covers t a s.pmmap_list ≡ entries_cover t a smap 0 n)
unfolding parse_e820
parse_e820-pmmap_init rounds n smap ends known few enough =
    let count : entry_count (24 * n) ≡ n = omega arith in
    let (s, run) =
      pmmap_init_succeeds smap (24 * n) (subst (λ m. EntriesKnown m smap) (sym count) known)
        (omega arith) in
    let (is_map, cover) = pmmap_init-IsMap smap (24 * n) s (omega arith) run in
    (
      24 * n,
      s,
      parse_e820_loop_lem rounds n n 0 smap ends (omega arith) enough (omega arith),
      run,
      is_map,
      λ t a. cover t a ∙ ap (entries_cover t a smap 0) count,
    )
