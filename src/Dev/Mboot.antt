-- ===== src/Dev/Mboot.antt =====
-- kern/dev/mboot.c: the physical memory map that the boot loader hands over.
pub mod Insert
pub mod Merge
pub mod Init
pub mod Getters
pub mod Fit
pub mod Finish
pub mod Map
use cs.Prelude.{
  ℕ, zero, suc, ◌+◌, ◌-◌, ◌*◌, ◌/◌, ◌%◌, Bool, true, false, ◌&&◌, ◌||◌, not, Option, none, some,
  List, [], ◌∷◌, ltb, leb, ◌==◌, if◌then◌else◌, add32, sub32, update, length,
}

-- `struct pmmap`, without its two link fields: a list of these stands for the slots that a
-- singly-linked list of kern/lib/queue.h goes through.
pub record Pmmap : Type 0 where
  pub start : ℕ
  pub end : ℕ
  pub type : ℕ

-- `mboot_mmap_t`, without its `size`, which is not read.
pub record MbootMmap : Type 0 where
  pub base_addr_low : ℕ
  pub base_addr_high : ℕ
  pub length_low : ℕ
  pub length_high : ℕ
  pub type : ℕ

-- The statics. The sublists are those of usable, reserved, ACPI and NVS memory, 0 to 3.
pub record PmmapState : Type 0 where
  pub pmmap_slots_next_free : ℕ
  pub pmmap_list : List Pmmap
  pub pmmap_sublist : ℕ → List Pmmap
  pub max_usable_memory : ℕ
  pub mem_npages : ℕ
  pub pmmap_nentries : ℕ

abbrev pub mem_ram : ℕ
mem_ram = 1

abbrev pub mem_reserved : ℕ
mem_reserved = 2

abbrev pub mem_acpi : ℕ
mem_acpi = 3

abbrev pub mem_nvs : ℕ
mem_nvs = 4

abbrev pub pagesize : ℕ
pagesize = 4096

-- `SLIST_INSERT_HEAD` and `SLIST_INSERT_AFTER`, for an element named by its position.
abbrev pub slist_insert_head {ℓ} : {A : Type ℓ} → A → List A → List A
slist_insert_head elm l = elm ∷ l

unfoldable pub slist_insert_after {ℓ} : {A : Type ℓ} → ℕ → A → List A → List A
slist_insert_after i elm [] = []
slist_insert_after zero elm (x ∷ l) = x ∷ elm ∷ l
slist_insert_after (suc i) elm (x ∷ l) = x ∷ slist_insert_after i elm l

-- Insertion after the element at `last`, or at the head for a null `last`.
unfoldable pub insert_at_last {ℓ} : {A : Type ℓ} → Option ℕ → A → List A → List A
unfolding slist_insert_after
insert_at_last none elm l = slist_insert_head elm l
insert_at_last (some i) elm l = slist_insert_after i elm l

-- The loop of `pmmap_insert`: the position of `last_slot`, the slot at hand being at `i`.
unfoldable pub find_last_slot : ℕ → ℕ → Option ℕ → List Pmmap → Option ℕ
find_last_slot start i last_slot [] = last_slot
find_last_slot start i last_slot (slot ∷ rest) =
    let further = find_last_slot start (i + 1) (some i) rest in
    if ltb start slot.start then last_slot else further

-- Whether a slot is left; the slot's address plays no part.
unfoldable pub pmmap_alloc_slot : PmmapState → Option PmmapState
pmmap_alloc_slot s =
    if s.pmmap_slots_next_free == 128
    then none
    else some (record s { pmmap_slots_next_free = s.pmmap_slots_next_free + 1 })

-- `none` is `KERN_PANIC`, which halts the machine.
unfoldable pub pmmap_insert : ℕ → ℕ → ℕ → PmmapState → Option PmmapState
unfolding pmmap_alloc_slot
pmmap_insert start end type s = elim (pmmap_alloc_slot s) [
  | none ↦ none
  | some s' ↦ some (record s' {
    pmmap_list =
        insert_at_last (find_last_slot start 0 none s'.pmmap_list)
          (record { start = start; end = end; type = type }) s'.pmmap_list;
  })
]

-- `max` of kern/lib/types.c.
unfoldable pub max : ℕ → ℕ → ℕ
max a b = if ltb b a then a else b

-- The test of step 1 of `pmmap_merge`.
unfoldable pub overlapped : Pmmap → Pmmap → Bool
overlapped slot next_slot =
    leb slot.start next_slot.start && leb next_slot.start slot.end && (slot.type == next_slot.type)

unfoldable pub extended : Pmmap → Pmmap → Pmmap
unfolding max
extended slot next_slot = record slot { end = max slot.end next_slot.end }

-- Step 1 of `pmmap_merge`: after a removal the loop goes on to the slot behind the removed one.
unfoldable pub merge_overlapped : List Pmmap → List Pmmap
merge_overlapped [] = []
merge_overlapped (slot ∷ []) = slot ∷ []
merge_overlapped (slot ∷ next_slot ∷ rest) = elim (overlapped slot next_slot) [
  | true ↦ extended slot next_slot ∷ merge_overlapped rest
  | false ↦ slot ∷ merge_overlapped (next_slot ∷ rest)
]

-- `PMMAP_SUBLIST_NR`; `none` is its -1.
unfoldable pub pmmap_sublist_nr : ℕ → Option ℕ
pmmap_sublist_nr type =
    if type == mem_ram
    then some 0
    else if type == mem_reserved
    then some 1
    else if type == mem_acpi
    then some 2
    else if type == mem_nvs
    then some 3
    else none

-- The sublists, with the position of each `last_slot` and the slot that stands there.
pub record Sublists : Type 0 where
  pub lists : ℕ → List Pmmap
  pub last_slot : ℕ → Option ℕ
  pub last_usable : Option Pmmap

abbrev pub position_after : Option ℕ → ℕ
position_after none = 0
position_after (some i) = i + 1

-- One round of step 2.
unfoldable pub sublist_insert : ℕ → Pmmap → Sublists → Sublists
sublist_insert nr slot b = record {
  lists = update b.lists nr (insert_at_last (b.last_slot nr) slot (b.lists nr));
  last_slot = update b.last_slot nr (some (position_after (b.last_slot nr)));
  last_usable = if nr == 0 then some slot else b.last_usable;
}

-- Step 2 of `pmmap_merge`; `none` is the failed assertion on an unknown type.
unfoldable pub fill_sublists : List Pmmap → Sublists → Option Sublists
fill_sublists [] b = some b
fill_sublists (slot ∷ rest) b = elim (pmmap_sublist_nr slot.type) [
  | none ↦ none
  | some nr ↦ fill_sublists rest (sublist_insert nr slot b)
]

-- `max_usable_memory` after step 2: the end of the last usable slot, if there is one.
abbrev pub usable_end : ℕ → Option Pmmap → ℕ
usable_end old none = old
usable_end old (some slot) = slot.end

unfoldable pub pmmap_merge : PmmapState → Option PmmapState
pmmap_merge s =
    let merged = merge_overlapped s.pmmap_list in
    elim (fill_sublists merged
      (record { lists = s.pmmap_sublist; last_slot = λ i. none; last_usable = none })) [
        | none ↦ none
        | some b ↦ some (record s {
          pmmap_list = merged;
          pmmap_sublist = b.lists;
          max_usable_memory = usable_end s.max_usable_memory b.last_usable;
        })
      ]

-- The end of the region that an entry describes, cut off at 4G.
unfoldable pub region_end : MbootMmap → ℕ
region_end p =
    if not (p.length_high == 0) || leb (0xffffffff - p.base_addr_low) p.length_low
    then 0xffffffff
    else p.base_addr_low + p.length_low

-- One round of the copying loop: an entry above 4G is skipped.
unfoldable pub copy_entry : MbootMmap → PmmapState → Option PmmapState
copy_entry p s =
    if not (p.base_addr_high == 0)
    then some s
    else pmmap_insert p.base_addr_low (region_end p) p.type s

-- The loop over the entries at `mmap_addr`, `mmap i` being the one at 24 * `i` bytes from there.
-- The outer `none` means that the fuel ran out, the inner one that the kernel panicked.
unfoldable pub copy_entries :
    ℕ → (ℕ → MbootMmap) → ℕ → ℕ → ℕ → PmmapState → Option (Option PmmapState)
copy_entries zero mmap mmap_length i offset s = none
copy_entries (suc fuel) mmap mmap_length i offset s = elim (ltb offset mmap_length) [
  | true ↦ elim (copy_entry (mmap i) s) [
    | none ↦ some none
    | some s' ↦ copy_entries fuel mmap mmap_length (i + 1) (add32 offset 24) s'
  ]
  | false ↦ some (some s)
]

-- What `pmmap_init` does after the copying loop.
unfoldable pub pmmap_finish : PmmapState → Option PmmapState
pmmap_finish s = elim (pmmap_merge s) [
  | none ↦ none
  | some s' ↦ some (record s' {
    pmmap_nentries = s'.pmmap_nentries + length s'.pmmap_list;
    mem_npages = (s'.max_usable_memory - s'.max_usable_memory % pagesize) / pagesize;
  })
]

-- The lists are emptied first. The dump of the map is output only.
unfoldable pub pmmap_init : (ℕ → MbootMmap) → ℕ → PmmapState → Option (Option PmmapState)
pmmap_init mmap mmap_length s =
    elim (copy_entries (mmap_length / 24 + 2) mmap mmap_length 0 0
      (record s { pmmap_list = []; pmmap_sublist = λ i. [] })) [
        | none ↦ none
        | some none ↦ some none
        | some (some s') ↦ some (pmmap_finish s')
      ]

-- The static storage before any call.
abbrev pub pmmap_zero : PmmapState
pmmap_zero = record {
  pmmap_slots_next_free = 0;
  pmmap_list = [];
  pmmap_sublist = λ i. [];
  max_usable_memory = 0;
  mem_npages = 0;
  pmmap_nentries = 0;
}

unfoldable pub get_size : PmmapState → ℕ
get_size s = s.pmmap_nentries

-- The loop that the three getters share: the slot at `idx` and the final `i`, if there is one.
unfoldable pub seek : ℕ → ℕ → List Pmmap → Option (Pmmap × ℕ)
seek idx i [] = none
seek idx i (slot ∷ rest) =
    let further = seek idx (i + 1) rest in if i == idx then some (slot, i) else further

-- What a getter returns of the slot at `idx`; 0 where there is none.
unfoldable pub get_of_slot : (Pmmap → ℕ) → ℕ → PmmapState → ℕ
get_of_slot f idx s = elim (seek idx 0 s.pmmap_list) [
  | none ↦ 0
  | some (slot, i) ↦ if i == s.pmmap_nentries then 0 else f slot
]

unfoldable pub get_mms : ℕ → PmmapState → ℕ
get_mms idx s = get_of_slot (λ slot. slot.start) idx s

unfoldable pub get_mml : ℕ → PmmapState → ℕ
get_mml idx s = get_of_slot (λ slot. sub32 slot.end slot.start) idx s

unfoldable pub is_usable : ℕ → PmmapState → ℕ
is_usable idx s = get_of_slot (λ slot. if slot.type == mem_ram then 1 else 0) idx s
