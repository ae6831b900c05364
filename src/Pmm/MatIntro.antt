-- ===== src/Pmm/MatIntro.antt =====
-- kern/pmm/MATIntro/MATIntro.c: the physical allocation table and its getters and setters.
use cs.Prelude.{ℕ, Bool, not, ltb, ◌==◌, if◌then◌else◌, update}

-- `struct ATStruct`.
pub record AtStruct : Type 0 where
  pub perm : ℕ
  pub allocated : ℕ

-- The two statics, `NUM_PAGES` and `AT`. `AT` has 2 ^ 20 entries, one for each page number that a
-- 32-bit address can have; what C leaves undefined beyond them is an entry like the others here.
pub record Mat : Type 0 where
  pub num_pages : ℕ
  pub at_table : ℕ → AtStruct

-- The static storage before any call.
abbrev pub mat_zero : Mat
mat_zero = record { num_pages = 0; at_table = λ i. record { perm = 0; allocated = 0 } }

-- C reads a number as a condition.
abbrev pub truthy : ℕ → Bool
truthy n = not (n == 0)

unfoldable pub get_nps : Mat → ℕ
get_nps m = m.num_pages

unfoldable pub set_nps : ℕ → Mat → Mat
set_nps nps m = record m { num_pages = nps }

unfoldable pub at_is_norm : ℕ → Mat → ℕ
at_is_norm page_index m = if ltb 1 (m.at_table page_index).perm then 1 else 0

unfoldable pub at_set_perm : ℕ → ℕ → Mat → Mat
at_set_perm page_index perm m = record m {
  at_table = update m.at_table page_index (record { perm = perm; allocated = 0 });
}

unfoldable pub at_is_allocated : ℕ → Mat → ℕ
at_is_allocated page_index m =
    let allocated = (m.at_table page_index).allocated in if ltb 0 allocated then 1 else allocated

unfoldable pub at_set_allocated : ℕ → ℕ → Mat → Mat
at_set_allocated page_index allocated m = record m {
  at_table =
      update m.at_table page_index (record (m.at_table page_index) { allocated = allocated });
}
