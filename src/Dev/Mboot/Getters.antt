-- ===== src/Dev/Mboot/Getters.antt =====
-- `get_mms`, `get_mml` and `is_usable` read the map by index.
use cs.Prelude.{
  ℕ, zero, suc, ◌+◌, ◌<◌, ◌≡◌, refl, ◌∙◌, false, Option, none, some, List, [], ◌∷◌, ◌==◌,
  if◌then◌else◌, arith, ap, length, ◌≢◌, get_elem?, sub32,
}
use cs.Dev.Mboot.{Pmmap, PmmapState, seek, get_of_slot, get_mms, get_mml, is_usable, mem_ram}

abbrev found_at : ℕ → Option Pmmap → Option (Pmmap × ℕ)
found_at i none = none
found_at i (some x) = some (x, i)

seek-get_elem? :
    (k i idx : ℕ) (l : List Pmmap) → idx ≡ i + k → seek idx i l ≡ found_at idx (get_elem? l k)
unfolding seek
seek-get_elem? k i idx [] e = refl
seek-get_elem? zero i idx (x ∷ l) e = ground arith
seek-get_elem? (suc k) i idx (x ∷ l) e =
    let miss : (i == idx) ≡ false = ground arith in
    rw miss (seek-get_elem? k (i + 1) idx l (omega arith))

abbrev pub field_of : (Pmmap → ℕ) → Option Pmmap → ℕ
field_of f none = 0
field_of f (some x) = f x

get_elem?-lt : (l : List Pmmap) (k : ℕ) (x : Pmmap) → get_elem? l k ≡ some x → k < length l
get_elem?-lt [] k x e = absurd (cc e)
get_elem?-lt (y ∷ l) zero x e = omega arith
get_elem?-lt (y ∷ l) (suc k) x e = omega (arith, get_elem?-lt l k x e)

of_slot_none :
    (f : Pmmap → ℕ) (k : ℕ) (s : PmmapState) → seek k 0 s.pmmap_list ≡ none → get_of_slot f k s ≡ 0
unfolding get_of_slot
of_slot_none f k s e = rw (e, get_of_slot)

of_slot_some :
    (f : Pmmap → ℕ) (k : ℕ) (s : PmmapState) (x : Pmmap)
    → seek k 0 s.pmmap_list ≡ some (x, k)
    → k ≢ s.pmmap_nentries
    → get_of_slot f k s ≡ f x
unfolding get_of_slot
of_slot_some f k s x e ne = rw (e, get_of_slot) (ground arith)

-- A getter gives the field of the region at the index, and 0 out of range.
pub get_of_slot_lem :
    (f : Pmmap → ℕ) (k : ℕ) (s : PmmapState)
    → s.pmmap_nentries ≡ length s.pmmap_list
    → get_of_slot f k s ≡ field_of f (get_elem? s.pmmap_list k)
get_of_slot_lem f k s n = go (get_elem? s.pmmap_list k) refl
  where
    at_k : seek k 0 s.pmmap_list ≡ found_at k (get_elem? s.pmmap_list k)
    at_k = seek-get_elem? k 0 k s.pmmap_list (omega arith)

    go : (o : Option Pmmap) → get_elem? s.pmmap_list k ≡ o → get_of_slot f k s ≡ field_of f o
    go none e = of_slot_none f k s (at_k ∙ ap (found_at k) e)
    go (some x) e =
        of_slot_some f k s x (at_k ∙ ap (found_at k) e)
          (omega (arith, get_elem?-lt s.pmmap_list k x e))

-- The three getters on a map that is counted right.
pub getters_lem :
    (k : ℕ) (s : PmmapState)
    → s.pmmap_nentries ≡ length s.pmmap_list
    → (get_mms k s ≡ field_of (λ x. x.start) (get_elem? s.pmmap_list k))
      × (get_mml k s ≡ field_of (λ x. sub32 x.end x.start) (get_elem? s.pmmap_list k))
      × (is_usable k s
          ≡ field_of (λ x. if x.type == mem_ram then 1 else 0) (get_elem? s.pmmap_list k))
unfolding get_mms get_mml is_usable
getters_lem k s n = (get_of_slot_lem _ k s n, get_of_slot_lem _ k s n, get_of_slot_lem _ k s n)
