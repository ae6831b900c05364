-- ===== src/KernLib/Elf/View.antt =====
-- What a process sees at its addresses, and what its page allocator promises.
use cs.Prelude.{ℕ, suc, ◌*◌, ◌/◌, ◌%◌, ◌<◌, ◌≤◌, ◌≡◌, ◌≢◌, ◌⊎◌, ◌∙◌, sym, ap, arith}
use cs.KernLib.Str.{Memory}
use cs.KernLib.Pmap.{Paging}
use cs.KernLib.Pmap.Pages.{phys}

abbrev pub entry : {Tables : Type 0} → Paging Tables → ℕ → Tables × Memory → ℕ → ℕ
entry p pid s u = p.get_ptbl_entry_by_va pid u s.0

abbrev pub byte_at : {Tables : Type 0} → Paging Tables → ℕ → Tables × Memory → ℕ → ℕ
byte_at p pid s u = s.1 (phys p pid s.0 u)

-- The addresses from `lo` to `hi` are mapped with the permission, and show the bytes of `f`.
abbrev pub Shows :
    {Tables : Type 0} → Paging Tables → ℕ → ℕ → ℕ → ℕ → (ℕ → ℕ) → Tables × Memory → Type 0
Shows p pid lo hi perm f s =
    (u : ℕ) → lo ≤ u → u < hi → (entry p pid s u % 4096 ≡ perm) × (byte_at p pid s u ≡ f u)

abbrev pub Absent : {Tables : Type 0} → Paging Tables → ℕ → ℕ → ℕ → Tables × Memory → Type 0
Absent p pid lo hi s = (u : ℕ) → lo ≤ u → u < hi → entry p pid s u % 2 ≡ 0

-- The image of the kernel from `lo` to `hi` is as it was, and so is all that the process saw.
abbrev pub Kept :
    {Tables : Type 0} → Paging Tables → ℕ → ℕ → ℕ → Tables × Memory → Tables × Memory → Type 0
Kept p pid lo hi s s' =
    ((a : ℕ) → lo ≤ a → a < hi → s'.1 a ≡ s.1 a)
    × ((u : ℕ)
        → entry p pid s u % 2 ≡ 1
        → (entry p pid s' u ≡ entry p pid s u) × (byte_at p pid s' u ≡ byte_at p pid s u))

-- No entry has changed but those from `lo` to `hi`.
abbrev pub MapsOnly :
    {Tables : Type 0} → Paging Tables → ℕ → ℕ → ℕ → Tables × Memory → Tables × Memory → Type 0
MapsOnly p pid lo hi s s' = (u : ℕ) → (u < lo) ⊎ (hi ≤ u) → entry p pid s' u ≡ entry p pid s u

-- What `alloc_page` promises on a page that is absent, when it is `Ready` to give one more: that
-- page alone is mapped, with the permission, to a frame that no other page has and that lies outside
-- of the kernel's image. The bytes of the image, which holds none of the tables, and those of the
-- pages that are present stay.
pub record IsAllocator {Tables : Type 0} (p : Paging Tables) (pid lo hi : ℕ)
    (Ready : ℕ → Tables → Type 0) : Type 0 where
  pub ready :
      (n va perm : ℕ) (s : Tables × Memory)
      → Ready (suc n) s.0
      → entry p pid s va % 2 ≡ 0
      → Ready n (p.alloc_page pid va perm s).0
  pub maps :
      (n va perm : ℕ) (s : Tables × Memory)
      → Ready (suc n) s.0
      → entry p pid s va % 2 ≡ 0
      → perm < 4096
      → entry p pid (p.alloc_page pid va perm s) va % 4096 ≡ perm
  pub others :
      (n va perm : ℕ) (s : Tables × Memory)
      → Ready (suc n) s.0
      → entry p pid s va % 2 ≡ 0
      → (u : ℕ) → u / 4096 ≢ va / 4096
      → entry p pid (p.alloc_page pid va perm s) u ≡ entry p pid s u
  pub image :
      (n va perm : ℕ) (s : Tables × Memory)
      → Ready (suc n) s.0
      → entry p pid s va % 2 ≡ 0
      → (a : ℕ) → lo ≤ a
      → a < hi
      → (p.alloc_page pid va perm s).1 a ≡ s.1 a
  pub bytes :
      (n va perm : ℕ) (s : Tables × Memory)
      → Ready (suc n) s.0
      → entry p pid s va % 2 ≡ 0
      → (u : ℕ) → entry p pid s u % 2 ≡ 1
      → (p.alloc_page pid va perm s).1 (phys p pid s.0 u) ≡ byte_at p pid s u
  pub distinct :
      (n : ℕ) (t : Tables)
      → Ready n t
      → (u v : ℕ) → p.get_ptbl_entry_by_va pid u t % 2 ≡ 1
      → p.get_ptbl_entry_by_va pid v t % 2 ≡ 1
      → phys p pid t u ≡ phys p pid t v
      → u / 4096 ≡ v / 4096
  pub apart :
      (n : ℕ) (t : Tables)
      → Ready n t
      → (u : ℕ) → p.get_ptbl_entry_by_va pid u t % 2 ≡ 1
      → (phys p pid t u < lo) ⊎ (hi ≤ phys p pid t u)

module _ {Tables : Type 0} (p : Paging Tables) (pid : ℕ) where
  pub Kept-trans :
      (lo hi : ℕ) (s1 s2 s3 : Tables × Memory)
      → Kept p pid lo hi s1 s2
      → Kept p pid lo hi s2 s3
      → Kept p pid lo hi s1 s3
  Kept-trans lo hi s1 s2 s3 (image, pages) (image', pages') = (
    λ a l h. image' a l h ∙ image a l h,
    λ u here.
        let (e, b) = pages u here in
        let (e', b') = pages' u (ap (λ x. x % 2) e ∙ here) in (e' ∙ e, b' ∙ b),
  )

  -- What is shown goes on being shown.
  pub Shows-Kept :
      (lo hi from to perm : ℕ) (f : ℕ → ℕ) (s s' : Tables × Memory)
      → perm % 2 ≡ 1
      → Kept p pid lo hi s s'
      → Shows p pid from to perm f s
      → Shows p pid from to perm f s'
  Shows-Kept lo hi from to perm f s s' odd (image, pages) shows u l h =
      let (e, b) = shows u l h in
      let (e', b') = pages u (omega arith) in (ap (λ x. x % 4096) e' ∙ e, b' ∙ b)

  -- An entry is that of its page.
  pub entry-page :
      (s : Tables × Memory) (u v : ℕ) → u / 4096 ≡ v / 4096 → entry p pid s u ≡ entry p pid s v
  entry-page s u v same =
      p.entry_page pid u s.0
      ∙ ap (λ a. p.get_ptbl_entry_by_va pid (a * 4096) s.0) same
      ∙ sym (p.entry_page pid v s.0)
