-- ===== src/KernLib/Elf/Load.antt =====
-- A segment, and what an executable says of it.
use cs.Prelude.{
  ℕ, ◌+◌, ◌-◌, ◌*◌, ◌/◌, ◌%◌, ◌<◌, ◌≤◌, ◌≡◌, ◌≢◌, ◌∙◌, true, false, not, ◌&&◌, some, ltb, ◌==◌,
  if◌then◌else◌, refl, ap, arith, add32,
}
use cs.KernLib.Str.{Memory}
use cs.KernLib.Pmap.{Paging, pagesize, vm_userlo, vm_userhi}
use cs.KernLib.Elf.{
  Proghdr, eva_of, zva_of, perm_of, load_pages, load_segment, rounddown, vm_dynlink,
}
use cs.KernLib.Elf.View.{Shows, Absent, Kept, MapsOnly, IsAllocator}
use cs.KernLib.Elf.Page.{file_byte}
use cs.KernLib.Elf.Segment.{load_pages_lem}

-- The first page of a segment, and the number of its pages.
abbrev pub start_of : Proghdr → ℕ
start_of ph = rounddown ph.p_va pagesize

abbrev pub page_count : Proghdr → ℕ
page_count ph = (eva_of ph - start_of ph) / 4096

-- A segment that an executable at `exe` may have: it lies in user memory below the page of the
-- kernel's functions, stands in its pages as it does in the file, is in the file with its first
-- `p_filesz` bytes, and that part of the file is in the kernel's image.
pub record IsSegment (lo hi exe : ℕ) (ph : Proghdr) : Type 0 where
  pub low : vm_userlo ≤ ph.p_va
  pub top : ph.p_va + ph.p_memsz ≤ vm_dynlink
  pub sizes : ph.p_filesz ≤ ph.p_memsz
  pub congruent : ph.p_offset % 4096 ≡ ph.p_va % 4096
  pub file : exe + ph.p_offset + ph.p_filesz ≤ hi
  pub no_wrap : exe + ph.p_offset + ph.p_memsz + 4096 ≤ 0x1_0000_0000

-- The byte at `u` of a segment's pages: that of the file, up to the file's part of the segment.
abbrev pub segment_byte : Memory → ℕ → Proghdr → ℕ → ℕ
segment_byte mem exe ph u =
    if ltb u (ph.p_va + ph.p_filesz) && not (ph.p_filesz == 0)
    then mem (exe + ph.p_offset + u - ph.p_va)
    else 0

-- The bounds of a segment's pages.
segment-bounds :
    (lo hi exe : ℕ) (ph : Proghdr)
    → IsSegment lo hi exe ph
    → (start_of ph + 4096 * page_count ph ≡ eva_of ph)
      × ((eva_of ph ≤ vm_dynlink) × (eva_of ph < ph.p_va + ph.p_memsz + 4096))
segment-bounds lo hi exe ph h =
    let low = h.low in
    let top = h.top in
    let a : add32 ph.p_va ph.p_memsz ≡ ph.p_va + ph.p_memsz = omega arith in
    let b : (add32 ph.p_va ph.p_memsz + pagesize - 1) % 0x1_0000_0000
        ≡ ph.p_va + ph.p_memsz + 4095 =
      omega arith in
    ((omega arith), ((omega arith), (omega arith)))

pub segment-bounds_end :
    (lo hi exe : ℕ) (ph : Proghdr) → IsSegment lo hi exe ph → eva_of ph ≤ vm_dynlink
segment-bounds_end lo hi exe ph h = (segment-bounds lo hi exe ph h).1.0

zva_of-IsSegment :
    (lo hi exe : ℕ) (ph : Proghdr) → IsSegment lo hi exe ph → zva_of ph ≡ ph.p_va + ph.p_filesz
zva_of-IsSegment lo hi exe ph h = let top = h.top in let sizes = h.sizes in omega arith

file_byte-segment_byte :
    (lo hi exe : ℕ) (ph : Proghdr) (mem : Memory) (u : ℕ)
    → IsSegment lo hi exe ph
    → hi ≤ vm_userhi
    → start_of ph ≤ u
    → file_byte mem ph.p_filesz
        (zva_of ph)
        (start_of ph)
        (add32 exe (rounddown ph.p_offset pagesize))
        u
      ≡ segment_byte mem exe ph u
file_byte-segment_byte lo hi exe ph mem u h range l =
    let zva = zva_of-IsSegment lo hi exe ph h in
    let file = h.file in
    let same = h.congruent in
    let fa : add32 exe (rounddown ph.p_offset pagesize) ≡ exe + rounddown ph.p_offset pagesize =
      omega arith in
    let at : add32 exe (rounddown ph.p_offset pagesize) + (u - start_of ph)
        ≡ exe + ph.p_offset + u - ph.p_va =
      omega arith in
    ap
      (λ z.
        file_byte mem ph.p_filesz z (start_of ph) (add32 exe (rounddown ph.p_offset pagesize)) u)
      zva
    ∙ ap (λ x. if ltb u (ph.p_va + ph.p_filesz) && not (ph.p_filesz == 0) then mem x else 0) at

load_segment-load :
    {Tables : Type 0} (p : Paging Tables) (pid exe : ℕ) (ph : Proghdr) (s : Tables × Memory)
    → ph.p_type ≡ 1
    → load_segment p pid exe ph s
      ≡ load_pages
          (eva_of ph / pagesize + 1)
          p
          pid
          ph
          (start_of ph)
          (add32 exe (rounddown ph.p_offset pagesize))
          s
unfolding load_segment
load_segment-load p pid exe ph s load =
    let e : not (ph.p_type == 1) ≡ false = ground arith in rw (load_segment, e) refl

pub load_segment-skip :
    {Tables : Type 0} (p : Paging Tables) (pid exe : ℕ) (ph : Proghdr) (s : Tables × Memory)
    → ph.p_type ≢ 1
    → load_segment p pid exe ph s ≡ some s
unfolding load_segment
load_segment-skip p pid exe ph s skip =
    let e : not (ph.p_type == 1) ≡ true = ground arith in rw (load_segment, e) refl

-- A loadable segment whose pages are all absent, with an allocator that is ready for them: they come
-- to be mapped with the segment's permission and show the file's bytes and zeros behind them. All
-- that the process saw before stays, and so do the entries of the other pages.
pub load_segment_lem :
    {Tables : Type 0} (p : Paging Tables) (pid lo hi : ℕ) (Ready : ℕ → Tables → Type 0)
    (a : IsAllocator p pid lo hi Ready) (exe r : ℕ) (ph : Proghdr) (s : Tables × Memory)
    → hi ≤ vm_userhi
    → lo ≤ exe
    → ph.p_type ≡ 1
    → IsSegment lo hi exe ph
    → Ready (page_count ph + r) s.0
    → Absent p pid (start_of ph) (eva_of ph) s
    → (s' : Tables × Memory) × (load_segment p pid exe ph s ≡ some s')
      × Ready r s'.0
      × Kept p pid lo hi s s'
      × MapsOnly p pid (start_of ph) (eva_of ph) s s'
      × Shows p pid (start_of ph) (eva_of ph) (perm_of ph) (segment_byte s.1 exe ph) s'
load_segment_lem p pid lo hi Ready a exe r ph s range from load h ready absent =
    let (pages, (under, near)) = segment-bounds lo hi exe ph h in
    let zva = zva_of-IsSegment lo hi exe ph h in
    let low = h.low in
    let file = h.file in
    let same = h.congruent in
    let wrap = h.no_wrap in
    let fa : add32 exe (rounddown ph.p_offset pagesize) ≡ exe + rounddown ph.p_offset pagesize =
      omega arith in
    let (s', run, ready', kept, only, shows) =
      load_pages_lem p pid lo hi Ready a ph (segment_byte s.1 exe ph) r range
        (eva_of ph / pagesize + 1) (page_count ph) (start_of ph)
        (add32 exe (rounddown ph.p_offset pagesize)) s (omega arith) pages (omega arith)
        (omega arith) (omega arith) (omega arith) (λ z. omega arith)
        (λ j k nz. ((omega arith), (omega arith))) ready absent
        (λ u l k. file_byte-segment_byte lo hi exe ph s.1 u h range l) in
    (s', load_segment-load p pid exe ph s load ∙ run, ready', kept, only, shows)
