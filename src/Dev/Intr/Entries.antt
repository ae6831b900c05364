-- ===== src/Dev/Intr/Entries.antt =====
-- To which entry point each interrupt is to lead, by the numbers of the processor and of the lines of
-- the interrupt controllers, beside the table of intr.c.
use cs.Prelude.{ℕ, ◌-◌, ◌≡◌, ◌∙◌, ◌∷◌, [], List, ap, sym, refl, ltb, ◌==◌, if◌then◌else◌, get_or}
use cs.Dev.Intr.{
  Entry, xdivide, xdebug, xnmi, xbrkpt, xoflow, xbound, xillop, xdevice, xdblflt, xtss, xsegnp,
  xstack, xgpflt, xpgflt, xfperr, xalign, xmchk, xirq_timer, xirq_kbd, xirq_slave, xirq_serial2,
  xirq_serial1, xirq_lpt, xirq_floppy, xirq_spurious, xirq_rtc, xirq9, xirq10, xirq11, xirq_mouse,
  xirq_coproc, xirq_ide1, xirq_ide2, xsyscall, xdefault,
}

-- The entry points of the exceptions from 0 to 18, as the processor numbers them. It does not raise 9
-- any more, and 15 is reserved.
abbrev pub exception_entries : List Entry
exception_entries =
    xdivide ∷ xdebug ∷ xnmi ∷ xbrkpt ∷ xoflow ∷ xbound ∷ xillop ∷ xdevice ∷ xdblflt ∷ xdefault
    ∷ xtss ∷ xsegnp ∷ xstack ∷ xgpflt ∷ xpgflt ∷ xdefault ∷ xfperr ∷ xalign ∷ xmchk ∷ []

-- Those of the lines of the interrupt controllers, from 0 to 15.
abbrev pub irq_entries : List Entry
irq_entries =
    xirq_timer ∷ xirq_kbd ∷ xirq_slave ∷ xirq_serial2 ∷ xirq_serial1 ∷ xirq_lpt ∷ xirq_floppy
    ∷ xirq_spurious ∷ xirq_rtc ∷ xirq9 ∷ xirq10 ∷ xirq11 ∷ xirq_mouse ∷ xirq_coproc ∷ xirq_ide1
    ∷ xirq_ide2 ∷ []

-- Where an interrupt is to lead: an exception, a line from 32 on, the system call, or none of them.
abbrev pub entry_of : ℕ → Entry
entry_of v =
    if ltb v 32
    then get_or exception_entries v xdefault
    else if v == 48
    then xsyscall
    else get_or irq_entries (v - 32) xdefault

-- A number for each entry point.
abbrev pub number_of : Entry → ℕ
number_of e = elim e [
  | xdivide ↦ 0
  | xdebug ↦ 1
  | xnmi ↦ 2
  | xbrkpt ↦ 3
  | xoflow ↦ 4
  | xbound ↦ 5
  | xillop ↦ 6
  | xdevice ↦ 7
  | xdblflt ↦ 8
  | xtss ↦ 9
  | xsegnp ↦ 10
  | xstack ↦ 11
  | xgpflt ↦ 12
  | xpgflt ↦ 13
  | xfperr ↦ 14
  | xalign ↦ 15
  | xmchk ↦ 16
  | xirq_timer ↦ 17
  | xirq_kbd ↦ 18
  | xirq_slave ↦ 19
  | xirq_serial2 ↦ 20
  | xirq_serial1 ↦ 21
  | xirq_lpt ↦ 22
  | xirq_floppy ↦ 23
  | xirq_spurious ↦ 24
  | xirq_rtc ↦ 25
  | xirq9 ↦ 26
  | xirq10 ↦ 27
  | xirq11 ↦ 28
  | xirq_mouse ↦ 29
  | xirq_coproc ↦ 30
  | xirq_ide1 ↦ 31
  | xirq_ide2 ↦ 32
  | xsyscall ↦ 33
  | xdefault ↦ 34
]

abbrev numbered : List Entry
numbered =
    xdivide ∷ xdebug ∷ xnmi ∷ xbrkpt ∷ xoflow ∷ xbound ∷ xillop ∷ xdevice ∷ xdblflt ∷ xtss ∷ xsegnp
    ∷ xstack ∷ xgpflt ∷ xpgflt ∷ xfperr ∷ xalign ∷ xmchk ∷ xirq_timer ∷ xirq_kbd ∷ xirq_slave
    ∷ xirq_serial2 ∷ xirq_serial1 ∷ xirq_lpt ∷ xirq_floppy ∷ xirq_spurious ∷ xirq_rtc ∷ xirq9
    ∷ xirq10 ∷ xirq11 ∷ xirq_mouse ∷ xirq_coproc ∷ xirq_ide1 ∷ xirq_ide2 ∷ xsyscall ∷ []

numbered_lem : (e : Entry) → get_or numbered (number_of e) xdefault ≡ e
numbered_lem e = elim e as (λ e. get_or numbered (number_of e) xdefault ≡ e) [
  | xdivide ↦ refl
  | _ ↦ refl
]

pub number_of-same : (e e' : Entry) → number_of e ≡ number_of e' → e ≡ e'
number_of-same e e' h =
    sym (numbered_lem e) ∙ ap (λ n. get_or numbered n xdefault) h ∙ numbered_lem e'
