-- ===== src/KernLib/Debug/Trace.antt =====
-- The chain of frames, and what the trace takes of it.
use cs.Prelude.{
  ℕ, zero, suc, ◌+◌, ◌-◌, ◌<◌, ◌≤◌, ◌≡◌, ◌∙◌, refl, sym, ap, subst, inl, inr, true, false, ltb,
  ◌==◌, if◌then◌else◌, update, update-same, update-other, arith, Bool-cases,
}
use cs.KernLib.Str.{Memory, load32}
use cs.KernLib.Debug.{trace_frames, trace_rest, debug_trace}

-- The frame at a depth: each one holds the address of its caller's; 0 ends the chain.
abbrev pub frame_of : Memory → ℕ → ℕ → ℕ
frame_of mem frame zero = frame
frame_of mem frame (suc k) = frame_of mem (if frame == 0 then 0 else load32 mem frame) k

frame_of-end : (mem : Memory) (k : ℕ) → frame_of mem 0 k ≡ 0
frame_of-end mem zero = refl
frame_of-end mem (suc k) = frame_of-end mem k

-- The return address in a frame, or 0 behind the chain.
abbrev pub return_of : Memory → ℕ → ℕ
return_of mem frame = if frame == 0 then 0 else load32 mem (frame + 4)

trace_rest_lem :
    (left i : ℕ) (eips : ℕ → ℕ) (j : ℕ)
    → trace_rest left i eips j
      ≡ (if ltb j i then eips j else if ltb j (i + left) then 0 else eips j)
unfolding trace_rest
trace_rest_lem zero i eips j = ground arith
trace_rest_lem (suc left) i eips j = trace_rest_lem left (i + 1) (update eips i 0) j ∙ ground arith

-- A trace of `left` rounds from an index on: the entries before `r.0` are of frames, and there the
-- chain ends, unless the rounds do.
abbrev Traced : Memory → ℕ → ℕ → ℕ → (ℕ → ℕ) → ℕ × (ℕ → ℕ) → Type 0
Traced mem left i frame eips r =
    (i ≤ r.0)
    × ((r.0 ≤ i + left)
        × (((j : ℕ) → j < i → r.1 j ≡ eips j)
            × (((j : ℕ) → r.0 ≤ j → r.1 j ≡ eips j)
                × (((k : ℕ) → i + k < r.0 → r.1 (i + k) ≡ return_of mem (frame_of mem frame k))
                    × ((k : ℕ) → r.0 ≤ i + k → i + k < i + left → frame_of mem frame k ≡ 0)))))

trace_frames-over :
    (mem : Memory) (left i frame : ℕ) (eips : ℕ → ℕ)
    → (frame == 0) ≡ true
    → trace_frames (suc left) mem i frame eips ≡ (i, eips)
unfolding trace_frames
trace_frames-over mem left i frame eips over = rw (trace_frames, over) refl

trace_frames-more :
    (mem : Memory) (left i frame : ℕ) (eips : ℕ → ℕ)
    → (frame == 0) ≡ false
    → trace_frames (suc left) mem i frame eips
      ≡ trace_frames left mem (i + 1) (load32 mem frame) (update eips i (load32 mem (frame + 4)))
unfolding trace_frames
trace_frames-more mem left i frame eips more = rw (trace_frames, more) refl

pub frame_of-over : (mem : Memory) (frame k : ℕ) → (frame == 0) ≡ true → frame_of mem frame k ≡ 0
frame_of-over mem frame k over =
    let z : frame ≡ 0 = ground arith in ap (λ f. frame_of mem f k) z ∙ frame_of-end mem k

-- A round adds the frame's return address to what the rest of the rounds do.
Traced-more :
    (mem : Memory) (left i frame : ℕ) (eips : ℕ → ℕ) (r : ℕ × (ℕ → ℕ))
    → (frame == 0) ≡ false
    → Traced mem left (i + 1) (load32 mem frame) (update eips i (load32 mem (frame + 4))) r
    → Traced mem (suc left) i frame eips r
Traced-more mem left i frame eips r more (a, (b, (before, (behind, (inside, end))))) =
    let word = load32 mem (frame + 4) in
    let deeper : (k : ℕ) → frame_of mem frame (suc k) ≡ frame_of mem (load32 mem frame) k =
      λ k. rw more refl in
    (
      (omega arith),
      (
        (omega arith),
        (
          (λ j h. before j (omega arith) ∙ update-other eips i j word (omega arith)),
          (
            (λ j h. behind j h ∙ update-other eips i j word (omega arith)),
            (
              (λ k h. elim (Bool-cases (k == 0)) [
                | inl first ↦
                    let at : i + k ≡ i = ground arith in
                    let k0 : 0 ≡ k = ground arith in
                    let now : return_of mem frame ≡ word = rw more refl in
                    ap r.1 at
                    ∙ before i (omega arith)
                    ∙ update-same eips i i word refl
                    ∙ sym now
                    ∙ ap (λ n. return_of mem (frame_of mem frame n)) k0
                | inr later ↦
                    let at : i + k ≡ i + 1 + (k - 1) = ground arith in
                    let k1 : suc (k - 1) ≡ k = ground arith in
                    ap r.1 at
                    ∙ inside (k - 1) (ground arith)
                    ∙ ap (return_of mem) (sym (deeper (k - 1)))
                    ∙ ap (λ n. return_of mem (frame_of mem frame n)) k1
              ]),
              (λ k h m.
                  let k1 : suc (k - 1) ≡ k = omega arith in
                  ap (frame_of mem frame) (sym k1)
                  ∙ deeper (k - 1)
                  ∙ end (k - 1) (omega arith) (omega arith)),
            ),
          ),
        ),
      ),
    )

trace_frames-Traced :
    (mem : Memory) (left i frame : ℕ) (eips : ℕ → ℕ)
    → Traced mem left i frame eips (trace_frames left mem i frame eips)
unfolding trace_frames
trace_frames-Traced mem zero i frame eips = (
  (omega arith),
  (
    (omega arith),
    (
      (λ j h. refl),
      ((λ j h. refl), ((λ k h. absurd (omega arith)), (λ k h m. absurd (omega arith)))),
    ),
  ),
)
trace_frames-Traced mem (suc left) i frame eips = elim (Bool-cases (frame == 0)) [
  | inl over ↦
      subst (Traced mem (suc left) i frame eips)
        (sym (trace_frames-over mem left i frame eips over))
        (
          (omega arith),
          (
            (omega arith),
            (
              (λ j h. refl),
              (
                (λ j h. refl),
                ((λ k h. absurd (omega arith)), (λ k h m. frame_of-over mem frame k over)),
              ),
            ),
          ),
        )
  | inr more ↦
      subst (Traced mem (suc left) i frame eips)
        (sym (trace_frames-more mem left i frame eips more))
        (Traced-more mem left i frame eips
          (trace_frames left mem (i + 1) (load32 mem frame)
            (update eips i (load32 mem (frame + 4))))
          more
          (trace_frames-Traced mem left (i + 1) (load32 mem frame)
            (update eips i (load32 mem (frame + 4)))))
]

-- The trace of any stack: each of its ten entries is the return address of the frame at that depth,
-- or 0 if the chain of frames has ended before, and nothing behind the ten entries is written.
pub debug_trace_lem :
    (mem : Memory) (ebp : ℕ) (eips : ℕ → ℕ)
    → ((k : ℕ) → k < 10 → debug_trace mem ebp eips k ≡ return_of mem (frame_of mem ebp k))
      × ((j : ℕ) → 10 ≤ j → debug_trace mem ebp eips j ≡ eips j)
unfolding debug_trace
debug_trace_lem mem ebp eips =
    let r = trace_frames 10 mem 0 ebp eips in
    let (a, (b, (before, (behind, (inside, end))))) = trace_frames-Traced mem 10 0 ebp eips in
    (
      (λ k h. trace_rest_lem (10 - r.0) r.0 r.1 k ∙ elim (Bool-cases (ltb k r.0)) [
        | inl frame ↦
            let at : k ≡ 0 + k = omega arith in rw frame (ap r.1 at ∙ inside k (ground arith))
        | inr rest ↦
            let over : ltb k (r.0 + (10 - r.0)) ≡ true = ground arith in
            rw (rest, over) (ap (return_of mem) (sym (end k (ground arith) (omega arith))))
      ]),
      (λ j h.
          let out : ltb j r.0 ≡ false = ground arith in
          let out' : ltb j (r.0 + (10 - r.0)) ≡ false = ground arith in
          trace_rest_lem (10 - r.0) r.0 r.1 j ∙ rw (out, out') (behind j (omega arith))),
    )
