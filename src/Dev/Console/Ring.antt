-- ===== src/Dev/Console/Ring.antt =====
-- The input buffer as a queue.
use cs.Prelude.{
  ℕ, zero, suc, ◌+◌, ◌-◌, ◌≤◌, ◌<◌, ◌≡◌, ◌≢◌, ◌∙◌, refl, sym, ap, subst, inl, inr, true, false,
  List, [], ◌∷◌, ◌++◌, leb, ◌==◌, if◌then◌else◌, update, arith, Bool-cases, append_assoc, length,
  length-append,
}
use cs.Dev.Console.{Cons, cons_put, cons_intr, cons_take, cons_getc, next_pos, console_buffer_size}

-- Both positions are in the buffer.
abbrev pub IsRing : Cons → Type 0
IsRing s = (s.rpos < console_buffer_size) × (s.wpos < console_buffer_size)

-- The way from a position forward to another.
abbrev pub way : ℕ → ℕ → ℕ
way i w = if leb i w then w - i else console_buffer_size + w - i

abbrev pub read_ring : (ℕ → ℕ) → ℕ → ℕ → List ℕ
read_ring buf i zero = []
read_ring buf i (suc n) = buf i ∷ read_ring buf (next_pos i) n

abbrev pub used : Cons → ℕ
used s = way s.rpos s.wpos

-- The bytes that wait, the oldest first.
abbrev pub contents : Cons → List ℕ
contents s = read_ring s.buf s.rpos (used s)

-- The bytes that `cons_intr` keeps.
abbrev pub typed : List ℕ → List ℕ
typed [] = []
typed (c ∷ cs) = if c == 0 then typed cs else c ∷ typed cs

way-next :
    (i w n : ℕ)
    → i < console_buffer_size
    → w < console_buffer_size
    → way i w ≡ suc n
    → way (next_pos i) w ≡ n
way-next i w n hi hw e = ground arith

way-next_back :
    (i w : ℕ)
    → i < console_buffer_size
    → w < console_buffer_size
    → way i w < console_buffer_size - 1
    → way i (next_pos w) ≡ suc (way i w)
way-next_back i w hi hw h = ground arith

next_pos-lt : (i : ℕ) → i < console_buffer_size → next_pos i < console_buffer_size
next_pos-lt i h = ground arith

read_ring-snoc :
    (buf : ℕ → ℕ) (i w n : ℕ)
    → i < console_buffer_size
    → w < console_buffer_size
    → way i w ≡ n
    → read_ring buf i (suc n) ≡ read_ring buf i n ++ buf w ∷ []
read_ring-snoc buf i w zero hi hw e = let same : i ≡ w = ground arith in ap (λ k. buf k ∷ []) same
read_ring-snoc buf i w (suc n) hi hw e =
    ap (λ l. buf i ∷ l)
      (read_ring-snoc buf (next_pos i) w n (next_pos-lt i hi) hw (way-next i w n hi hw e))

read_ring-update :
    (buf : ℕ → ℕ) (i w n c : ℕ)
    → i < console_buffer_size
    → w < console_buffer_size
    → n ≤ way i w
    → read_ring (update buf w c) i n ≡ read_ring buf i n
read_ring-update buf i w zero c hi hw h = refl
read_ring-update buf i w (suc n) c hi hw h =
    let first : update buf w c i ≡ buf i = ground arith in
    let left : n ≤ way (next_pos i) w = ground arith in
    let others = read_ring-update buf (next_pos i) w n c (next_pos-lt i hi) hw left in
    cc (first, others)

cons_put-nul : (c : ℕ) (s : Cons) → (c == 0) ≡ true → cons_put c s ≡ s
unfolding cons_put
cons_put-nul c s e = rw e refl

-- What is stored behind the queue.
abbrev stored_byte : ℕ → Cons → Cons
stored_byte c s = record { buf = update s.buf s.wpos c; rpos = s.rpos; wpos = next_pos s.wpos }

cons_put-byte : (c : ℕ) (s : Cons) → c ≢ 0 → cons_put c s ≡ stored_byte c s
unfolding cons_put
cons_put-byte c s h = let e : (c == 0) ≡ false = ground arith in rw e refl

contents-stored_byte :
    (c : ℕ) (s : Cons)
    → IsRing s
    → used s < console_buffer_size - 1
    → contents (stored_byte c s) ≡ contents s ++ c ∷ []
contents-stored_byte c s (hr, hw) h =
    let w = s.wpos in
    let buf' = update s.buf w c in
    let here : buf' w ≡ c = ground arith in
    ap (read_ring buf' s.rpos) (way-next_back s.rpos w hr hw h)
    ∙ read_ring-snoc buf' s.rpos w (used s) hr hw refl
    ∙ ap (λ l. l ++ buf' w ∷ []) (read_ring-update s.buf s.rpos w (used s) c hr hw (omega arith))
    ∙ ap (λ x. contents s ++ x ∷ []) here

-- `s'` is `s` with the bytes behind its queue.
abbrev pub IsQueued : Cons → List ℕ → Cons → Type 0
IsQueued s cs s' = (contents s' ≡ contents s ++ cs) × (IsRing s' × (used s' ≡ used s + length cs))

append-nil : (xs : List ℕ) → xs ++ [] ≡ xs
append-nil [] = refl
append-nil (x ∷ xs) = ap (λ l. x ∷ l) (append-nil xs)

IsQueued-nil : (s : Cons) → IsRing s → IsQueued s [] s
IsQueued-nil s ring = (sym (append-nil (contents s)), (ring, (omega arith)))

IsQueued-stored_byte :
    (c : ℕ) (s : Cons)
    → IsRing s
    → used s < console_buffer_size - 1
    → IsQueued s (c ∷ []) (stored_byte c s)
IsQueued-stored_byte c s (hr, hw) h =
    let longer = way-next_back s.rpos s.wpos hr hw h in
    (contents-stored_byte c s (hr, hw) h, ((hr, next_pos-lt s.wpos hw), (omega arith)))

IsQueued-append :
    (s s' s'' : Cons) (cs ds : List ℕ)
    → IsQueued s cs s'
    → IsQueued s' ds s''
    → IsQueued s (cs ++ ds) s''
IsQueued-append s s' s'' cs ds (e, (_, n)) (e', (ring, n')) =
    let longer = length-append cs ds in
    (e' ∙ ap (λ l. l ++ ds) e ∙ append_assoc (contents s) cs ds, (ring, (omega arith)))

-- While there is room, `cons_intr` puts the bytes other than 0 behind the queue.
pub cons_intr_lem :
    (cs : List ℕ) (s : Cons)
    → IsRing s
    → used s + length (typed cs) < console_buffer_size
    → IsQueued s (typed cs) (cons_intr cs s)
unfolding cons_intr
cons_intr_lem [] s ring h = IsQueued-nil s ring
cons_intr_lem (c ∷ cs) s ring h = elim (Bool-cases (c == 0)) [
  | inl z ↦
      let kept : typed (c ∷ cs) ≡ typed cs = rw z refl in
      let room = subst (λ l. used s + length l < console_buffer_size) kept h in
      subst (λ l. IsQueued s l (cons_intr (c ∷ cs) s)) (sym kept)
        (subst (λ t. IsQueued s (typed cs) (cons_intr cs t)) (sym (cons_put-nul c s z))
          (cons_intr_lem cs s ring room))
  | inr nz ↦
      let kept : typed (c ∷ cs) ≡ c ∷ typed cs = rw nz refl in
      let room = subst (λ l. used s + length l < console_buffer_size) kept h in
      let s' = stored_byte c s in
      let first = IsQueued-stored_byte c s ring (omega arith) in
      let more = cons_intr_lem cs s' first.1.0 (omega (arith, first.1.1)) in
      subst (λ l. IsQueued s l (cons_intr (c ∷ cs) s)) (sym kept)
        (subst (λ t. IsQueued s (c ∷ typed cs) (cons_intr cs t))
          (sym (cons_put-byte c s (ground arith)))
          (IsQueued-append s s' (cons_intr cs s') (c ∷ []) (typed cs) first more))
]

-- The first of a queue, 0 if there is none.
abbrev pub front : List ℕ → ℕ
front [] = 0
front (x ∷ xs) = x

abbrev pub behind : List ℕ → List ℕ
behind [] = []
behind (x ∷ xs) = xs

cons_take_lem :
    (s : Cons)
    → IsRing s
    → ((cons_take s).0 ≡ front (contents s))
      × ((contents (cons_take s).1 ≡ behind (contents s)) × IsRing (cons_take s).1)
unfolding cons_take
cons_take_lem s (hr, hw) = go (used s) refl
  where
    go :
        (n : ℕ)
        → used s ≡ n
        → ((cons_take s).0 ≡ front (contents s))
          × ((contents (cons_take s).1 ≡ behind (contents s)) × IsRing (cons_take s).1)
    go zero e =
        let at_end : (s.rpos == s.wpos) ≡ true = ground arith in
        rw (e, at_end, cons_take) (refl, (rw e refl, (hr, hw)))
    go (suc n) e =
        let apart : (s.rpos == s.wpos) ≡ false = ground arith in
        let left = way-next s.rpos s.wpos n hr hw e in
        rw (e, apart, cons_take)
          (refl, (ap (read_ring s.buf (next_pos s.rpos)) left, (next_pos-lt s.rpos hr, hw)))

-- With room for the bytes that wait at the devices, `cons_getc` takes the first byte of the queue
-- of the bytes that were typed, 0 when there is none, and leaves those behind it.
pub cons_getc_lem :
    (serial keyboard : List ℕ) (s : Cons)
    → IsRing s
    → used s + length (typed serial) + length (typed keyboard) < console_buffer_size
    → ((cons_getc serial keyboard s).0 ≡ front (contents s ++ (typed serial ++ typed keyboard)))
      × ((contents (cons_getc serial keyboard s).1
            ≡ behind (contents s ++ (typed serial ++ typed keyboard)))
          × IsRing (cons_getc serial keyboard s).1)
unfolding cons_getc
cons_getc_lem serial keyboard s ring h =
    let s1 = cons_intr serial s in
    let s2 = cons_intr keyboard s1 in
    let first = cons_intr_lem serial s ring (omega arith) in
    let second = cons_intr_lem keyboard s1 first.1.0 (omega (arith, first.1.1)) in
    let (e, (ring', _)) = IsQueued-append s s1 s2 (typed serial) (typed keyboard) first second in
    let (c, (rest, ring'')) = cons_take_lem s2 ring' in
    (c ∙ ap front e, (rest ∙ ap behind e, ring''))

-- A byte that comes to a buffer with 511 bytes empties it: none of the 512 is ever read.
pub cons_put_overflows :
    (c : ℕ) (s : Cons)
    → IsRing s
    → used s ≡ console_buffer_size - 1
    → c ≢ 0
    → contents (cons_put c s) ≡ []
cons_put_overflows c s (hr, hw) h nz =
    let empty : way s.rpos (next_pos s.wpos) ≡ 0 = ground arith in
    ap contents (cons_put-byte c s nz) ∙ ap (read_ring (update s.buf s.wpos c) s.rpos) empty
