-- ===== src/UserLib/Printfmt/Sprintf.antt =====
-- What the functions that print to memory leave there.
use cs.Prelude.{
  ℕ, zero, suc, ◌+◌, ◌-◌, ◌%◌, ◌^◌, ◌<◌, ◌≤◌, ◌≡◌, ◌∙◌, refl, sym, ap, subst, true, false, some,
  List, [], ◌∷◌, ◌++◌, ltb, update, length, take, arith,
}
use cs.KernLib.Str.{Memory}
use cs.KernLib.Printfmt.Format.{Arg}
use cs.KernLib.Dprintf.Buffer.{IsBytes}
use cs.UserLib.Str.Copy.{stored, IsCopied, stored-IsCopied}
use cs.UserLib.Printfmt.{
  vprintfmt, Sprintbuf, sprintputch, sprintputch_all, print_to, vsnprintf, store_byte, count_byte,
}

sprintputch-room :
    (ch : ℕ) (b : Sprintbuf) → b.buf < b.ebuf → sprintputch ch b ≡ store_byte ch (count_byte b)
unfolding sprintputch
sprintputch-room ch b h = let e : ltb b.buf b.ebuf ≡ true = ground arith in rw e refl

sprintputch-full : (ch : ℕ) (b : Sprintbuf) → b.ebuf ≤ b.buf → sprintputch ch b ≡ count_byte b
unfolding sprintputch
sprintputch-full ch b h = let e : ltb b.buf b.ebuf ≡ false = ground arith in rw e refl

-- What is in memory once a 0 is put behind what was printed, and the count.
abbrev EndsAs : Sprintbuf → Memory → ℕ → Type 0
EndsAs b mem n = (update b.mem b.buf 0 ≡ mem) × (b.cnt ≡ n)

sprintputch_all_lem :
    (out : List ℕ) (r : ℕ) (b : Sprintbuf)
    → IsBytes out
    → b.ebuf ≡ b.buf + r
    → EndsAs
        (sprintputch_all out b)
        (stored b.buf (take r out ++ 0 ∷ []) b.mem)
        (b.cnt + length out)
unfolding sprintputch_all
sprintputch_all_lem [] zero b bytes e = (refl, (omega arith))
sprintputch_all_lem [] (suc r) b bytes e = (refl, (omega arith))
sprintputch_all_lem (ch ∷ out) zero b (_, bytes) e =
    let (memory, counted) = sprintputch_all_lem out zero (count_byte b) bytes e in
    subst
      (λ b'.
        EndsAs (sprintputch_all out b') (stored b.buf (0 ∷ []) b.mem) (b.cnt + suc (length out)))
      (sym (sprintputch-full ch b (omega arith))) (memory, (omega arith))
sprintputch_all_lem (ch ∷ out) (suc r) b ((_, lt), bytes) e =
    let byte : ch % 256 ≡ ch = ground arith in
    let b' = store_byte ch (count_byte b) in
    let (memory, counted) = sprintputch_all_lem out r b' bytes (omega arith) in
    subst
      (λ t.
        EndsAs (sprintputch_all out t) (stored b.buf (ch ∷ (take r out ++ 0 ∷ [])) b.mem)
          (b.cnt + suc (length out)))
      (sym (sprintputch-room ch b (omega arith)))
      (
        memory ∙ ap (λ x. stored (b.buf + 1) (take r out ++ 0 ∷ []) (update b.mem b.buf x)) byte,
        (omega arith),
      )

print_to-some :
    (buf ebuf : ℕ) (fmt : List ℕ) (args : List Arg) (mem : Memory) (out : List ℕ)
    → vprintfmt fmt args ≡ some out
    → print_to buf ebuf fmt args mem ≡ (
        let b : Sprintbuf =
          sprintputch_all out (record { buf = buf; ebuf = ebuf; cnt = 0; mem = mem }) in
        some (b.cnt, update b.mem b.buf 0))
unfolding print_to
print_to-some buf ebuf fmt args mem out run = rw run refl

-- When what is printed is less than 2^31 bytes, none of them 0: `vsnprintf` with room for r + 1
-- bytes, less than 2^31 of them and within the address space, writes the first r bytes of what is
-- printed, or all of it when that is shorter, with a 0 behind them, and nothing else; it returns the
-- length of all.
pub vsnprintf_lem :
    (buf r : ℕ) (fmt : List ℕ) (args : List Arg) (mem : Memory) {out : List ℕ}
    → r + 1 < 2 ^ 31
    → buf + (r + 1) ≤ 2 ^ 32
    → vprintfmt fmt args ≡ some out
    → length out < 2 ^ 31
    → IsBytes out
    → (mem' : Memory) × (vsnprintf buf (r + 1) fmt args mem ≡ some (length out, mem'))
      × IsCopied buf (take r out) mem mem'
unfolding vsnprintf
vsnprintf_lem buf r fmt args mem {out} room within run short bytes =
    let end : buf + (r + 1) - 1 ≡ buf + r = omega arith in
    let start : Sprintbuf = record { buf = buf; ebuf = buf + (r + 1) - 1; cnt = 0; mem = mem } in
    let (memory, counted) = sprintputch_all_lem out r start bytes end in
    let b : Sprintbuf = sprintputch_all out start in
    (
      stored buf (take r out ++ 0 ∷ []) mem,
      print_to-some buf (buf + (r + 1) - 1) fmt args mem out run
          ∙ ap (λ n. some (n, update b.mem b.buf 0)) (counted ∙ omega arith)
          ∙ ap (λ m. some (length out, m)) memory,
      stored-IsCopied buf (take r out) mem,
    )
