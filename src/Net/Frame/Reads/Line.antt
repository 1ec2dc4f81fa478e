-- ===== src/Net/Frame/Reads/Line.antt =====
-- `get_line` on a line that was printed.
use opal.Prelude.{
  ℕ, suc, ◌+◌, ◌-◌, ◌<◌, ◌≡◌, ◌≢◌, Bool, [], ◌∷◌, ◌++◌, arith, length, length-append, ◌∙◌,
  append_assoc, take-length,
}
use opal.Env.{Env, Bytes, Cursor, documented, rest}
use opal.Net.Frame.Reader.{◌>>◌, get_line, line_loop, pure, slice, advance}
use opal.Net.Frame.Reads.{Reads, crlf, length-rest}

abbrev pub NoBreak : Bytes → Type 0
NoBreak [] = Unit
NoBreak (b ∷ bs) = (b ≢ 13) × (b ≢ 10) × NoBreak bs

module _ (k : Bool) where
  instance abbrev here : Env
  here = documented k

  line_loop_lem :
      (start end : ℕ) (l r : Bytes) (i : ℕ) (c : Cursor)
      → NoBreak l
      → i + length l < end
      → line_loop start end (l ++ 13 ∷ r) i c
        ≡ (advance (i + length l - start + 2) >> pure (slice c start (i + length l))) c
  unfolding line_loop
  line_loop_lem start end [] r i c h p = let e : i + 0 ≡ i = omega arith in rw e (ground arith)
  line_loop_lem start end (b ∷ l) r i c h p =
      let e : i + suc (length l) ≡ i + 1 + length l = omega arith in
      rw e (ground (arith, line_loop_lem start end l r (i + 1) c h.2))

  pub get_line-Reads : (l : Bytes) → NoBreak l → Reads get_line (l ++ crlf) l
  unfolding get_line
  get_line-Reads l h = record {
    at = λ c r e.
        let e₁ : rest c ≡ l ++ 13 ∷ 10 ∷ r = e ∙ append_assoc l crlf r in
        let n = length-rest c (l ++ crlf) r e (omega (arith, length-append l crlf)) in
        ground (
          arith,
          line_loop_lem c.position (length c.bytes - 1) l (10 ∷ r) c.position c h,
          take-length l (13 ∷ 10 ∷ r),
          length-append l crlf,
        );
  }
