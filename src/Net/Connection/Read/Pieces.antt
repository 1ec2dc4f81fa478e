-- ===== src/Net/Connection/Read/Pieces.antt =====
-- Reading a frame that arrives in pieces.
use opal.Prelude.{
  ℕ, ◌+◌, ◌≤◌, ◌<◌, ◌≡◌, ◌⊎◌, inl, inr, refl, sym, ap, ◌∙◌, subst, Bool, List, [], ◌∷◌, ◌++◌,
  length, length-append, take, drop, take-append, take-length, drop-append, drop-length,
  take-append-drop, append_assoc, arith, dec_le,
}
use opal.Env.{Env, Bytes, Cursor, documented, documented-IsDocumented, IsDocumented, for_documented}
use opal.Net.Frame.Data.{Frame, Error, incomplete, bad_encoding, not_integer, not_utf8}
use opal.Net.Frame.Reader.{Outcome, ok, err, panic, no_fuel}
use opal.Net.Frame.Parse.{check}
use opal.Net.Frame.Progress.{Ensures, Moved, Ensures-weaken}
use opal.Net.Frame.Fuel.{check_fuel}
use opal.Net.Frame.Extend.{extend, Extends}
use opal.Net.Frame.Stable.{check-IsStable}
use opal.Net.Frame.Deeper.{Same, check-Same}
use opal.Net.Frame.Agree.{Agrees, check-Agrees-parse}
use opal.Net.Connection.RoundTrip.{IsWritable}
use opal.Net.Connection.RoundTrip.Whole.{encoding, parse-Reads}
use opal.Net.Connection.Read.{
  frame, not_enough, panicked, Arrival, chunk, received, fuel_for, start_of, parse_frame,
  read_frame,
}
use opal.Net.Trip.{read_frame-parsed}
use opal.Net.Connection.Read.Whole.{Agrees-ok, parse_frame-encoding}

-- Pieces of at least one byte.
abbrev pub joined : List (ℕ × Bytes) → Bytes
joined [] = []
joined ((b, bs) ∷ pieces) = (b ∷ bs) ++ joined pieces

abbrev pub arrivals : List (ℕ × Bytes) → List Arrival
arrivals [] = []
arrivals ((b, bs) ∷ pieces) = chunk (b ∷ bs) ∷ arrivals pieces

abbrev ok_at : Cursor → Outcome (Unit {0})
ok_at c = ok tt c

ok_position : (c d : Cursor) → ok_at c ≡ ok_at d → c.position ≡ d.position
ok_position c d h = let e : c ≡ d = cc h in ap (λ z. z.position) e

ok-ne-err : (x : Error) (d : Cursor) → err x ≡ ok_at d → ⊥
ok-ne-err x d h = ground (arith, h)

-- The first with less fuel and fewer bytes than the last, which passes further on.
behind_part :
    (q : Bytes) (o o' o'' : Outcome (Unit {0})) (d : Cursor)
    → Same o o'
    → Extends q o' o''
    → o'' ≡ ok_at d
    → Ensures (λ _ c. c.position < d.position) o
    → (o ≡ err incomplete) ⊎ (o ≡ panic)
behind_part q (ok tt c) o' o'' d s x e l =
    let y : o'' ≡ ok_at (extend q c) = subst (λ z. Extends q z o'') s x in
    let same = ok_position (extend q c) d (sym y ∙ e) in absurd (omega (arith, same, l))
behind_part q (err incomplete) o' o'' d s x e l = inl refl
behind_part q (err bad_encoding) o' o'' d s x e l =
    let y : o'' ≡ err bad_encoding = subst (λ z. Extends q z o'') s x in
    absurd (ok-ne-err bad_encoding d (sym y ∙ e))
behind_part q (err (not_integer bs)) o' o'' d s x e l =
    let y : o'' ≡ err (not_integer bs) = subst (λ z. Extends q z o'') s x in
    absurd (ok-ne-err (not_integer bs) d (sym y ∙ e))
behind_part q (err (not_utf8 bs)) o' o'' d s x e l =
    let y : o'' ≡ err (not_utf8 bs) = subst (λ z. Extends q z o'') s x in
    absurd (ok-ne-err (not_utf8 bs) d (sym y ∙ e))
behind_part q panic o' o'' d s x e l = inr refl
behind_part q no_fuel o' o'' d s x e l = absurd l

module _ (k : Bool) where
  instance abbrev here : Env
  here = documented k

  -- The checker on a whole encoding with bytes behind it.
  check-encoding :
      (f : Frame) (r : Bytes)
      → IsWritable f
      → (d : Cursor) × (check (fuel_for (encoding f ++ r)) (start_of (encoding f ++ r)) ≡ ok tt d)
        × (d.position ≡ length (encoding f))
  check-encoding f r h =
      let bs = encoding f ++ r in
      let p = (parse-Reads k (length bs) f h).at (start_of bs) r refl in
      let a =
        subst (Agrees (check (fuel_for bs) (start_of bs))) p
          (check-Agrees-parse (documented-IsDocumented k) (fuel_for bs) (start_of bs)) in
      (_, Agrees-ok _ f _ a, omega arith)

  -- On a part of it, the checker asks for more or panics.
  check-part :
      (f : Frame) (p q r : Bytes)
      → IsWritable f
      → p ++ q ≡ encoding f ++ r
      → length p < length (encoding f)
      → (check (fuel_for p) (start_of p) ≡ err incomplete)
        ⊎ (check (fuel_for p) (start_of p) ≡ panic)
  check-part f p q r h e l =
      let (d, whole, pos) = check-encoding f r h in
      let total : length p + length q ≡ length (encoding f ++ r) =
        sym (length-append p q) ∙ ap length e in
      let fuel : fuel_for p + length q ≡ fuel_for (encoding f ++ r) = omega (arith, total) in
      let ends : check (fuel_for p + length q) (start_of (p ++ q)) ≡ ok_at d =
        subst (λ n. check n (start_of (p ++ q)) ≡ ok_at d) (sym fuel)
          (subst (λ z. check (fuel_for (encoding f ++ r)) (start_of z) ≡ ok_at d) (sym e) whole) in
      behind_part q (check (fuel_for p) (start_of p)) (check (fuel_for p + length q) (start_of p))
        (check (fuel_for p + length q) (start_of (p ++ q))) d
        (check-Same (fuel_for p) (length q) (start_of p))
        ((check-IsStable k q (fuel_for p + length q)).at (start_of p)) ends
        (Ensures-weaken (Moved (start_of p) 1) (λ _ c. c.position < d.position)
          (check (fuel_for p) (start_of p)) (λ _ c m. omega (arith, m.2, l, pos))
          (check_fuel k (fuel_for p) (start_of p) (omega arith) (omega arith)))

  parse_frame-part :
      (f : Frame) (p q r : Bytes)
      → IsWritable f
      → p ++ q ≡ encoding f ++ r
      → length p < length (encoding f)
      → (parse_frame p ≡ not_enough) ⊎ (parse_frame p ≡ panicked)
  unfolding parse_frame
  parse_frame-part f p q r h e l = elim (check-part f p q r h e l) [
    | inl c ↦ inl (rw (c, parse_frame) refl)
    | inr c ↦ inr (rw (c, parse_frame) refl)
  ]

  -- The frame comes, and what follows it stays, or `read_frame` panics.
  abbrev Comes : Frame → Bytes → Bytes → List (ℕ × Bytes) → Type 0
  Comes f r buffer pieces =
      ((left : Bytes) × (later : List (ℕ × Bytes)) × (read_frame buffer (arrivals pieces)
          ≡ received f left (arrivals later))
        × (left ++ joined later ≡ r))
      ⊎ (read_frame buffer (arrivals pieces) ≡ panicked)

  -- The buffer holds the whole frame.
  gives_frame :
      (f : Frame) (r buffer : Bytes) (pieces : List (ℕ × Bytes))
      → IsWritable f
      → buffer ++ joined pieces ≡ encoding f ++ r
      → length (encoding f) ≤ length buffer
      → Comes f r buffer pieces
  gives_frame f r buffer pieces h e l =
      let n = length (encoding f) in
      let front : take n buffer ≡ encoding f =
        sym (take-append n buffer (joined pieces) l) ∙ ap (take n) e ∙ take-length (encoding f) r in
      let back : drop n buffer ++ joined pieces ≡ r =
        sym (drop-append n buffer (joined pieces) l) ∙ ap (drop n) e ∙ drop-length (encoding f) r in
      let split : encoding f ++ drop n buffer ≡ buffer =
        ap (λ z. z ++ drop n buffer) (sym front) ∙ take-append-drop n buffer in
      inl (
        drop n buffer,
        pieces,
        read_frame-parsed (arrivals pieces) buffer (drop n buffer) f (
            subst (λ z. parse_frame z ≡ frame f (drop n buffer)) split
              (parse_frame-encoding k f (drop n buffer) h)),
        back,
      )

  resumes :
      (f : Frame) (r buffer : Bytes) (b : ℕ) (bs : Bytes) (pieces : List (ℕ × Bytes))
      → parse_frame buffer ≡ not_enough
      → Comes f r (buffer ++ b ∷ bs) pieces
      → Comes f r buffer ((b, bs) ∷ pieces)
  unfolding read_frame
  resumes f r buffer b bs pieces p c = rw p c

  panics :
      (buffer : Bytes) (pieces : List (ℕ × Bytes))
      → parse_frame buffer ≡ panicked
      → read_frame buffer (arrivals pieces) ≡ panicked
  unfolding read_frame
  panics buffer [] p = rw p refl
  panics buffer ((b, bs) ∷ pieces) p = rw p refl

  read_frame-Comes :
      (f : Frame) (r buffer : Bytes) (pieces : List (ℕ × Bytes))
      → IsWritable f
      → buffer ++ joined pieces ≡ encoding f ++ r
      → Comes f r buffer pieces
  read_frame-Comes f r buffer [] h e =
      gives_frame f r buffer [] h e
        (omega (arith, ap length e, length-append buffer [], length-append (encoding f) r))
  read_frame-Comes f r buffer ((b, bs) ∷ pieces) h e =
      let e' = append_assoc buffer (b ∷ bs) (joined pieces) ∙ e in
      let more = read_frame-Comes f r (buffer ++ b ∷ bs) pieces h e' in
      elim (dec_le (length (encoding f)) (length buffer)) [
        | yes l ↦ gives_frame f r buffer ((b, bs) ∷ pieces) h e l
        | no l ↦
            elim (parse_frame-part f buffer ((b ∷ bs) ++ joined pieces) r h e (omega (arith, l))) [
              | inl p ↦ resumes f r buffer b bs pieces p more
              | inr p ↦ inr (panics buffer ((b, bs) ∷ pieces) p)
            ]
      ]

-- However the encoding of a frame that can be written, and what follows it, is cut into pieces of at least
-- one byte, `read_frame`, from a buffer with the first bytes of it and a stream of the other pieces, gives
-- that frame, and what it leaves in the buffer and in the stream is what follows the frame; or it panics.
pub read_frame-arrivals :
    ⦃e : Env⦄ (laws : IsDocumented e) (f : Frame) (r buffer : Bytes) (pieces : List (ℕ × Bytes))
    → IsWritable f
    → buffer ++ joined pieces ≡ encoding f ++ r
    → ((left : Bytes) × (later : List (ℕ × Bytes)) × (read_frame buffer (arrivals pieces)
          ≡ received f left (arrivals later))
        × (left ++ joined later ≡ r))
      ⊎ (read_frame buffer (arrivals pieces) ≡ panicked)
read_frame-arrivals ⦃e⦄ laws f r buffer pieces h q =
    for_documented
      (λ e.
        ((left : Bytes) × (later : List (ℕ × Bytes)) × (read_frame ⦃e = e⦄ buffer (arrivals pieces)
            ≡ received f left (arrivals later))
          × (left ++ joined later ≡ r))
        ⊎ (read_frame ⦃e = e⦄ buffer (arrivals pieces) ≡ panicked))
      (λ k. read_frame-Comes k f r buffer pieces h q) laws
