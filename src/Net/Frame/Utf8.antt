-- ===== src/Net/Frame/Utf8.antt =====
-- `std::str::from_utf8`: which byte sequences are UTF-8 (the table of RFC 3629).
use opal.Prelude.{
  ℕ, Bool, true, false, ◌&&◌, Option, none, some, List, [], ◌∷◌, ltb, leb, ◌==◌, if◌then◌else◌,
}
use opal.Env.{Bytes}

abbrev Ranges : Type 0
Ranges = List (ℕ × ℕ)

-- The ranges of the bytes that follow a leading byte.
abbrev continuation : ℕ × ℕ
continuation = (0x80, 0xbf)

followers : ℕ → Option Ranges
followers a =
    if ltb a 0x80
    then some []
    else if ltb a 0xc2
    then none
    else if leb a 0xdf
    then some (continuation ∷ [])
    else if a == 0xe0
    then some ((0xa0, 0xbf) ∷ continuation ∷ [])
    else if a == 0xed
    then some ((0x80, 0x9f) ∷ continuation ∷ [])
    else if leb a 0xef
    then some (continuation ∷ continuation ∷ [])
    else if a == 0xf0
    then some ((0x90, 0xbf) ∷ continuation ∷ continuation ∷ [])
    else if leb a 0xf3
    then some (continuation ∷ continuation ∷ continuation ∷ [])
    else if a == 0xf4
    then some ((0x80, 0x8f) ∷ continuation ∷ continuation ∷ [])
    else none

valid_from : Ranges → Bytes → Bool
valid_from [] [] = true
valid_from ((lo, hi) ∷ rs) [] = false
valid_from [] (a ∷ bs) = elim (followers a) [ none ↦ false | some rs ↦ valid_from rs bs ]
valid_from ((lo, hi) ∷ rs) (a ∷ bs) = leb lo a && leb a hi && valid_from rs bs

unfoldable pub is_utf8 : Bytes → Bool
unfolding valid_from followers
is_utf8 bs = valid_from [] bs
