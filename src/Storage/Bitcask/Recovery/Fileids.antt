-- ===== src/Storage/Bitcask/Recovery/Fileids.antt =====
-- `sorted_fileids` gives the ids of the data files of a directory in order, whatever order the names
-- come in and however often.
use opal.Prelude.{
  ℕ, ◌≤◌, ◌<◌, ◌≡◌, refl, sym, ap, ◌∙◌, subst, Bool, true, false, ◌||◌, none, some, List, [], ◌∷◌,
  ◌++◌, ◌==◌, ltb, if◌then◌else◌, arith, Bool-cases, inl, inr,
}
use opal.Storage.Bitcask.Files.{FileName, datafile_name, hintfile_name}
use opal.Storage.Bitcask.Recovery.{into_set, sorted_fileids, most_recent}

abbrev pub member : ℕ → List ℕ → Bool
member i [] = false
member i (j ∷ js) = (i == j) || member i js

abbrev pub listed : ℕ → List FileName → Bool
listed i [] = false
listed i (datafile_name j ∷ names) = (i == j) || listed i names
listed i (hintfile_name j ∷ names) = listed i names

-- Every id of the list is above.
abbrev pub Above : ℕ → List ℕ → Type 0
Above i [] = Unit
Above i (j ∷ js) = (i < j) × Above i js

abbrev pub IsAscending : List ℕ → Type 0
IsAscending [] = Unit
IsAscending (i ∷ is) = Above i is × IsAscending is

Above-weaken : (i j : ℕ) (js : List ℕ) → i < j → Above j js → Above i js
Above-weaken i j [] h a = tt
Above-weaken i j (k ∷ js) h a = (omega (arith, a.0), Above-weaken i j js h a.1)

Above-into_set : (i j : ℕ) (js : List ℕ) → i < j → Above i js → Above i (into_set j js)
unfolding into_set
Above-into_set i j [] h a = (h, tt)
Above-into_set i j (k ∷ js) h a = ground (arith, Above-into_set i j js h a.1)

into_set-IsAscending : (i : ℕ) (js : List ℕ) → IsAscending js → IsAscending (into_set i js)
unfolding into_set
into_set-IsAscending i [] a = (tt, tt)
into_set-IsAscending i (j ∷ js) a =
    ground (arith, a, into_set-IsAscending i js a.1, Above-weaken i j js, Above-into_set j i js)

member-into_set : (i j : ℕ) (js : List ℕ) → member i (into_set j js) ≡ ((i == j) || member i js)
unfolding into_set
member-into_set i j [] = refl
member-into_set i j (k ∷ js) = ground (arith, member-into_set i j js)

sorted_fileids-IsAscending : (names : List FileName) → IsAscending (sorted_fileids names)
unfolding sorted_fileids
sorted_fileids-IsAscending [] = tt
sorted_fileids-IsAscending (datafile_name i ∷ names) =
    into_set-IsAscending i (sorted_fileids names) (sorted_fileids-IsAscending names)
sorted_fileids-IsAscending (hintfile_name i ∷ names) = sorted_fileids-IsAscending names

member-sorted_fileids :
    (i : ℕ) (names : List FileName) → member i (sorted_fileids names) ≡ listed i names
unfolding sorted_fileids
member-sorted_fileids i [] = refl
member-sorted_fileids i (datafile_name j ∷ names) =
    member-into_set i j (sorted_fileids names)
    ∙ ap (λ b. (i == j) || b) (member-sorted_fileids i names)
member-sorted_fileids i (hintfile_name j ∷ names) = member-sorted_fileids i names

not_member : (i j : ℕ) (js : List ℕ) → i ≤ j → Above j js → member i js ≡ false
not_member i j [] h a = refl
not_member i j (k ∷ js) h a = ground (arith, not_member i j js h a.1, a.0)

-- The least id is the first one.
least : (i j : ℕ) (is js : List ℕ) → Above j js → member i (i ∷ is) ≡ member i (j ∷ js) → j ≤ i
least i j is js b h = ground (arith, h, λ (l : i ≤ j). not_member i j js l b)

tail-eq :
    (i k : ℕ) (is js : List ℕ)
    → Above i is
    → Above i js
    → member k (i ∷ is) ≡ member k (i ∷ js)
    → member k is ≡ member k js
tail-eq i k is js a b h = elim (Bool-cases (k == i)) [
  | inl same ↦
      ground (arith, not_member k i is (ground arith) a, not_member k i js (ground arith) b)
  | inr other ↦ ground (arith, h)
]

IsAscending-eq :
    (is js : List ℕ)
    → IsAscending is
    → IsAscending js
    → ((i : ℕ) → member i is ≡ member i js)
    → is ≡ js
IsAscending-eq [] [] a b h = refl
IsAscending-eq [] (j ∷ js) a b h = absurd (ground (arith, h j))
IsAscending-eq (i ∷ is) [] a b h = absurd (ground (arith, h i))
IsAscending-eq (i ∷ is) (j ∷ js) a b h =
    let e : i ≡ j = omega (arith, least i j is js b.0 (h i), least j i js is a.0 (sym (h j))) in
    let b' = subst (λ k. Above k js) (sym e) b.0 in
    let h' = subst (λ z. (k : ℕ) → member k (i ∷ is) ≡ member k (z ∷ js)) (sym e) h in
    ap (λ z. z ∷ is) e
    ∙ ap (λ z. j ∷ z) (IsAscending-eq is js a.1 b.1 (λ k. tail-eq i k is js a.0 b' (h' k)))

-- The ids of a directory are any ascending list that has the same ids as the directory's data files.
pub sorted_fileids-eq :
    (names : List FileName) (is : List ℕ)
    → IsAscending is
    → ((i : ℕ) → listed i names ≡ member i is)
    → sorted_fileids names ≡ is
sorted_fileids-eq names is a h =
    IsAscending-eq (sorted_fileids names) is (sorted_fileids-IsAscending names) a
      (λ i. member-sorted_fileids i names ∙ h i)

-- The greatest of the ids, which the next file's id lies above.
pub record IsGreatest (k : ℕ) (is : List ℕ) : Type 0 where
  pub among : member k is ≡ true
  pub above : (i : ℕ) → member i is ≡ true → i ≤ k

most_recent-some :
    (j : ℕ) (is : List ℕ) → (k : ℕ) × (most_recent (some j) is ≡ some k) × IsGreatest k (j ∷ is)
unfolding most_recent
most_recent-some j [] = (j, refl, record { among = ground arith; above = λ i h. ground (arith, h) })
most_recent-some j (i ∷ is) =
    let (k, e, g) = most_recent-some (if ltb j i then i else j) is in
    (k, e, record { among = ground (arith, g.among); above = λ n h. greater j i k n is g.above h })
  where
    greater :
        (j i k n : ℕ) (is : List ℕ)
        → ((m : ℕ) → member m ((if ltb j i then i else j) ∷ is) ≡ true → m ≤ k)
        → member n (j ∷ i ∷ is) ≡ true
        → n ≤ k
    greater j i k n is above h = ground (arith, h, above n, above i, above j)

pub most_recent-IsGreatest :
    (i : ℕ) (is : List ℕ) → (k : ℕ) × (most_recent none (i ∷ is) ≡ some k) × IsGreatest k (i ∷ is)
unfolding most_recent
most_recent-IsGreatest i is = most_recent-some i is

-- Lists of ids that end in a given one.
pub before_last : (is : List ℕ) (a i : ℕ) → IsAscending (is ++ a ∷ []) → member i is ≡ true → i < a
before_last [] a i h m = absurd (ground (arith, m))
before_last (j ∷ is) a i h m = ground (arith, m, above_last j is a h.0, before_last is a i h.1)
  where
    above_last : (j : ℕ) (is : List ℕ) (a : ℕ) → Above j (is ++ a ∷ []) → j < a
    above_last j [] a h = h.0
    above_last j (k ∷ is) a h = above_last j is a h.1

Above-append : (j : ℕ) (is : List ℕ) (a : ℕ) → Above j is → j < a → Above j (is ++ a ∷ [])
Above-append j [] a h l = (l, tt)
Above-append j (k ∷ is) a h l = (h.0, Above-append j is a h.1 l)

pub IsAscending-append :
    (is : List ℕ) (a : ℕ)
    → IsAscending is
    → ((i : ℕ) → member i is ≡ true → i < a)
    → IsAscending (is ++ a ∷ [])
IsAscending-append [] a h l = (tt, tt)
IsAscending-append (j ∷ is) a h l = (
  Above-append j is a h.0 (l j (ground arith)),
  IsAscending-append is a h.1 (λ i m. l i (ground (arith, m))),
)

Above-init : (j : ℕ) (is : List ℕ) (a : ℕ) → Above j (is ++ a ∷ []) → Above j is
Above-init j [] a h = tt
Above-init j (k ∷ is) a h = (h.0, Above-init j is a h.1)

pub IsAscending-init : (is : List ℕ) (a : ℕ) → IsAscending (is ++ a ∷ []) → IsAscending is
IsAscending-init [] a h = tt
IsAscending-init (j ∷ is) a h = (Above-init j is a h.0, IsAscending-init is a h.1)

pub member-append : (i : ℕ) (is js : List ℕ) → member i (is ++ js) ≡ (member i is || member i js)
member-append i [] js = refl
member-append i (j ∷ is) js = ground (arith, member-append i is js)
