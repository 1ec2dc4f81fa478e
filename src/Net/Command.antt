-- ===== src/Net/Command.antt =====
-- net/command.rs and net/command/{del,get,set}.rs: commands and the frames that carry them.
pub mod Frames
use opal.Prelude.{
  ℕ, ◌≡◌, ◌≢◌, Bool, true, false, ◌&&◌, Option, none, some, List, [], ◌∷◌, ◌==◌, if◌then◌else◌,
}
use opal.Env.{Bytes}
use opal.Net.Frame.Data.{Frame, Frames as Items, bulk_string, array, nil, cons}
use opal.Net.Frame.Utf8.{is_utf8}

-- The messages of `BadArguments`.
pub data Reason : Type 0 where
  keys_are_empty key_is_not_given value_is_not_given extra_data : Reason

-- enum Error
pub data Error : Type 0 where
  bad_arguments : Reason → Error
  bad_command : Bytes → Error
  bad_frame : Frame → Error
  not_utf8 : Bytes → Error

-- enum Command with the structs that it holds; a `Utf8Bytes` is its bytes.
pub data Command : Type 0 where
  del : List Bytes → Command
  get : Bytes → Command
  set : Bytes → Bytes → Command

pub data Result {ℓ} (A : Type ℓ) : Type ℓ where
  ok : A → Result A
  err : Error → Result A

infixl 5 ◌>>=◌
abbrev pub ◌>>=◌ {ℓ κ} : {A : Type ℓ} {B : Type κ} → Result A → (A → Result B) → Result B
ok a >>= f = f a
err e >>= f = err e

abbrev pub ok_or {ℓ} : {A : Type ℓ} → Option A → Error → Result A
ok_or none e = err e
ok_or (some a) e = ok a

-- A parser is the frames that are left.
abbrev pub Parser : Type 0
Parser = Items

unfoldable pub new : Frame → Result Parser
new (array frames) = ok frames
new f = err (bad_frame f)

-- `Utf8Bytes::try_from`
unfoldable pub utf8_bytes : Bytes → Result Bytes
utf8_bytes s = if is_utf8 s then ok s else err (not_utf8 s)

unfoldable pub get_string : Parser → Result (Option Bytes × Parser)
unfolding utf8_bytes
get_string nil = ok (none, nil)
get_string (cons (bulk_string s) p) = utf8_bytes s >>= λ t. ok (some t, p)
get_string (cons f p) = err (bad_frame f)

unfoldable pub get_bytes : Parser → Result (Option Bytes × Parser)
get_bytes nil = ok (none, nil)
get_bytes (cons (bulk_string s) p) = ok (some s, p)
get_bytes (cons f p) = err (bad_frame f)

unfoldable pub finish : Parser → Bool
finish nil = true
finish (cons f p) = false

abbrev pub bytes_eq : Bytes → Bytes → Bool
bytes_eq [] [] = true
bytes_eq (a ∷ as') (b ∷ bs) = a == b && bytes_eq as' bs
bytes_eq _ _ = false

-- The loop of `Del::try_from`: a `get_string` for each frame, which leaves those behind it.
unfoldable pub keys : Parser → Result (List Bytes)
unfolding get_string
keys nil = ok []
keys (cons f p) = do
  (key, _) ← get_string (cons f p)
  key ← ok_or key (bad_arguments keys_are_empty)
  ks ← keys p
  ok (key ∷ ks)

unfoldable pub del_from : Parser → Result Command
unfolding keys
del_from p = do
  ks ← keys p
  elim ks [ [] ↦ err (bad_arguments keys_are_empty) | k ∷ rest ↦ ok (del (k ∷ rest)) ]

unfoldable pub get_from : Parser → Result Command
unfolding get_string finish
get_from p = do
  (key, p) ← get_string p
  key ← ok_or key (bad_arguments key_is_not_given)
  if finish p then ok (get key) else err (bad_arguments extra_data)

unfoldable pub set_from : Parser → Result Command
unfolding get_string get_bytes finish
set_from p = do
  (key, p) ← get_string p
  key ← ok_or key (bad_arguments key_is_not_given)
  (value, p) ← get_bytes p
  value ← ok_or value (bad_arguments value_is_not_given)
  if finish p then ok (set key value) else err (bad_arguments extra_data)

abbrev pub del_word : Bytes
del_word = b'D' ∷ b'E' ∷ b'L' ∷ []

abbrev pub get_word : Bytes
get_word = b'G' ∷ b'E' ∷ b'T' ∷ []

abbrev pub set_word : Bytes
set_word = b'S' ∷ b'E' ∷ b'T' ∷ []

unfoldable pub dispatch : Option Bytes → Parser → Result Command
unfolding del_from get_from set_from
dispatch none p = err (bad_command [])
dispatch (some b) p =
    if bytes_eq del_word b
    then del_from p
    else if bytes_eq get_word b
    then get_from p
    else if bytes_eq set_word b
    then set_from p
    else err (bad_command b)

-- `Command::try_from`
unfoldable pub try_from : Frame → Result Command
unfolding new get_bytes dispatch
try_from frame = do p ← new frame; (b, p) ← get_bytes p; dispatch b p

-- `Frame::from` of the three commands.
unfoldable pub bulk_strings : List Bytes → Items
bulk_strings [] = nil
bulk_strings (k ∷ ks) = cons (bulk_string k) (bulk_strings ks)

abbrev pub del_frame : List Bytes → Frame
del_frame ks = array (cons (bulk_string del_word) (bulk_strings ks))

abbrev pub get_frame : Bytes → Frame
get_frame key = array (cons (bulk_string get_word) (cons (bulk_string key) nil))

abbrev pub set_frame : Bytes → Bytes → Frame
set_frame key value =
    array (cons (bulk_string set_word) (cons (bulk_string key) (cons (bulk_string value) nil)))

unfoldable pub to_frame : Command → Frame
unfolding bulk_strings
to_frame (del ks) = del_frame ks
to_frame (get key) = get_frame key
to_frame (set key value) = set_frame key value
