-- ===== src/Env.antt =====
-- What the network code takes from outside the repository: the `Buf` methods of the `bytes` crate
-- over `std::io::Cursor<&[u8]>`, and whether the build checks integer overflow (a debug build
-- panics on it, a release build wraps). A byte is a number below 256.
use opal.Prelude.{
  ℕ, ◌+◌, ◌-◌, ◌≡◌, refl, Bool, Option, none, some, List, [], ◌∷◌, length, take, drop, leb,
  if◌then◌else◌, fun_ext, sym, subst,
}

abbrev pub Bytes : Type 0
Bytes = List ℕ

-- `std::io::Cursor`: the bytes and the position, which may lie past the end.
pub record Cursor : Type 0 where
  pub bytes : Bytes
  pub position : ℕ

-- `none` stands for a panic.
pub record Env : Type 0 where
  pub overflow_checks : Bool
  pub remaining : Cursor → ℕ
  pub get_u8 : Cursor → Option (ℕ × Cursor)
  pub chunk : Cursor → Bytes
  pub advance : Cursor → ℕ → Option Cursor
  pub copy_to_bytes : Cursor → ℕ → Option (Bytes × Cursor)
  pub advance_bytes : Bytes → ℕ → Option Bytes

-- The documented behaviour of these methods as functions, for a build with or without checks.
abbrev pub seek_by : Cursor → ℕ → Cursor
seek_by c n = record c { position = c.position + n }

abbrev pub rest : Cursor → Bytes
rest c = drop c.position c.bytes

abbrev take_u8 : Cursor → Bytes → Option (ℕ × Cursor)
take_u8 c [] = none
take_u8 c (b ∷ bs) = some (b, seek_by c 1)

abbrev pub documented : Bool → Env
documented checks = record {
  overflow_checks = checks;
  remaining = λ c. length c.bytes - c.position;
  get_u8 = λ c. take_u8 c (rest c);
  chunk = λ c. rest c;
  advance = λ c n. if leb n (length c.bytes - c.position) then some (seek_by c n) else none;
  copy_to_bytes = λ c n.
      if leb n (length c.bytes - c.position) then some (take n (rest c), seek_by c n) else none;
  advance_bytes = λ bs n. if leb n (length bs) then some (drop n bs) else none;
}

-- The laws that the documentation of `bytes::Buf` states for a cursor and for `BytesMut`.
pub record IsDocumented (e : Env) : Type 0 where
  pub remaining_lem : (c : Cursor) → e.remaining c ≡ length c.bytes - c.position
  pub get_u8_lem : (c : Cursor) → e.get_u8 c ≡ take_u8 c (rest c)
  pub chunk_lem : (c : Cursor) → e.chunk c ≡ rest c
  pub advance_lem :
      (c : Cursor) (n : ℕ) → e.advance c n ≡ (documented e.overflow_checks).advance c n
  pub copy_to_bytes_lem :
      (c : Cursor) (n : ℕ) → e.copy_to_bytes c n ≡ (documented e.overflow_checks).copy_to_bytes c n
  pub advance_bytes_lem :
      (bs : Bytes) (n : ℕ)
      → e.advance_bytes bs n ≡ (documented e.overflow_checks).advance_bytes bs n

-- The laws leave no choice, so a statement about the documented methods is one about any.
pub Env-eq-documented : {e : Env} → IsDocumented e → e ≡ documented e.overflow_checks
Env-eq-documented {e} laws = λ i. record {
  overflow_checks = e.overflow_checks;
  remaining = fun_ext laws.remaining_lem i;
  get_u8 = fun_ext laws.get_u8_lem i;
  chunk = fun_ext laws.chunk_lem i;
  advance = fun_ext (λ c. fun_ext (laws.advance_lem c)) i;
  copy_to_bytes = fun_ext (λ c. fun_ext (laws.copy_to_bytes_lem c)) i;
  advance_bytes = fun_ext (λ bs. fun_ext (laws.advance_bytes_lem bs)) i;
}

-- A statement about the documented methods, in either build, holds of methods with their laws.
pub for_documented {ℓ} :
    (P : Env → Type ℓ)
    → ((checks : Bool) → P (documented checks))
    → {e : Env} → IsDocumented e
    → P e
for_documented P h {e} laws = subst P (sym (Env-eq-documented laws)) (h e.overflow_checks)

pub documented-IsDocumented : (checks : Bool) → IsDocumented (documented checks)
documented-IsDocumented checks = record {
  remaining_lem = λ c. refl;
  get_u8_lem = λ c. refl;
  chunk_lem = λ c. refl;
  advance_lem = λ c n. refl;
  copy_to_bytes_lem = λ c n. refl;
  advance_bytes_lem = λ bs n. refl;
}
