-- ===== src/Proto/Io.antt =====
-- What internal/proto uses of Go's io and encoding/binary packages: a reader that ends, a writer
-- that breaks after some bytes, and the errors of both.

use wire_rift.Prelude.{
  ℕ, ◌+◌, ◌-◌, ◌*◌, ◌/◌, ◌%◌, ◌^◌, ◌==◌, leb, if◌then◌else◌, List, [], ◌∷◌, ◌++◌, length, take,
  drop, Option, none, some,
}

-- The errors of internal/proto/frame.go, and those of package io that it returns.
pub data Error : Type 0 where
  invalid_version invalid_stream_id payload_too_large invalid_magic : Error
  eof unexpected_eof short_write : Error

pub data Result {ℓ} (A : Type ℓ) : Type ℓ where
  ok : A → Result A
  err : Error → Result A

-- An io.Reader is the list of the bytes that it will still deliver before io.EOF. A reading action
-- returns its result and what is left.
abbrev pub Reading {ℓ} : Type ℓ → Type ℓ
Reading A = List ℕ → Result A × List ℕ

abbrev pub done {ℓ} : {A : Type ℓ} → A → Reading A
done a r = (ok a, r)

abbrev pub fail {ℓ} : {A : Type ℓ} → Error → Reading A
fail e r = (err e, r)

infixl 5 ◌>>=◌
abbrev pub and_then {ℓ κ} :
    {A : Type ℓ} {B : Type κ} → Result A × List ℕ → (A → Reading B) → Result B × List ℕ
and_then (ok a, r) f = f a r
and_then (err e, r) f = (err e, r)

abbrev pub ◌>>=◌ {ℓ κ} : {A : Type ℓ} {B : Type κ} → Reading A → (A → Reading B) → Reading B
◌>>=◌ m f r = and_then (m r) f

-- io.ReadFull of a buffer of n bytes.
unfoldable pub read_full : ℕ → Reading (List ℕ)
read_full n r =
    if leb n (length r)
    then (ok (take n r), drop n r)
    else if length r == 0
    then (err eof, [])
    else (err unexpected_eof, [])

-- io.CopyN of n bytes into a buffer: the bytes that arrived, and the error.
unfoldable pub copy_n : ℕ → List ℕ → (List ℕ × Option Error) × List ℕ
copy_n n r = if leb n (length r) then ((take n r, none), drop n r) else ((r, some eof), [])

-- An io.Writer that takes `room` more bytes and then fails, as a connection that breaks does.
pub record Writer : Type 0 where
  pub sent : List ℕ
  pub room : ℕ

unfoldable pub write_bytes : Writer → List ℕ → Option Error × Writer
write_bytes w p =
    if leb (length p) w.room
    then (none, record { sent = w.sent ++ p; room = w.room - length p })
    else (some short_write, record { sent = w.sent ++ take w.room p; room = 0 })

-- byte(v >> k)
abbrev pub byte_at : ℕ → ℕ → ℕ
byte_at v k = v / 2 ^ k % 256

-- binary.BigEndian.PutUint32 and Uint32.
abbrev pub put_uint32 : ℕ → List ℕ
put_uint32 v = byte_at v 24 ∷ byte_at v 16 ∷ byte_at v 8 ∷ byte_at v 0 ∷ []

abbrev pub uint32 : ℕ → ℕ → ℕ → ℕ → ℕ
uint32 a b c d = a * 2 ^ 24 + b * 2 ^ 16 + c * 2 ^ 8 + d
