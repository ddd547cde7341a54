-- ===== src/Messages/Fields.antt =====
-- src/service/fr_messages.cpp: the fields that the payloads are made of, `put_*` and `get_*`.
use forgerelay.Prelude.{
  List, [], bytes, i32_of_u32, i64_of_u64, if◌then◌else◌, length, ltb, not, u32_of_i32, u64_of_i64,
  ℕ, ℤ, ◌%◌, ◌==◌, ◌^◌,
}
use forgerelay.Core.Buffer.{
  Allocator, Buf, append, append_u16be, append_u32be, append_u64be, append_u8,
}
use forgerelay.Core.Buffer.Reader.{
  Read, Reader, failed, got, read, read_u16be, read_u32be, read_u64be, read_u8, remaining,
}
use forgerelay.Core.Status.{Status, e_arg, e_protocol}
pub mod Carried

-- `thrown` is an `fr::Error` with its code; its text is left out.
pub data Outcome {ℓ} (A : Type ℓ) : Type ℓ where
  done : A → Outcome A
  thrown : Status → Outcome A

-- An encoder writes to the end of a buffer.
abbrev pub Put : Type 0
Put = Buf → Outcome Buf

-- A decoder reads on from a reader.
abbrev pub Get : Type 0 → Type 0
Get A = Reader → Outcome (A × Reader)

abbrev pub then_do {ℓ κ} : {A : Type ℓ} {B : Type κ} → Outcome A → (A → Outcome B) → Outcome B
then_do (done a) k = k a
then_do (thrown st) k = thrown st

infixl 5 ◌>>=◌ ◌>>◌
unfoldable pub ◌>>=◌ : {A B : Type 0} → Get A → (A → Get B) → Get B
(g >>= k) r = then_do (g r) (λ (a, r'). k a r')

-- Encoders one after another.
unfoldable pub ◌>>◌ : Put → Put → Put
(p >> q) out = then_do (p out) q

unfoldable pub pure : {A : Type 0} → A → Get A
pure a r = done (a, r)

abbrev pub max_string : ℕ
max_string = 512

abbrev pub digest_hex_len : ℕ
digest_hex_len = 64

-- The status of an append is not looked at.
module _ (alloc : Allocator) where
  pub put_raw : List ℕ → Put
  put_raw l out = done (append alloc out (bytes l)).buf

  pub put_str : List ℕ → Put
  put_str value out =
      if ltb max_string (length value)
      then thrown e_arg
      else done
          (append alloc (append_u16be alloc out (length value % 2 ^ 16)).buf (bytes value)).buf

  pub put_u8 : ℕ → Put
  put_u8 value out = done (append_u8 alloc out value).buf

  pub put_u32 : ℕ → Put
  put_u32 value out = done (append_u32be alloc out value).buf

  pub put_i32 : ℤ → Put
  put_i32 value out = done (append_u32be alloc out (u32_of_i32 value)).buf

  pub put_u64 : ℕ → Put
  put_u64 value out = done (append_u64be alloc out value).buf

  pub put_i64 : ℤ → Put
  put_i64 value = put_u64 (u64_of_i64 value)

  pub put_digest : List ℕ → Put
  put_digest hex out =
      if not (length hex == digest_hex_len)
      then thrown e_arg
      else done (append alloc out (bytes hex)).buf

-- A read that must succeed, `protocol_error` if it does not.
must : {A : Type 0} → Read A → Outcome (A × Reader)
must (got a r) = done (a, r)
must (failed st) = thrown e_protocol

pub get_u8 : Get ℕ
unfolding must
get_u8 r = must (read_u8 r)

pub get_u32 : Get ℕ
unfolding must
get_u32 r = must (read_u32be r)

pub get_i32 : Get ℤ
unfolding ◌>>=◌ pure
get_i32 = get_u32 >>= λ v. pure (i32_of_u32 v)

pub get_u64 : Get ℕ
unfolding must
get_u64 r = must (read_u64be r)

pub get_i64 : Get ℤ
unfolding ◌>>=◌ pure
get_i64 = get_u64 >>= λ v. pure (i64_of_u64 v)

-- `len` bytes, with no call of the reader when there are none.
pub get_bytes : ℕ → Get (List ℕ)
unfolding must
get_bytes len = if len == 0 then (λ r. done ([], r)) else (λ r. must (read r len))

str_body : ℕ → Get (List ℕ)
str_body len = if ltb max_string len then (λ r. thrown e_protocol) else get_bytes len

pub get_str : Get (List ℕ)
unfolding must str_body ◌>>=◌
get_str = (λ r. must (read_u16be r)) >>= str_body

pub get_digest : Get (List ℕ)
unfolding must
get_digest r = must (read r digest_hex_len)

pub get_rest : Get (List ℕ)
get_rest r = get_bytes (remaining r) r
