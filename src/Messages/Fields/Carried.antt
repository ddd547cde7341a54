-- ===== src/Messages/Fields/Carried.antt =====
-- src/service/fr_messages.cpp: each field that is put is got back.
use forgerelay.Prelude.{
  IsI32, IsI64, IsU16, IsU32, IsU64, List, [], ap, append-nil, arith, bytes, i32_of_u32,
  i32_of_u32-u32_of_i32, i64_of_u64, i64_of_u64-u64_of_i64, length, length-append, le→ltb, refl,
  subst, sym, u32_of_i32, u32_of_i32-lt, u64_of_i64, u64_of_i64-lt, ℕ, ℤ, ◌%◌, ◌^◌, ◌∙◌, ◌∷◌, ◌≡◌,
  ◌≤◌,
}
use forgerelay.Core.Buffer.{Allocator, append, append_u16be, append_u32be, append_u64be, append_u8}
use forgerelay.Core.Buffer.Invariant.{Total, append-succeeds, suc_ne}
use forgerelay.Core.Buffer.Reader.{Read, Reader, read, read_u16be, read_u32be, read_u64be, read_u8}
use forgerelay.Core.Buffer.Reader.Unread.{read_prefix, read_short, remaining-length, unread}
use forgerelay.Core.Buffer.Reader.Width.{
  FailsShort, TakesOff, advance, read_u16be-FailsShort, read_u16be-TakesOff, read_u32be-FailsShort,
  read_u32be-TakesOff, read_u64be-FailsShort, read_u64be-TakesOff, read_u8-FailsShort,
  read_u8-TakesOff,
}
use forgerelay.Core.Byteorder.{store_be16, store_be32, store_be64}
use forgerelay.Messages.Fields.{
  Put, digest_hex_len, done, get_bytes, get_digest, get_i32, get_i64, get_rest, get_str, get_u32,
  get_u64, get_u8, max_string, must, pure, put_digest, put_i32, put_i64, put_raw, put_str, put_u32,
  put_u64, put_u8, str_body, ◌>>◌,
}
use forgerelay.Messages.Wire.{
  Carries, Carries-fits, Carries-last, Carries-same, Carries-then, CarriesAll, Reads, RefusesShort,
  Silent, Silent-pure, Writes, str_size,
}
use native.Mathlib.Nat.{mod-eq_of_lt}

module _ (alloc : Allocator) (total : Total alloc) where
  pub put_raw-Writes : (l : List ℕ) → Writes (put_raw alloc l) l
  unfolding put_raw
  put_raw-Writes l out room =
      let (ok, added, w) = append-succeeds alloc total l room in
      ((append alloc out (bytes l)).buf, refl, added, w)

module _ {A : Type 0} (f : Reader → Read A) (wire : List ℕ) (a : A) where
  must-Reads : TakesOff f wire a → Reads (λ r. must (f r)) wire a
  unfolding must
  must-Reads take_off r rest e =
      let (ran, left) = take_off r rest e in (advance r (length wire), ap must ran, left)

  must-RefusesShort : FailsShort f (length wire) → RefusesShort (λ r. must (f r)) wire
  unfolding must
  must-RefusesShort fails r lost e h =
      ap must (fails r (omega (arith, ap length e, length-append (unread r) lost)))

module _ (alloc : Allocator) (total : Total alloc) where
  pub put_u8-Carries : (v : ℕ) → Carries 1 (put_u8 alloc v) get_u8 v
  unfolding put_u8 get_u8 append_u8 put_raw
  put_u8-Carries v = record {
    wire = v ∷ [];
    fits = omega arith;
    writes = put_raw-Writes alloc total (v ∷ []);
    reads = must-Reads read_u8 (v ∷ []) v (read_u8-TakesOff v);
    refuses_short = must-RefusesShort read_u8 (v ∷ []) v read_u8-FailsShort;
  }

  pub put_u32-Carries : (v : ℕ) → IsU32 v → Carries 4 (put_u32 alloc v) get_u32 v
  unfolding put_u32 get_u32 append_u32be put_raw store_be32
  put_u32-Carries v h = record {
    wire = store_be32 v;
    fits = omega arith;
    writes = put_raw-Writes alloc total (store_be32 v);
    reads = must-Reads read_u32be (store_be32 v) v (read_u32be-TakesOff v h);
    refuses_short = must-RefusesShort read_u32be (store_be32 v) v read_u32be-FailsShort;
  }

  pub put_u64-Carries : (v : ℕ) → IsU64 v → Carries 8 (put_u64 alloc v) get_u64 v
  unfolding put_u64 get_u64 append_u64be put_raw store_be64
  put_u64-Carries v h = record {
    wire = store_be64 v;
    fits = omega arith;
    writes = put_raw-Writes alloc total (store_be64 v);
    reads = must-Reads read_u64be (store_be64 v) v (read_u64be-TakesOff v h);
    refuses_short = must-RefusesShort read_u64be (store_be64 v) v read_u64be-FailsShort;
  }

  pub put_i64-Carries : (z : ℤ) → IsI64 z → Carries 8 (put_i64 alloc z) get_i64 z
  unfolding put_i64 get_i64
  put_i64-Carries z h = Carries-last _ (put_u64-Carries (u64_of_i64 z) (u64_of_i64-lt z)) (
      subst (λ t. Silent (pure (i64_of_u64 (u64_of_i64 z))) t) (i64_of_u64-u64_of_i64 z h)
        (Silent-pure (i64_of_u64 (u64_of_i64 z))))

  pub put_i32-Carries : (z : ℤ) → IsI32 z → Carries 4 (put_i32 alloc z) get_i32 z
  unfolding put_i32 get_i32 put_u32
  put_i32-Carries z h = Carries-last _ (put_u32-Carries (u32_of_i32 z) (u32_of_i32-lt z)) (
      subst (λ t. Silent (pure (i32_of_u32 (u32_of_i32 z))) t) (i32_of_u32-u32_of_i32 z h)
        (Silent-pure (i32_of_u32 (u32_of_i32 z))))

  put_raw-Carries :
      (l : List ℕ) → Carries (length l) (put_raw alloc l) (λ r. must (read r (length l))) l
  put_raw-Carries l =
      let take_off : TakesOff (λ r. read r (length l)) l l = λ r rest e. read_prefix r l rest e in
      record {
        wire = l;
        fits = omega arith;
        writes = put_raw-Writes alloc total l;
        reads = must-Reads (λ r. read r (length l)) l l take_off;
        refuses_short =
            must-RefusesShort (λ r. read r (length l)) l l (λ r h. read_short r (length l) h);
      }

  pub put_digest-Carries :
      (hex : List ℕ)
      → length hex ≡ digest_hex_len
      → Carries 64 (put_digest alloc hex) get_digest hex
  unfolding put_digest get_digest put_raw
  put_digest-Carries hex h =
      Carries-same (put_raw alloc hex) (put_digest alloc hex) (λ out. ground (arith, h))
        (subst (λ n. Carries n (put_raw alloc hex) (λ r. must (read r n)) hex) h
          (put_raw-Carries hex))

  -- No bytes are read with no call of the reader.
  get_bytes-Reads : (l : List ℕ) → Reads (get_bytes (length l)) l l
  unfolding get_bytes
  get_bytes-Reads [] = λ r rest e. (r, refl, e)
  get_bytes-Reads (x ∷ l) = rw (suc_ne (length l)) (
      must-Reads (λ r. read r (length (x ∷ l))) (x ∷ l) (x ∷ l)
        (λ r rest e. read_prefix r (x ∷ l) rest e))

  get_bytes-RefusesShort : (l : List ℕ) → RefusesShort (get_bytes (length l)) l
  unfolding get_bytes
  get_bytes-RefusesShort [] =
      λ r lost e h. absurd (omega (arith, ap length e, length-append {0} (unread r) lost))
  get_bytes-RefusesShort (x ∷ l) = rw (suc_ne (length l)) (
      must-RefusesShort (λ r. read r (length (x ∷ l))) (x ∷ l) (x ∷ l)
        (λ r h. read_short r (length (x ∷ l)) h))

  pub get_bytes-Carries :
      (l : List ℕ) → Carries (length l) (put_raw alloc l) (get_bytes (length l)) l
  get_bytes-Carries l = record {
    wire = l;
    fits = omega arith;
    writes = put_raw-Writes alloc total l;
    reads = get_bytes-Reads l;
    refuses_short = get_bytes-RefusesShort l;
  }

  str_body-Carries :
      (l : List ℕ)
      → length l ≤ max_string
      → Carries (length l) (put_raw alloc l) (str_body (length l)) l
  unfolding str_body
  str_body-Carries l h = rw (le→ltb max_string (length l) h) (get_bytes-Carries l)

  put_length : ℕ → Put
  put_length n out = done (append_u16be alloc out n).buf

  put_length-Carries : (n : ℕ) → IsU16 n → Carries 2 (put_length n) (λ r. must (read_u16be r)) n
  unfolding put_length append_u16be put_raw store_be16
  put_length-Carries n h = record {
    wire = store_be16 n;
    fits = omega arith;
    writes = put_raw-Writes alloc total (store_be16 n);
    reads = must-Reads read_u16be (store_be16 n) n (read_u16be-TakesOff n h);
    refuses_short = must-RefusesShort read_u16be (store_be16 n) n read_u16be-FailsShort;
  }

  pub put_str-Carries :
      (value : List ℕ)
      → length value ≤ max_string
      → Carries str_size (put_str alloc value) get_str value
  unfolding put_str get_str put_length put_raw ◌>>◌
  put_str-Carries value h =
      let small : length value % 2 ^ 16 ≡ length value = mod-eq_of_lt (omega arith) in
      Carries-same (put_length (length value) >> put_raw alloc value) (put_str alloc value)
        (λ out. rw (le→ltb max_string (length value) h, small) refl)
        (Carries-fits
          (Carries-then str_body (put_length-Carries (length value) (omega arith))
            (str_body-Carries value h))
          (omega arith))

  pub get_rest-CarriesAll : (l : List ℕ) → CarriesAll (length l) (put_raw alloc l) get_rest l
  unfolding get_rest
  get_rest-CarriesAll l = record {
    wire = l;
    fits = omega arith;
    writes = put_raw-Writes alloc total l;
    reads_all = λ r e.
        let (r', ran, left) = get_bytes-Reads l r [] (e ∙ sym (append-nil l)) in
        (r', ap (λ n. get_bytes n r) (remaining-length r ∙ ap length e) ∙ ran, left);
  }
