-- ===== src/Messages/Wire.antt =====
-- The contract between an encoder and its decoder, and how it is put together from the fields'.
use forgerelay.Prelude.{
  List, [], ap, append_assoc, append_split, arith, dec_lt, length, length-append, refl, sym, ℕ,
  ◌++◌, ◌+◌, ◌<◌, ◌∙◌, ◌≡◌, ◌≤◌,
}
use forgerelay.Core.Buffer.{Buf}
use forgerelay.Core.Buffer.Invariant.{HasRoom, IsWf}
use forgerelay.Core.Buffer.Reader.{Reader}
use forgerelay.Core.Buffer.Reader.Unread.{unread}
use forgerelay.Core.Status.{e_protocol}
use forgerelay.Messages.Fields.{Get, Put, done, pure, then_do, thrown, ◌>>=◌, ◌>>◌}

-- With memory and room, the encoder adds the bytes `wire` and keeps the buffer well formed.
abbrev pub Writes : Put → List ℕ → Type 0
Writes p wire =
    (out : Buf)
    → HasRoom out (length wire)
    → (out' : Buf) × (p out ≡ done out') × (out'.contents ≡ out.contents ++ wire) × IsWf out'

-- The decoder takes `wire` off the front of the unread bytes, for the value a.
abbrev pub Reads : {A : Type 0} → Get A → List ℕ → A → Type 0
Reads g wire a =
    (r : Reader) (rest : List ℕ)
    → unread r ≡ wire ++ rest
    → (r' : Reader) × (g r ≡ done (a, r')) × (unread r' ≡ rest)

-- The decoder refuses what stops short of `wire`.
abbrev pub RefusesShort : {A : Type 0} → Get A → List ℕ → Type 0
RefusesShort g wire =
    (r : Reader) (lost : List ℕ)
    → unread r ++ lost ≡ wire
    → 0 < length lost
    → g r ≡ thrown e_protocol

-- A string on the wire: its length, and 512 bytes at most.
abbrev pub str_size : ℕ
str_size = 514

-- Encoder p and decoder g carry the value a: there are at most `size` bytes that p writes, that g reads back as a
-- whatever follows them, and that g refuses when the end of them is missing.
pub record Carries (size : ℕ) {A : Type 0} (p : Put) (g : Get A) (a : A) : Type 0 where
  pub wire : List ℕ
  pub fits : length wire ≤ size
  pub writes : Writes p wire
  pub reads : Reads g wire a
  pub refuses_short : RefusesShort g wire

-- Encoders that do the same carry the same.
pub Carries-same :
    {n : ℕ} {A : Type 0} (p q : Put) {g : Get A} {a : A}
    → ((out : Buf) → q out ≡ p out)
    → Carries n p g a
    → Carries n q g a
Carries-same p q same c = record {
  wire = c.wire;
  fits = c.fits;
  writes =
      λ out room. let (out', ran, added, w) = c.writes out room in (out', same out ∙ ran, added, w);
  reads = c.reads;
  refuses_short = c.refuses_short;
}

-- A decoder that reads nothing.
pub record Silent {A : Type 0} (g : Get A) (a : A) : Type 0 where
  pub silent : (r : Reader) → g r ≡ done (a, r)

pub Silent-pure : {A : Type 0} (a : A) → Silent (pure a) a
unfolding pure
Silent-pure a = record { silent = λ r. refl }

module _ {A B : Type 0} where
  Reads-bind :
      (g : Get A) (k : A → Get B) (l m : List ℕ) (a : A) (b : B)
      → Reads g l a
      → Reads (k a) m b
      → Reads (g >>= k) (l ++ m) b
  unfolding ◌>>=◌
  Reads-bind g k l m a b first second r rest e =
      let (r', ran, left) = first r (m ++ rest) (e ∙ append_assoc l m rest) in
      let (r'', ran', left') = second r' rest left in
      (r'', ap (λ o. then_do o (λ (x, q). k x q)) ran ∙ ran', left')

  RefusesShort-bind :
      (g : Get A) (k : A → Get B) (l m : List ℕ) (a : A)
      → Reads g l a
      → RefusesShort g l
      → RefusesShort (k a) m
      → RefusesShort (g >>= k) (l ++ m)
  unfolding ◌>>=◌
  RefusesShort-bind g k l m a first short second r lost e h =
      elim (dec_lt (length (unread r)) (length l)) [
        | yes early ↦
            let (x, cut, same) = append_split l m (unread r) lost (sym e) (omega arith) in
            ap (λ o. then_do o (λ (x, q). k x q))
              (short r x (sym cut) (omega (arith, ap length cut, length-append (unread r) x)))
        | no late ↦
            let (x, cut, same) = append_split (unread r) lost l m e (omega arith) in
            let (r', ran, left) = first r x cut in
            ap (λ o. then_do o (λ (x, q). k x q)) ran
            ∙ second r' lost (ap (λ t. t ++ lost) left ∙ sym same) h
      ]

pub Writes-then : (p q : Put) (l m : List ℕ) → Writes p l → Writes q m → Writes (p >> q) (l ++ m)
unfolding ◌>>◌
Writes-then p q l m first second out (w, room) =
    let size = length-append l m in
    let (out', ran, added, w') = first out (w, omega (arith, size)) in
    let (out'', ran', added', w'') =
      second out' (w', omega (arith, size, ap length added, length-append out.contents l)) in
    (
      out'',
      ap (λ o. then_do o q) ran ∙ ran',
      added' ∙ ap (λ t. t ++ m) added ∙ append_assoc out.contents l m,
      w'',
    )

module _ {n : ℕ} {A B : Type 0} where
  -- A field, and what follows it.
  pub Carries-then :
      {m : ℕ} {p q : Put} {g : Get A} {a : A} {b : B} (k : A → Get B)
      → Carries m p g a
      → Carries n q (k a) b
      → Carries (m + n) (p >> q) (g >>= k) b
  Carries-then {p = p} {q = q} {g = g} k c d = record {
    wire = c.wire ++ d.wire;
    fits = omega (arith, length-append c.wire d.wire, c.fits, d.fits);
    writes = Writes-then p q c.wire d.wire c.writes d.writes;
    reads = Reads-bind g k c.wire d.wire _ _ c.reads d.reads;
    refuses_short = RefusesShort-bind g k c.wire d.wire _ c.reads c.refuses_short d.refuses_short;
  }

  -- The last field of a message.
  pub Carries-last :
      {p : Put} {g : Get A} {a : A} {b : B} (k : A → Get B)
      → Carries n p g a
      → Silent (k a) b
      → Carries n p (g >>= k) b
  unfolding ◌>>=◌
  Carries-last {g} k c s = record {
    wire = c.wire;
    fits = c.fits;
    writes = c.writes;
    reads = λ r rest e.
        let (r', ran, left) = c.reads r rest e in
        (r', ap (λ o. then_do o (λ (x, q). k x q)) ran ∙ s.silent r', left);
    refuses_short =
        λ r lost e h. ap (λ o. then_do o (λ (x, q). k x q)) (c.refuses_short r lost e h);
  }

-- For a decoder that reads to the end of the payload: the bytes that p writes, and no more, are read
-- back as a.
pub record CarriesAll (size : ℕ) {A : Type 0} (p : Put) (g : Get A) (a : A) : Type 0 where
  pub wire : List ℕ
  pub fits : length wire ≤ size
  pub writes : Writes p wire
  pub reads_all :
      (r : Reader) → unread r ≡ wire → (r' : Reader) × (g r ≡ done (a, r')) × (unread r' ≡ [])

module _ {n : ℕ} {A B : Type 0} where
  pub Carries-then_all :
      {m : ℕ} {p q : Put} {g : Get A} {a : A} {b : B} (k : A → Get B)
      → Carries m p g a
      → CarriesAll n q (k a) b
      → CarriesAll (m + n) (p >> q) (g >>= k) b
  unfolding ◌>>=◌
  Carries-then_all {p = p} {q = q} {g = g} k c d = record {
    wire = c.wire ++ d.wire;
    fits = omega (arith, length-append c.wire d.wire, c.fits, d.fits);
    writes = Writes-then p q c.wire d.wire c.writes d.writes;
    reads_all = λ r e.
        let (r', ran, left) = c.reads r d.wire e in
        let (r'', ran', left') = d.reads_all r' left in
        (r'', ap (λ o. then_do o (λ (x, q). k x q)) ran ∙ ran', left');
  }

  pub Carries-last_all :
      {p : Put} {g : Get A} {a : A} {b : B} (k : A → Get B)
      → CarriesAll n p g a
      → Silent (k a) b
      → CarriesAll n p (g >>= k) b
  unfolding ◌>>=◌
  Carries-last_all {g} k c s = record {
    wire = c.wire;
    fits = c.fits;
    writes = c.writes;
    reads_all = λ r e.
        let (r', ran, left) = c.reads_all r e in
        (r', ap (λ o. then_do o (λ (x, q). k x q)) ran ∙ s.silent r', left);
  }

module _ {m n : ℕ} {A : Type 0} {p : Put} {g : Get A} {a : A} where
  pub Carries-fits : Carries m p g a → m ≤ n → Carries n p g a
  Carries-fits c h = record {
    wire = c.wire;
    fits = omega (arith, c.fits);
    writes = c.writes;
    reads = c.reads;
    refuses_short = c.refuses_short;
  }

  pub CarriesAll-fits : CarriesAll m p g a → m ≤ n → CarriesAll n p g a
  CarriesAll-fits c h = record {
    wire = c.wire;
    fits = omega (arith, c.fits);
    writes = c.writes;
    reads_all = c.reads_all;
  }
