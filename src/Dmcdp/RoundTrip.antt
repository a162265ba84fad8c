-- ===== src/Dmcdp/RoundTrip.antt =====
-- On `pack_rec` followed by `iter_records` (rkcdp/dmcdp.py).
use native.Mathlib.Nat.{add-zero, zero-add, add_assoc}
use io_filter_driver_for_lin.Base.{
  ℕ, zero, suc, ◌+◌, ◌-◌, ◌^◌, ◌≤◌, ◌<◌, ◌≡◌, sym, ap, ◌∙◌, Option, none, some, List, [], ◌∷◌, ◌++◌,
  map, arith, length, take, drop, replicate, length-append, take-length_append, drop-length_append,
  length-replicate, All, ◌==◌, if◌then◌else◌, true, Bool-cases, append_assoc, le_bytes, le-le_bytes,
  inl, inr, Option-cases,
}
use io_filter_driver_for_lin.Dmcdp.{
  Rec, Item, rec_magic, abi_version, rec_size, rec_write, unpack_rec, rec_init, payload, Outcome,
  done, yields, iter_loop, iter_records, pack_rec, padded_len,
}
use io_filter_driver_for_lin.Dmcdp.Scan.{iter_loop-short, iter_loop-full}

-- The arguments of one call of `pack_rec`.
pub record Args : Type 0 where
  pub rtype : ℕ
  pub flags : ℕ
  pub seq : ℕ
  pub sector : ℕ
  pub len : ℕ
  pub ts_ns : ℕ
  pub payload : List ℕ

abbrev pub pack : Args → Option (List ℕ)
pack a = pack_rec a.rtype a.flags a.seq a.sector a.len a.ts_ns a.payload

-- The record that those arguments describe.
abbrev pub rec_of : Args → Rec
rec_of a = record {
  magic = rec_magic;
  version = abi_version;
  type = a.rtype;
  flags = a.flags;
  state = 2;
  seq = a.seq;
  sector = a.sector;
  len = a.len;
  rec_len = padded_len (length a.payload);
  ts_ns = a.ts_ns;
  reserved = 0;
}

record PackFits (a : Args) : Type 0 where
  rtype_fits : a.rtype < 2 ^ 16
  flags_fits : a.flags < 2 ^ 32
  seq_fits : a.seq < 2 ^ 64
  sector_fits : a.sector < 2 ^ 64
  len_fits : a.len < 2 ^ 32
  rec_len_fits : padded_len (length a.payload) < 2 ^ 32
  ts_ns_fits : a.ts_ns < 2 ^ 64

abbrev pub header : Args → List ℕ → List ℕ
header a behind =
    le_bytes 4 rec_magic
    ++ (le_bytes 2 abi_version
        ++ (le_bytes 2 a.rtype
            ++ (le_bytes 4 a.flags
                ++ (le_bytes 4 2
                    ++ (le_bytes 8 a.seq
                        ++ (le_bytes 8 a.sector
                            ++ (le_bytes 4 a.len
                                ++ (le_bytes 4 (padded_len (length a.payload))
                                    ++ (le_bytes 8 a.ts_ns ++ (le_bytes 8 0 ++ behind))))))))))

abbrev pub padding : Args → List ℕ
padding a = replicate (padded_len (length a.payload) - rec_size - length a.payload) 0

pack_view :
    (a : Args) (bytes : List ℕ)
    → pack a ≡ some bytes
    → PackFits a × (bytes ≡ header a (a.payload ++ padding a))
unfolding pack_rec
pack_view a bytes h = ground arith

unpack_rec-header :
    (a : Args) (behind : List ℕ) → PackFits a → unpack_rec (header a behind) ≡ rec_of a
unfolding unpack_rec
unpack_rec-header a behind f = λ i. record {
  magic = rec_magic;
  version = abi_version;
  type = le-le_bytes 2 a.rtype f.rtype_fits i;
  flags = le-le_bytes 4 a.flags f.flags_fits i;
  state = 2;
  seq = le-le_bytes 8 a.seq f.seq_fits i;
  sector = le-le_bytes 8 a.sector f.sector_fits i;
  len = le-le_bytes 4 a.len f.len_fits i;
  rec_len = le-le_bytes 4 (padded_len (length a.payload)) f.rec_len_fits i;
  ts_ns = le-le_bytes 8 a.ts_ns f.ts_ns_fits i;
  reserved = 0;
}

rec_init-header :
    (a : Args) (behind : List ℕ) → PackFits a → rec_init (header a behind) ≡ some (rec_of a)
unfolding rec_init
rec_init-header a behind f =
    ap (λ (r : Rec). if r.magic == rec_magic then some r else none) (unpack_rec-header a behind f)

-- The payload that `iter_records` yields for it: only a write carries one.
abbrev pub item_of : Args → Item
item_of a = (rec_of a, if a.rtype == rec_write then a.payload else [])

-- A write record's `len` is the length of its payload.
abbrev pub IsPacket : Args → Type 0
IsPacket a = (a.rtype == rec_write) ≡ true → a.len ≡ length a.payload

length-header : (a : Args) (behind : List ℕ) → length (header a behind) ≡ rec_size + length behind
length-header a behind = omega arith

length-packet :
    (a : Args) → length (header a (a.payload ++ padding a)) ≡ padded_len (length a.payload)
length-packet a = omega (
  arith,
  length-header a (a.payload ++ padding a),
  length-append a.payload (padding a),
  length-replicate (padded_len (length a.payload) - rec_size - length a.payload) zero,
)

take-exact {ℓ} : {A : Type ℓ} (xs ys : List A) (n : ℕ) → n ≡ length xs → take n (xs ++ ys) ≡ xs
take-exact xs ys n e = rw e (take-length_append xs ys)

payload-header :
    (a : Args) (behind : List ℕ)
    → IsPacket a
    → payload (rec_of a) (header a (a.payload ++ behind)) ≡ (item_of a).1
unfolding payload
payload-header a behind p = elim (Bool-cases (a.rtype == rec_write)) [
  | inl w ↦ rw w (take-exact a.payload behind a.len (p w))
  | inr n ↦ rw n
]

pub iter_loop-packet :
    (fuel off : ℕ) (a : Args) (bytes rest : List ℕ)
    → pack a ≡ some bytes
    → IsPacket a
    → iter_loop (suc fuel) off (bytes ++ rest)
      ≡ yields (item_of a) (iter_loop fuel (off + length bytes) rest)
iter_loop-packet fuel off a bytes rest h p =
    let (fits, q) = pack_view a bytes h in
    let packet = header a (a.payload ++ padding a) in
    let size : length packet ≡ padded_len (length a.payload) = length-packet a in
    let found : rec_init (packet ++ rest) ≡ some (rec_of a) =
      rec_init-header a ((a.payload ++ padding a) ++ rest) fits in
    let carried : payload (rec_of a) (packet ++ rest) ≡ (item_of a).1 =
      rw (append_assoc a.payload (padding a) rest) (payload-header a (padding a ++ rest) p) in
    let gone : drop (padded_len (length a.payload)) (packet ++ rest) ≡ rest =
      ap (λ n. drop n (packet ++ rest)) (sym size) ∙ drop-length_append packet rest in
    rw q (
      iter_loop-full fuel off (packet ++ rest) (rec_of a) (omega (arith, length-append packet rest))
        found (omega (arith, length-append packet rest))
      ∙ rw (carried, gone)
          (ap (λ n. yields (item_of a) (iter_loop fuel (off + n) rest)) (sym size)))

unfoldable pub pack_all : List Args → Option (List ℕ)
pack_all [] = some []
pack_all (a ∷ args) = elim (pack a) [
  | none ↦ none
  | some bytes ↦ elim (pack_all args) [ none ↦ none | some more ↦ some (bytes ++ more) ]
]

pack_all-cons :
    (a : Args) (args : List Args) (buf : List ℕ)
    → pack_all (a ∷ args) ≡ some buf
    → (bytes more : List ℕ) × (pack a ≡ some bytes)
      × (pack_all args ≡ some more)
      × (buf ≡ bytes ++ more)
unfolding pack_all
pack_all-cons a args buf h = elim (Option-cases (pack a)) [
  | inl x ↦ ground arith
  | inr (bytes, x) ↦ elim (Option-cases (pack_all args)) [
    | inl y ↦ ground arith
    | inr (more, y) ↦ (bytes, more, x, y, ground arith)
  ]
]

pair_end : (off : ℕ) → ◌≡◌ {A = List Item × Outcome} ([], done off) ([], done (off + 0))
pair_end off = rw add-zero

iter_loop-pack_all :
    (args : List Args) (buf tail : List ℕ) (fuel off : ℕ)
    → pack_all args ≡ some buf
    → All IsPacket args
    → length tail < rec_size
    → length args < fuel
    → iter_loop fuel off (buf ++ tail) ≡ (map item_of args, done (off + length buf))
iter_loop-pack_all args buf tail zero off h p t l = elim l [ ]
iter_loop-pack_all [] buf tail (suc fuel) off h p t l =
    let empty : buf ≡ [] = unfold pack_all in cc in
    rw empty (iter_loop-short fuel off tail t ∙ pair_end off)
iter_loop-pack_all (a ∷ args) buf tail (suc fuel) off h p t l =
    let (bytes, more, x, y, z) = pack_all-cons a args buf h in
    let ih = iter_loop-pack_all args more tail fuel (off + length bytes) y p.1 t (omega arith) in
    rw (z, append_assoc bytes more tail, length-append bytes more)
      (iter_loop-packet fuel off a bytes (more ++ tail) x p.0
        ∙ ap (yields (item_of a)) (ih ∙ rw (add_assoc off (length bytes) (length more))))

length-pack_all :
    (args : List Args) (buf : List ℕ) → pack_all args ≡ some buf → length args ≤ length buf
length-pack_all [] buf h = omega arith
length-pack_all (a ∷ args) buf h =
    let (bytes, more, x, y, z) = pack_all-cons a args buf h in
    let (fits, q) = pack_view a bytes x in
    rw (z, q)
      (omega (
        arith,
        length-append (header a (a.payload ++ padding a)) more,
        length-pack_all args more y,
        length-packet a,
      ))

-- Whatever sequence of records `pack_rec` wrote one behind the other, followed by less than one
-- header, `iter_records` yields those records in order with their payloads, ends without an error,
-- and has consumed exactly what was packed.
pub iter_records-pack_all :
    (args : List Args) (buf tail : List ℕ)
    → pack_all args ≡ some buf
    → All IsPacket args
    → length tail < rec_size
    → iter_records (buf ++ tail) ≡ (map item_of args, done (length buf))
unfolding iter_records
iter_records-pack_all args buf tail h p t =
    iter_loop-pack_all args buf tail (suc (length (buf ++ tail))) 0 h p t
      (omega (arith, length-pack_all args buf h, length-append buf tail))
    ∙ rw zero-add
