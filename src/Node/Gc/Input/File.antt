-- ===== src/Node/Gc/Input/File.antt =====
-- node/gc.go: a mark comes back from its file as it was written.
use dstore.Prelude.{
  ℕ, zero, suc, ◌+◌, ◌-◌, ◌%◌, ◌^◌, ◌≤◌, ◌<◌, ◌≡◌, refl, sym, ◌∙◌, ap, Bool, true, false, ◌||◌,
  Option, none, some, List, [], ◌∷◌, ◌++◌, ltb, if◌then◌else◌, length, length-append, take, drop,
  All, arith,
}
use mathlib.Core.List.{append_assoc}
use dstore.Bytes.{Bytes, be_bytes, be_value, length-be_bytes, be_value-be_bytes}
use dstore.Node.Gc.Sweep.{SweepInput}
use dstore.Node.Gc.Mark.{MarkState}
use dstore.Node.Gc.Input.{
  HeaderCodec, header_of, key_bytes, persist_mark, Segment, old_index, elig_of, read_keys,
  header_end, load_header, load_at, load_mark,
}

take-append : (n : ℕ) (xs ys : Bytes) → length xs ≡ n → take n (xs ++ ys) ≡ xs
take-append zero [] ys h = refl
take-append zero (x ∷ xs) ys h = absurd (omega (arith, h))
take-append (suc n) [] ys h = absurd (omega (arith, h))
take-append (suc n) (x ∷ xs) ys h =
    ap (λ (l : Bytes). x ∷ l) (take-append n xs ys (omega (arith, h)))

drop-append : (n : ℕ) (xs ys : Bytes) → length xs ≡ n → drop n (xs ++ ys) ≡ ys
drop-append zero [] ys h = refl
drop-append zero (x ∷ xs) ys h = absurd (omega (arith, h))
drop-append (suc n) [] ys h = absurd (omega (arith, h))
drop-append (suc n) (x ∷ xs) ys h = drop-append n xs ys (omega (arith, h))

-- A [32]byte key, as a number.
abbrev pub IsKey : ℕ → Type 0
IsKey k = k < 256 ^ 32

length-key_bytes : (ks : List ℕ) → length ks ≤ length (key_bytes ks)
unfolding key_bytes
length-key_bytes [] = omega arith
length-key_bytes (k ∷ ks) =
    omega (
      arith,
      length-append (be_bytes 32 k) (key_bytes ks),
      length-be_bytes 32 k,
      length-key_bytes ks,
    )

keys_if :
    (b : Bool) (x : ℕ) (xs ks : List ℕ) (k : ℕ)
    → b ≡ false
    → x ≡ k
    → xs ≡ ks
    → (if b then [] else x ∷ xs) ≡ k ∷ ks
keys_if true x xs ks k h e f = cc
keys_if false x xs ks k h e f = cc

read_keys-key_bytes :
    (n : ℕ) (ks : List ℕ) → length ks ≤ n → All IsKey ks → read_keys n (key_bytes ks) ≡ ks
unfolding read_keys key_bytes
read_keys-key_bytes zero [] h a = refl
read_keys-key_bytes zero (k ∷ ks) h a = absurd (omega (arith, h))
read_keys-key_bytes (suc n) [] h a = refl
read_keys-key_bytes (suc n) (k ∷ ks) h a =
    let b = be_bytes 32 k ++ key_bytes ks in
    let long : length b ≡ 32 + length (key_bytes ks) =
      length-append (be_bytes 32 k) (key_bytes ks)
      ∙ ap (λ x. x + length (key_bytes ks)) (length-be_bytes 32 k) in
    keys_if (ltb (length b) 32) (be_value 0 (take 32 b)) (read_keys n (drop 32 b)) ks k
      (ground (arith, long))
      (ap (be_value 0) (take-append 32 (be_bytes 32 k) (key_bytes ks) (length-be_bytes 32 k))
        ∙ be_value-be_bytes 32 k (a.0))
      (ap (read_keys n) (drop-append 32 (be_bytes 32 k) (key_bytes ks) (length-be_bytes 32 k))
        ∙ read_keys-key_bytes n ks (omega (arith, h)) (a.1))

module _ (history : ℕ → Option ℕ) (C : HeaderCodec) (segs : List Segment) where
  -- What a sweep has of a mark that is read back.
  abbrev pub loaded : MarkState → SweepInput
  loaded ms = record {
    epoch = ms.epoch;
    count = ms.count;
    elig_below = elig_of (history ((ms.count + (2 ^ 64 - 1)) % 2 ^ 64));
    placement = ms.placement;
    eligible = old_index ms.elig_below segs [];
    marked = ms.marked;
    overflow = false;
  }

  option_if : (b : Bool) (x y : Option SweepInput) → b ≡ false → x ≡ y → (if b then none else x) ≡ y
  option_if true x y h e = cc
  option_if false x y h e = e

  load_at-parts :
      (ms : MarkState) (b rest : Bytes) (end : ℕ)
      → 4 ≤ end
      → end ≤ length b
      → drop end b ≡ rest
      → C.decode (take (end - 4) (drop 4 b)) ≡ some (header_of ms)
      → read_keys (length rest) rest ≡ ms.marked
      → load_at history C segs b end ≡ some (loaded ms)
  unfolding load_at load_header
  load_at-parts ms b rest end low high d h k =
      option_if (ltb end 4 || ltb (length b) end) _ _ (ground arith) (
        ap (load_header history segs (drop end b)) h
        ∙ ap (λ x. some (record (loaded ms) { marked = read_keys (length x) x })) d
        ∙ ap (λ x. some (record (loaded ms) { marked = x })) k)

  module _ (ms : MarkState) where
    abbrev header : Bytes
    header = C.encode (header_of ms)

    -- A mark is read back from its file as it was written: its epoch, counter, placement and keys, where its
    -- header decodes to what was encoded and is of less than 2 ^ 32 - 4 bytes.
    pub load_mark-persist_mark :
        C.decode (C.encode (header_of ms)) ≡ some (header_of ms)
        → length (C.encode (header_of ms)) + 4 < 2 ^ 32
        → All IsKey ms.marked
        → load_mark history C segs (persist_mark C ms) ≡ some (loaded ms)
    unfolding load_mark persist_mark header_end
    load_mark-persist_mark law small keys =
        let size = be_bytes 4 (length header) in
        let ks = key_bytes ms.marked in
        let b = size ++ (header ++ ks) in
        let long : length b ≡ 4 + (length header + length ks) =
          length-append size (header ++ ks)
          ∙ ap (λ x. x + length (header ++ ks)) (length-be_bytes 4 (length header))
          ∙ ap (λ x. 4 + x) (length-append header ks) in
        let value : be_value 0 (take 4 b) ≡ length header =
          ap (be_value 0) (take-append 4 size (header ++ ks) (length-be_bytes 4 (length header)))
          ∙ be_value-be_bytes 4 (length header) (omega arith) in
        let end : (4 + be_value 0 (take 4 b)) % 2 ^ 32 ≡ 4 + length header =
          ap (λ x. (4 + x) % 2 ^ 32) value ∙ omega arith in
        let after : drop 4 b ≡ header ++ ks =
          drop-append 4 size (header ++ ks) (length-be_bytes 4 (length header)) in
        let both : length (size ++ header) ≡ 4 + length header =
          length-append size header
          ∙ ap (λ x. x + length header) (length-be_bytes 4 (length header)) in
        let left : drop (4 + length header) b ≡ ks =
          ap (drop (4 + length header)) (sym (append_assoc size header ks))
          ∙ drop-append (4 + length header) (size ++ header) ks both in
        let middle : take (4 + length header - 4) (drop 4 b) ≡ header =
          ap (take (4 + length header - 4)) after
          ∙ take-append (4 + length header - 4) header ks (omega arith) in
        option_if (ltb (length b) 4) _ _ (ground (arith, long)) (
          ap (load_at history C segs b) end
          ∙ load_at-parts ms b ks (4 + length header) (omega arith) (omega (arith, long)) left
              (ap C.decode middle ∙ law)
              (read_keys-key_bytes (length ks) ms.marked (length-key_bytes ms.marked) keys))
