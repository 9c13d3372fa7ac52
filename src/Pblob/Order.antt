-- ===== src/Pblob/Order.antt =====
-- store/blob/pblob/key.go: how keys compare as bytes, and what is read back from them.
use card_client.Prelude.{
  ℕ, ◌^◌, ◌<◌, List, [], ◌∷◌, ◌++◌, Bool, true, false, Option, none, some, if◌then◌else◌, ltb, ◌≡◌,
  refl, arith, ap, sym, ◌∙◌,
}
use card_client.Prelude.Int.{ℤ, pos, negsuc, ltb_ℤ}
use card_client.Pblob.Bytes.{
  big_endian, lex, lex-append, lex-big_endian, from_big_endian, from_big_endian-big_endian,
  length-big_endian,
}
use card_client.Pblob.Key.{
  key_of, with_rid, with_type, with_version, bytes, get_rid, get_type, get_version, flip_sign,
  to_uint64, from_uint64, type_key, version_key,
}

-- What a key stands for; a bound of a range may have no version.
pub record Item : Type 0 where
  pub rid : ℕ
  pub kind : ℕ
  pub version : Option ℤ

abbrev pub encode_parts : ℕ → ℕ → Option ℤ → List ℕ
encode_parts rid t none = type_key rid t
encode_parts rid t (some v) = version_key rid t v

abbrev pub encode : Item → List ℕ
encode k = encode_parts k.rid k.kind k.version

-- An int64.
abbrev pub FitsVersion : ℤ → Type 0
FitsVersion (pos n) = n < 2 ^ 63
FitsVersion (negsuc n) = n < 2 ^ 63

abbrev pub FitsOption : Option ℤ → Type 0
FitsOption none = Unit
FitsOption (some v) = FitsVersion v

-- A uint64, a byte and an int64.
abbrev pub Fits : Item → Type 0
Fits k = (k.rid < 2 ^ 64) × (k.kind < 256) × FitsOption k.version

abbrev pub lt_version : Option ℤ → Option ℤ → Bool
lt_version none none = false
lt_version none (some v) = true
lt_version (some u) none = false
lt_version (some u) (some v) = ltb_ℤ u v

-- By RID, then by type, then by version, where a key without one comes first.
abbrev pub lt_item : Item → Item → Bool
lt_item a b =
    if ltb a.rid b.rid
    then true
    else if ltb b.rid a.rid
    then false
    else if ltb a.kind b.kind
    then true
    else if ltb b.kind a.kind
    then false
    else lt_version a.version b.version

abbrev tail_of : Option ℤ → List ℕ
tail_of none = []
tail_of (some v) = big_endian 8 (flip_sign (to_uint64 v))

encode_bytes :
    (rid t : ℕ) (v : Option ℤ) → encode_parts rid t v ≡ big_endian 8 rid ++ (t ∷ tail_of v)
unfolding with_rid with_type with_version bytes big_endian
encode_bytes rid t none = refl
encode_bytes rid t (some v) = refl

flip_fits : (v : ℤ) → FitsVersion v → flip_sign (to_uint64 v) < 2 ^ 64
flip_fits (pos n) h = ground arith
flip_fits (negsuc n) h = ground arith

flip_order :
    (u v : ℤ)
    → FitsVersion u
    → FitsVersion v
    → ltb (flip_sign (to_uint64 u)) (flip_sign (to_uint64 v)) ≡ ltb_ℤ u v
flip_order (pos m) (pos n) hu hv = ground arith
flip_order (pos m) (negsuc n) hu hv = ground arith
flip_order (negsuc m) (pos n) hu hv = ground arith
flip_order (negsuc m) (negsuc n) hu hv = ground arith

tail_order :
    (u v : Option ℤ) → FitsOption u → FitsOption v → lex (tail_of u) (tail_of v) ≡ lt_version u v
unfolding lex big_endian
tail_order none none hu hv = refl
tail_order none (some v) hu hv = refl
tail_order (some u) none hu hv = refl
tail_order (some u) (some v) hu hv =
    lex-big_endian 8 (flip_sign (to_uint64 u)) (flip_sign (to_uint64 v)) (flip_fits u hu)
      (flip_fits v hv)
    ∙ flip_order u v hu hv

-- Keys of a uint64 RID, a byte and possibly an int64 version compare, byte by byte, as their RIDs as
-- unsigned numbers, then their types, then their versions as signed numbers, where a key without a
-- version comes first.
pub encode-order : (a b : Item) → Fits a → Fits b → lex (encode a) (encode b) ≡ lt_item a b
unfolding lex
encode-order a b (ha, ka, va) (hb, kb, vb) =
    rw (encode_bytes a.rid a.kind a.version, encode_bytes b.rid b.kind b.version)
      (lex-append (big_endian 8 a.rid) (big_endian 8 b.rid) (a.kind ∷ tail_of a.version)
          (b.kind ∷ tail_of b.version) (length-big_endian 8 a.rid ∙ sym (length-big_endian 8 b.rid))
        ∙ rw
            (
              lex-big_endian 8 a.rid b.rid ha hb,
              lex-big_endian 8 b.rid a.rid hb ha,
              tail_order a.version b.version va vb,
            )
            refl)

get_back : (v : ℤ) → FitsVersion v → from_uint64 (flip_sign (flip_sign (to_uint64 v))) ≡ v
get_back (pos n) h = ground arith
get_back (negsuc n) h = ground arith

-- The RID, the type and the version that a key was made of, a uint64 and an int64 around any type,
-- are read back from its bytes.
pub get-encode :
    (rid t : ℕ) (v : ℤ)
    → rid < 2 ^ 64
    → FitsVersion v
    → (get_rid (key_of (version_key rid t v)) ≡ some rid)
      × (get_type (key_of (version_key rid t v)) ≡ some t)
      × (get_version (key_of (version_key rid t v)) ≡ some v)
unfolding with_rid with_type with_version bytes big_endian get_rid get_type get_version
    from_big_endian
get-encode rid t v hr hv = (
  ap some (from_big_endian-big_endian 8 rid hr),
  refl,
  rw (from_big_endian-big_endian 8 (flip_sign (to_uint64 v)) (flip_fits v hv), get_back v hv) refl,
)
