-- ===== src/Pblob/Bytes.antt =====
-- Bytes as numbers below 256: `binary.BigEndian`, `bytes.Compare` and writes into a slice, as
-- store/blob/pblob/key.go uses them.
use card_client.Prelude.{
  ℕ, zero, suc, ◌+◌, ◌*◌, ◌/◌, ◌%◌, ◌^◌, ◌<◌, List, [], ◌∷◌, ◌++◌, Bool, true, false, if◌then◌else◌,
  ltb, length, ◌≡◌, refl, arith, ap, sym, ◌∙◌,
}
use native.Mathlib.Nat.{pow-suc}

-- The last `w` bytes of a number, the highest first.
unfoldable pub big_endian : ℕ → ℕ → List ℕ
big_endian zero n = []
big_endian (suc w) n = big_endian w (n / 256) ++ (n % 256 ∷ [])

unfoldable pub from_big_endian : ℕ → List ℕ → ℕ
from_big_endian acc [] = acc
from_big_endian acc (b ∷ bs) = from_big_endian (acc * 256 + b) bs

-- bytes.Compare(xs, ys) < 0
unfoldable pub lex : List ℕ → List ℕ → Bool
lex [] [] = false
lex [] (y ∷ ys) = true
lex (x ∷ xs) [] = false
lex (x ∷ xs) (y ∷ ys) = if ltb x y then true else if ltb y x then false else lex xs ys

pub length-big_endian : (w n : ℕ) → length (big_endian w n) ≡ w
unfolding big_endian
length-big_endian zero n = refl
length-big_endian (suc w) n =
    length-snoc (big_endian w (n / 256)) (n % 256) ∙ ap suc (length-big_endian w (n / 256))
  where
    length-snoc : (xs : List ℕ) (x : ℕ) → length (xs ++ (x ∷ [])) ≡ suc (length xs)
    length-snoc [] x = refl
    length-snoc (y ∷ xs) x = ap suc (length-snoc xs x)

-- Two parts of one length decide before what follows them.
pub lex-append :
    (xs ys rest others : List ℕ)
    → length xs ≡ length ys
    → lex (xs ++ rest) (ys ++ others)
      ≡ (if lex xs ys then true else if lex ys xs then false else lex rest others)
unfolding lex
lex-append [] [] rest others same = refl
lex-append [] (y ∷ ys) rest others same = absurd (omega arith)
lex-append (x ∷ xs) [] rest others same = absurd (omega arith)
lex-append (x ∷ xs) (y ∷ ys) rest others same =
    let h = lex-append xs ys rest others (omega arith) in ground arith

-- Numbers that fit compare as their bytes do.
pub lex-big_endian :
    (w m n : ℕ) → m < 256 ^ w → n < 256 ^ w → lex (big_endian w m) (big_endian w n) ≡ ltb m n
unfolding lex big_endian
lex-big_endian zero m n hm hn = ground arith
lex-big_endian (suc w) m n hm hn =
    let p = pow-suc 256 w in
    let a = lex-big_endian w (m / 256) (n / 256) (omega arith) (omega arith) in
    let b = lex-big_endian w (n / 256) (m / 256) (omega arith) (omega arith) in
    lex-append (big_endian w (m / 256)) (big_endian w (n / 256)) (m % 256 ∷ []) (n % 256 ∷ [])
      (length-big_endian w (m / 256) ∙ sym (length-big_endian w (n / 256)))
    ∙ rw (a, b) (ground arith)

from_big_endian-append :
    (acc : ℕ) (xs : List ℕ) (x : ℕ)
    → from_big_endian acc (xs ++ (x ∷ [])) ≡ from_big_endian acc xs * 256 + x
unfolding from_big_endian
from_big_endian-append acc [] x = refl
from_big_endian-append acc (y ∷ xs) x = from_big_endian-append (acc * 256 + y) xs x

pub from_big_endian-big_endian : (w n : ℕ) → n < 256 ^ w → from_big_endian 0 (big_endian w n) ≡ n
unfolding from_big_endian big_endian
from_big_endian-big_endian zero n h = omega arith
from_big_endian-big_endian (suc w) n h =
    let p = pow-suc 256 w in
    let ih = from_big_endian-big_endian w (n / 256) (omega arith) in
    from_big_endian-append 0 (big_endian w (n / 256)) (n % 256) ∙ omega arith
