-- ===== src/Records/Phrases.antt =====
-- store/record/erecord/filter.go: the values of a content filter inside the match expression.
use card_client.Prelude.{
  String, Bool, true, false, Option, none, some, if◌then◌else◌, ◌==◌, ◌≡◌, refl, ap, Bool-cases,
  inl, inr, ◌∙◌,
}
use card_client.Records.Filters.{double_quotes, escaped_value}
use Prim.Native.Char.{Char, code}
use Prim.Native.String.{◌++◌ as append}
use Prim.Native.String.append

-- FTS5's strings: from a quote to the next one, where two quotes stand for one. `true` says that a
-- quote has just been read.
abbrev push : Char → Option (String × String) → Option (String × String)
push c none = none
push c (some (v, rest)) = some (String.◌∷◌ c v, rest)

abbrev pub scan : Bool → String → Option (String × String)
scan false String.[] = none
scan true String.[] = some (String.[], String.[])
scan false (String.◌∷◌ c s) = if code c == 34 then scan true s else push c (scan false s)
scan true (String.◌∷◌ c s) =
    if code c == 34 then push c (scan false s) else some (String.[], String.◌∷◌ c s)

-- A string, and what follows it.
abbrev pub read_string : String → Option (String × String)
read_string String.[] = none
read_string (String.◌∷◌ c s) = if code c == 34 then scan false s else none

abbrev pub NoQuote : String → Type 0
NoQuote String.[] = Unit {0}
NoQuote (String.◌∷◌ c s) = (code c == 34) ≡ false

scan-end : (rest : String) → NoQuote rest → scan true rest ≡ some (String.[], rest)
scan-end String.[] h = refl
scan-end (String.◌∷◌ c s) h = rw h refl

append_twice :
    (c : Char) (s t u : String)
    → append (append (String.◌∷◌ c s) t) u ≡ String.◌∷◌ c (append (append s t) u)
append_twice c s t u = rw (append.cons, append.cons) refl

scan_quotes :
    (c : Char) (s : String)
    → (code c == 34) ≡ true
    → scan false (String.◌∷◌ c (String.◌∷◌ c s)) ≡ push c (scan false s)
scan_quotes c s quote = rw quote refl

scan-doubled :
    (v rest : String)
    → NoQuote rest
    → scan false (append (append (double_quotes v) "\"") rest) ≡ some (v, rest)
unfolding double_quotes
scan-doubled String.[] rest h = rw (append.nil, append.cons) (rw append.nil (scan-end rest h))
scan-doubled (String.◌∷◌ c v) rest h =
    let ih = scan-doubled v rest h in
    elim (Bool-cases (code c == 34)) [
      | inl quote ↦
          let d = double_quotes v in
          rw quote (
            ap (scan false) (
              append_twice c (String.◌∷◌ c d) "\"" rest
              ∙ ap (String.◌∷◌ c) (append_twice c d "\"" rest))
            ∙ scan_quotes c (append (append d "\"") rest) quote
            ∙ ap (push c) ih)
      | inr plain ↦ simp (plain, append.cons) (ap (push c) ih)
    ]

-- A value of a content filter, escaped and quoted, is read back by FTS5 as one string, the value,
-- whatever quotes it has, as long as what follows the string does not begin with a quote: it never
-- ends the string early.
pub read_string-escaped_value :
    (v rest : String) → NoQuote rest → read_string (append (escaped_value v) rest) ≡ some (v, rest)
unfolding escaped_value
read_string-escaped_value v rest h =
    rw (append.cons, append.cons) (rw (append.nil) (scan-doubled v rest h))
