-- ===== src/Tests/Json.antt =====
-- A reader and a writer of JSON values in a notation of tags and lengths: jansson's promises can be
-- kept.
use mathlib.Core.List.{append_assoc, append-nil}
use tapi2p.Base.{
  ℕ, zero, suc, ◌+◌, ◌≤◌, ◌≡◌, refl, ap, ◌∙◌, ℤ, pos, negsuc, Option, none, some, List, [], ◌∷◌,
  ◌++◌, Bool, true, false, ◌==◌, if◌then◌else◌, take, drop, length, length-append, bytes_eq,
  take-append, drop-append, arith, subst, sym,
}
use tapi2p.Handlers.World.{Jansson, Writer, Agrees}

-- A value; an object is the keys that were set in it, the last one outermost.
pub data Value : Type 0 where
  num : ℤ → Value
  txt : List ℕ → Value
  empty : Value
  put : Value → List ℕ → Value → Value

abbrev pub field : Value → List ℕ → Option Value
field (num n) key = none
field (txt t) key = none
field empty key = none
field (put o k v) key = if bytes_eq k key then some v else field o key

abbrev pub is_object : Value → Bool
is_object (num n) = false
is_object (txt t) = false
is_object empty = true
is_object (put o k v) = is_object o

abbrev pub is_num : Value → Bool
is_num (num n) = true
is_num _ = false

abbrev pub is_txt : Value → Bool
is_txt (txt t) = true
is_txt _ = false

abbrev pub num_of : Value → ℤ
num_of (num n) = n
num_of _ = pos 0

abbrev pub txt_of : Value → List ℕ
txt_of (txt t) = t
txt_of _ = []

abbrev pub print : Value → List ℕ
print (num (pos n)) = 0 ∷ n ∷ []
print (num (negsuc n)) = 1 ∷ n ∷ []
print (txt t) = 2 ∷ length t ∷ t
print empty = 3 ∷ []
print (put o k v) = 4 ∷ (print o ++ (length k ∷ (k ++ print v)))

abbrev Parsed : Type 0
Parsed = Option (Value × List ℕ)

abbrev parse_num : (ℕ → ℤ) → List ℕ → Parsed
parse_num sign [] = none
parse_num sign (n ∷ xs) = some (num (sign n), xs)

abbrev parse_txt : List ℕ → Parsed
parse_txt [] = none
parse_txt (n ∷ xs) = some (txt (take n xs), drop n xs)

abbrev with_value : Value → List ℕ → Parsed → Parsed
with_value o k none = none
with_value o k (some (v, rest)) = some (put o k v, rest)

abbrev with_object : (List ℕ → Parsed) → Parsed → Parsed
with_object parse none = none
with_object parse (some (o, [])) = none
with_object parse (some (o, n ∷ xs)) = with_value o (take n xs) (parse (drop n xs))

abbrev tagged : (List ℕ → Parsed) → ℕ → List ℕ → Parsed
tagged parse tag xs =
    if tag == 0
    then parse_num pos xs
    else if tag == 1
    then parse_num negsuc xs
    else if tag == 2
    then parse_txt xs
    else if tag == 3
    then some (empty, xs)
    else with_object parse (parse xs)

parse : ℕ → List ℕ → Parsed
parse zero xs = none
parse (suc fuel) [] = none
parse (suc fuel) (tag ∷ xs) = tagged (parse fuel) tag xs

abbrev whole : Parsed → Option Value
whole (some (v, [])) = some v
whole _ = none

pub loads : List ℕ → Option Value
unfolding parse
loads bytes = whole (parse (length bytes) bytes)

abbrev size : Value → ℕ
size (put o k v) = suc (size o + size v)
size _ = 1

parse-print :
    (fuel : ℕ) (v : Value) (rest : List ℕ)
    → size v ≤ fuel
    → parse fuel (print v ++ rest) ≡ some (v, rest)
unfolding parse
parse-print zero (num n) rest h = absurd (omega arith)
parse-print zero (txt t) rest h = absurd (omega arith)
parse-print zero empty rest h = absurd (omega arith)
parse-print zero (put o k v) rest h = absurd (omega arith)
parse-print (suc fuel) (num (pos n)) rest h = refl
parse-print (suc fuel) (num (negsuc n)) rest h = refl
parse-print (suc fuel) (txt t) rest h = rw (take-append t rest, drop-append t rest)
parse-print (suc fuel) empty rest h = refl
parse-print (suc fuel) (put o k v) rest h =
    ap (λ (bs : List ℕ). with_object (parse fuel) (parse fuel bs))
      (append_assoc (print o) (length k ∷ (k ++ print v)) rest)
    ∙ ap (with_object (parse fuel))
        (parse-print fuel o ((length k ∷ (k ++ print v)) ++ rest) (omega arith))
    ∙ ap (λ (bs : List ℕ). with_value o (take (length k) bs) (parse fuel (drop (length k) bs)))
        (append_assoc k (print v) rest)
    ∙ rw (take-append k (print v ++ rest), drop-append k (print v ++ rest))
        (ap (with_value o k) (parse-print fuel v rest (omega arith)))

size-print : (v : Value) → size v ≤ length (print v)
size-print (num (pos n)) = omega arith
size-print (num (negsuc n)) = omega arith
size-print (txt t) = omega arith
size-print empty = omega arith
size-print (put o k v) = omega (
  arith,
  size-print o,
  size-print v,
  length-append (print o) (length k ∷ (k ++ print v)),
  length-append k (print v),
)

loads-print : (v : Value) → loads (print v) ≡ some v
unfolding loads
loads-print v =
    ap (λ (bs : List ℕ). whole (parse (length (print v)) bs)) (sym (append-nil (print v)))
    ∙ ap whole (parse-print (length (print v)) v [] (size-print v))

abbrev pub tags : Jansson
tags = record {
  Json = Value;
  loads = loads;
  is_object = is_object;
  is_array = λ v. false;
  is_string = is_txt;
  is_integer = is_num;
  is_null = λ v. false;
  object_get = field;
  elements = λ v. [];
  string_value = txt_of;
  integer_value = num_of;
}

abbrev pub tag_writer : Writer Value
tag_writer = record {
  object = empty;
  array = empty;
  integer = num;
  boolean = λ b. num (pos 1);
  string = λ t. some (txt t);
  object_set = put;
  array_append = λ v x. v;
  dumps = λ v. some (print v);
  is_constant = λ v. false;
}

pub tags-Agrees : Agrees tags tag_writer
tags-Agrees = record {
  loads-dumps = λ v t e. subst (λ (bs : List ℕ). loads bs ≡ some v) (cc) (loads-print v);
  object_lem = refl;
  object_set_lem = λ o v key. refl;
  get-object = λ key. refl;
  get-set = λ o v key key'. refl;
  string_lem = λ t v e. ground arith;
  integer_lem = λ n. (refl, refl);
}
