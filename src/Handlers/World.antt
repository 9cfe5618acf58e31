-- ===== src/Handlers/World.antt =====
-- What the handlers of core/handlers.c share: the configuration (dtgconf), JSON (jansson), and the
-- state that a handler changes. Both libraries are arguments.
use tapi2p.Base.{
  ℕ, ◌-◌, ◌%◌, ◌^◌, ℤ, pos, negsuc, Option, none, some, List, Bool, ltb, if◌then◌else◌, bytes_eq,
  bytes_eq_refl, true, ◌≡◌, refl, ap, ◌∙◌, false,
}

-- dtgconf. config_add sets the item `key` of a section; find_item is config_find_item(conf, key,
-- section): the item, whose value may be NULL; find_section gives the items of a section, in order.
pub record Configs : Type 1 where
  pub Config : Type 0
  pub add : Config → List ℕ → List ℕ → Option (List ℕ) → Config
  pub find_item : Config → List ℕ → List ℕ → Option (Option (List ℕ))
  pub find_section : Config → List ℕ → Option (List (List ℕ × Option (List ℕ)))

-- jansson's readers.
pub record Jansson : Type 1 where
  pub Json : Type 0
  pub loads : List ℕ → Option Json
  pub is_object : Json → Bool
  pub is_array : Json → Bool
  pub is_string : Json → Bool
  pub is_integer : Json → Bool
  pub is_null : Json → Bool
  pub object_get : Json → List ℕ → Option Json
  pub elements : Json → List Json
  pub string_value : Json → List ℕ
  pub integer_value : Json → ℤ

-- jansson's writers on the values of a reader. json_string is NULL for text that is not UTF-8, and
-- json_dumps where it fails; an allocation does not fail. `is_constant` is of true, false and null, whose
-- counts json_decref leaves alone.
pub record Writer (J : Type 0) : Type 0 where
  pub object : J
  pub array : J
  pub integer : ℤ → J
  pub boolean : Bool → J
  pub string : List ℕ → Option J
  pub object_set : J → List ℕ → J → J
  pub array_append : J → J → J
  pub dumps : J → Option (List ℕ)
  pub is_constant : J → Bool

-- json_object_set_new, which leaves the object as it is for a NULL value.
abbrev pub set_new : {J : Type 0} → Writer J → J → List ℕ → Option J → J
set_new w o key none = o
set_new w o key (some v) = w.object_set o key v

-- What jansson's reader and writer promise each other: what is printed is read again; an empty object
-- has no key; a key that is set has its value, and the other keys stay; a text and an integer keep
-- their value.
pub record Agrees (j : Jansson) (w : Writer j.Json) : Type 0 where
  pub loads-dumps : (v : j.Json) (t : List ℕ) → w.dumps v ≡ some t → j.loads t ≡ some v
  pub object_lem : j.is_object w.object ≡ true
  pub object_set_lem :
      (o v : j.Json) (key : List ℕ) → j.is_object (w.object_set o key v) ≡ j.is_object o
  pub get-object : (key : List ℕ) → j.object_get w.object key ≡ none
  pub get-set :
      (o v : j.Json) (key key' : List ℕ)
      → j.object_get (w.object_set o key v) key'
        ≡ (if bytes_eq key key' then some v else j.object_get o key')
  pub string_lem :
      (t : List ℕ) (v : j.Json)
      → w.string t ≡ some v
      → (j.is_string v ≡ true) × (j.string_value v ≡ t)
  pub integer_lem :
      (n : ℤ) → (j.is_integer (w.integer n) ≡ true) × (j.integer_value (w.integer n) ≡ n)

module _ (j : Jansson) (w : Writer j.Json) (agrees : Agrees j w) where
  pub get-set_new_other :
      (o : j.Json) (v : Option j.Json) (key key' : List ℕ)
      → bytes_eq key key' ≡ false
      → j.object_get (set_new w o key v) key' ≡ j.object_get o key'
  get-set_new_other o none key key' h = refl
  get-set_new_other o (some v) key key' h =
      agrees.get-set o v key key' ∙ ap (λ (b : Bool). if b then some v else j.object_get o key') h

  pub get-set_new_self :
      (o v : j.Json) (key : List ℕ) → j.object_get (set_new w o key (some v)) key ≡ some v
  get-set_new_self o v key =
      agrees.get-set o v key key
      ∙ ap (λ (b : Bool). if b then some v else j.object_get o key) (bytes_eq_refl key)

-- An integer of any width as an `int`: its low 32 bits in two's complement.
abbrev pub of_bits32 : ℕ → ℤ
of_bits32 m = if ltb m (2 ^ 31) then pos m else negsuc (2 ^ 32 - 1 - m)

abbrev pub to_int32 : ℤ → ℤ
to_int32 (pos n) = of_bits32 (n % 2 ^ 32)
to_int32 (negsuc n) = of_bits32 (2 ^ 32 - 1 - n % 2 ^ 32)
