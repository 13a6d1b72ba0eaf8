-- ===== src/IniFile/Access.antt =====
-- crs/oio/FileVar.h and crs/oio/FileVar.cpp: the variables of a hub by their names, and `readvar` and
-- `writevar` of crs/oio/iniFile.cpp. A handle is the place of its variable in `objects`, and `none` is
-- the null handle.
use crs.Base.{
  ℕ, Bool, true, false, ◌&&◌, List, [], ◌∷◌, ◌++◌, Option, none, some, ltb, ◌==◌, if◌then◌else◌,
  ◌>>=◌, length, drop, get_elem?, set,
}
use crs.Parsing.{skip_spaces}
use crs.IniFile.{Var, before}

-- `hubcore` is the multimap in its order, `olist` the list in the order of `append`.
pub record NamedHub : Type 0 where
  pub hubcore : List (List ℕ × ℕ)
  pub olist : List ℕ
  pub objects : List Var
  pub modified : Bool

unfoldable pub new_hub : NamedHub
new_hub = record { hubcore = []; olist = []; objects = []; modified = false }

-- `==` and `<` of strings
unfoldable pub same_name : List ℕ → List ℕ → Bool
same_name [] [] = true
same_name [] (y ∷ b) = false
same_name (x ∷ a) [] = false
same_name (x ∷ a) (y ∷ b) = x == y && same_name a b

unfoldable pub less_name : List ℕ → List ℕ → Bool
less_name a [] = false
less_name [] (y ∷ b) = true
less_name (x ∷ a) (y ∷ b) = let rest = less_name a b in if x == y then rest else ltb x y

-- `find` of the multimap
unfoldable pub find_name : List ℕ → List (List ℕ × ℕ) → Option ℕ
find_name n [] = none
find_name n ((k, p) ∷ m) = let rest = find_name n m in if same_name k n then some p else rest

-- `insert`: behind the entries that are not greater
unfoldable pub insert_name : List ℕ → ℕ → List (List ℕ × ℕ) → List (List ℕ × ℕ)
insert_name n v [] = (n, v) ∷ []
insert_name n v ((k, p) ∷ m) =
    if less_name n k then (n, v) ∷ (k, p) ∷ m else (k, p) ∷ insert_name n v m

-- `erase` of the entry that `find` gives
unfoldable pub erase_name : List ℕ → List (List ℕ × ℕ) → List (List ℕ × ℕ)
erase_name n [] = []
erase_name n ((k, p) ∷ m) = if same_name k n then m else (k, p) ∷ erase_name n m

-- `find` of the list, and its `erase`
unfoldable pub erase_first : ℕ → List ℕ → List ℕ
erase_first p [] = []
erase_first p (q ∷ l) = if q == p then l else q ∷ erase_first p l

unfoldable pub append : ℕ → NamedHub → Option NamedHub
append v h = get_elem? h.objects v >>= λ x. some (record h {
  hubcore = insert_name x.name v h.hubcore;
  olist = h.olist ++ v ∷ [];
  modified = true;
})

unfoldable pub get : List ℕ → NamedHub → Option ℕ
get n h = find_name n h.hubcore

-- `get (name, Var ())`: the variable is made where there is none
unfoldable pub get_var : List ℕ → NamedHub → Option (ℕ × NamedHub)
get_var n h = elim (get n h) [
  | some p ↦ some (p, h)
  | none ↦
      let v : Var = record { name = n; contents = []; description = [] } in
      append (length h.objects) (record h { objects = h.objects ++ v ∷ [] }) >>= λ h'.
      some (length h.objects, h')
]

unfoldable pub erase_var : List ℕ → NamedHub → NamedHub
erase_var n h = elim (get n h) [
  | none ↦ h
  | some p ↦ record h {
    hubcore = erase_name n h.hubcore;
    olist = erase_first p h.olist;
    modified = true;
  }
]

unfoldable pub clear_hub : NamedHub → NamedHub
clear_hub h = record h { hubcore = []; olist = [] }

-- `*var = str`: the string up to a null character
unfoldable pub assign_var : ℕ → List ℕ → NamedHub → Option NamedHub
assign_var p str h = get_elem? h.objects p >>= λ x.
    some (record h { objects = set h.objects p (record x { contents = before 0 str }) })

unfoldable pub writevar : List ℕ → List ℕ → NamedHub → Option NamedHub
writevar n str h = get_var n h >>= λ (p, h'). assign_var p str h'

-- the value of `x` afterwards
unfoldable pub readvar : List ℕ → List ℕ → NamedHub → Option (List ℕ)
readvar n x h = elim (get n h) [
  | none ↦ some x
  | some p ↦ get_elem? h.objects p >>= λ v. some v.contents
]

abbrev pub true_word : List ℕ
true_word = 116 ∷ 114 ∷ 117 ∷ 101 ∷ []

abbrev pub false_word : List ℕ
false_word = 102 ∷ 97 ∷ 108 ∷ 115 ∷ 101 ∷ []

unfoldable pub starts_with : List ℕ → List ℕ → Bool
starts_with [] s = true
starts_with (x ∷ w) [] = false
starts_with (x ∷ w) (y ∷ s) = x == y && starts_with w s

-- with `boolalpha`
unfoldable pub writevar_bool : List ℕ → Bool → NamedHub → Option NamedHub
writevar_bool n x h = writevar n (if x then true_word else false_word) h

-- `>>` skips spaces, and stores false where the word is none of the two
unfoldable pub readvar_bool : List ℕ → Bool → NamedHub → Option Bool
readvar_bool n x h = elim (get n h) [
  | none ↦ some x
  | some p ↦ get_elem? h.objects p >>= λ v.
      some (starts_with true_word (drop (skip_spaces v.contents) v.contents))
]
