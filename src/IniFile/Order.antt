-- ===== src/IniFile/Order.antt =====
-- The order in which `_write_contents` writes.
use mathlib.Core.List.{append-nil, append_assoc}
use crs.Base.{◌≡◌, refl, sym, ◌∙◌, List, [], ◌∷◌, ◌++◌, map}
use crs.IniFile.{Var, Hub, Item, a_var, a_hub, is_var, sort_loop, sort_from, sort_items}

-- the variables of a file, and its hubs
abbrev pub vars_of : List Item → List Var
vars_of [] = []
vars_of (a_var v ∷ items) = v ∷ vars_of items
vars_of (a_hub h ∷ items) = vars_of items

abbrev pub hubs_of : List Item → List Hub
hubs_of [] = []
hubs_of (a_var v ∷ items) = hubs_of items
hubs_of (a_hub h ∷ items) = h ∷ hubs_of items

sort_loop_lem :
    (front between items : List Item)
    → sort_loop front between items
      ≡ (front ++ map a_var (vars_of items)) ++ (between ++ map a_hub (hubs_of items))
unfolding sort_loop is_var
sort_loop_lem front between [] = rw (append-nil front, append-nil between) refl
sort_loop_lem front between (a_var v ∷ items) =
    sort_loop_lem (front ++ a_var v ∷ []) between items
    ∙ rw (append_assoc front (a_var v ∷ []) (map a_var (vars_of items)))
sort_loop_lem front between (a_hub h ∷ items) =
    sort_loop_lem front (between ++ a_hub h ∷ []) items
    ∙ rw (append_assoc between (a_hub h ∷ []) (map a_hub (hubs_of items)))

sort_from_lem :
    (front items : List Item)
    → sort_from front items ≡ front ++ (map a_var (vars_of items) ++ map a_hub (hubs_of items))
unfolding sort_from is_var
sort_from_lem front [] = sym (append-nil front)
sort_from_lem front (a_var v ∷ items) =
    sort_from_lem (front ++ a_var v ∷ []) items
    ∙ append_assoc front (a_var v ∷ []) (map a_var (vars_of items) ++ map a_hub (hubs_of items))
sort_from_lem front (a_hub h ∷ items) =
    sort_loop_lem front [] (a_hub h ∷ items)
    ∙ append_assoc front (map a_var (vars_of items)) (a_hub h ∷ map a_hub (hubs_of items))

-- The sort of `_write_contents` puts all variables in front of all hubs and keeps the order among
-- the variables and among the hubs.
pub sort_items_lem :
    (items : List Item) → sort_items items ≡ map a_var (vars_of items) ++ map a_hub (hubs_of items)
unfolding sort_items
sort_items_lem items = sort_from_lem [] items
