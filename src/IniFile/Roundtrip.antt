-- ===== src/IniFile/Roundtrip.antt =====
-- A file written by `cINIFile::write` and read by `cINIFile::read`.
use mathlib.Core.List.{append_assoc}
use crs.Base.{
  ap₂, ℕ, ◌≡◌, refl, sym, ap, ◌∙◌, List, [], ◌∷◌, ◌++◌, map, some, false, arith, length, drop,
}
use crs.IniFile.{
  Var, Hub, Item, a_var, a_hub, write_var, lines, is_empty, newline_each, newline_between,
  hub_write, write_item, write_file, read_file, sort_items,
}
use crs.IniFile.Lines.{AllWhole, lines-newline_between}
use crs.IniFile.Entries.{write_var-IsLine}
use crs.IniFile.Order.{vars_of, hubs_of, sort_items_lem}
use crs.IniFile.Sections.{
  IsStorableHub, LastIsVar-nonempty, AllStorable, AllStorableHubs, LastIsVar, header, file_lines,
  header-IsLine, read_loop-file_lines,
}
use crs.IniFile.LastHeader.{
  with_last, AllStorableHubs-with_last, nonempty-lines, read_loop-last_header,
}

AllWhole-file_lines :
    (vars : List Var) (hubs : List Hub)
    → AllStorable vars
    → AllStorableHubs hubs
    → AllWhole (file_lines vars hubs)
unfolding file_lines
AllWhole-file_lines (v ∷ vars) hubs k l =
    ((write_var-IsLine v k.0).whole, AllWhole-file_lines vars hubs k.1 l)
AllWhole-file_lines [] (h ∷ hubs) k l =
    ((header-IsLine h l.0).whole, AllWhole-file_lines h.vars hubs l.0.vars_storable l.1)
AllWhole-file_lines [] [] k l = tt

newline_each-file_lines :
    (vars : List Var) (hubs : List Hub)
    → newline_each (file_lines vars hubs)
      ≡ newline_each (map write_var vars) ++ newline_each (file_lines [] hubs)
unfolding file_lines newline_each
newline_each-file_lines [] hubs = refl
newline_each-file_lines (v ∷ vars) hubs = rw (
  newline_each-file_lines vars hubs,
  append_assoc (write_var v) (newline_each (map write_var vars))
      (newline_each (file_lines [] hubs)),
)

newline_each-hubs :
    (hubs : List Hub)
    → newline_each (map write_item (map a_hub hubs)) ≡ newline_each (file_lines [] hubs)
unfolding file_lines newline_each write_item hub_write header
newline_each-hubs [] = refl
newline_each-hubs (h ∷ hubs) =
    rw (newline_each-file_lines h.vars hubs, newline_each-hubs hubs) (simp append_assoc)

newline_each-items :
    (vars : List Var) (hubs : List Hub)
    → newline_each (map write_item (map a_var vars ++ map a_hub hubs))
      ≡ newline_each (file_lines vars hubs)
unfolding file_lines newline_each write_item
newline_each-items [] hubs = newline_each-hubs hubs
newline_each-items (v ∷ vars) hubs = rw (newline_each-items vars hubs)

newline_between-drop : (rest : List (List ℕ)) → newline_between rest ≡ drop 1 (newline_each rest)
unfolding newline_between newline_each
newline_between-drop [] = refl
newline_between-drop (s ∷ rest) = refl

lines-file_lines :
    (vars : List Var) (hubs : List Hub)
    → AllWhole (file_lines vars hubs)
    → is_empty (file_lines vars hubs) ≡ false
    → lines (newline_between (file_lines vars hubs)) ≡ file_lines vars hubs
unfolding file_lines is_empty
lines-file_lines (v ∷ vars) hubs h e = lines-newline_between (write_var v) (file_lines vars hubs) h
lines-file_lines [] (x ∷ hubs) h e = lines-newline_between (header x) (file_lines x.vars hubs) h
lines-file_lines [] [] h e = cc

lines-write_file :
    (items : List Item)
    → AllStorable (vars_of items)
    → AllStorableHubs (hubs_of items)
    → is_empty (file_lines (vars_of items) (hubs_of items)) ≡ false
    → lines (write_file items) ≡ file_lines (vars_of items) (hubs_of items)
unfolding write_file
lines-write_file items k l e =
    let vars = vars_of items in
    let hubs = hubs_of items in
    let sorted = map write_item (map a_var vars ++ map a_hub hubs) in
    rw (sort_items_lem items, newline_between-drop sorted, newline_each-items vars hubs)
      (ap lines (sym (newline_between-drop (file_lines vars hubs)))
        ∙ lines-file_lines vars hubs (AllWhole-file_lines vars hubs k l) e)

-- A file is read back as it was written, but for the order of `_write_contents`: its variables
-- first. This holds when the names, contents and descriptions keep to the characters that the
-- format leaves them, no variable without a name has contents, and the last line written is that
-- of a variable.
pub read_file-write_file :
    (items : List Item)
    → AllStorable (vars_of items)
    → AllStorableHubs (hubs_of items)
    → LastIsVar (vars_of items) (hubs_of items)
    → read_file (write_file items) ≡ some (sort_items items)
unfolding read_file
read_file-write_file items k l e =
    let vars = vars_of items in
    let hubs = hubs_of items in
    let more = LastIsVar-nonempty vars hubs e in
    let fuel = length (file_lines vars hubs) in
    rw (lines-write_file items k l more, sort_items_lem items)
      (read_loop-file_lines fuel vars hubs (omega arith) k l e)

vars_of-items :
    (vars : List Var) (hubs : List Hub) → vars_of (map a_var vars ++ map a_hub hubs) ≡ vars
vars_of-items [] [] = refl
vars_of-items [] (h ∷ hubs) = vars_of-items [] hubs
vars_of-items (v ∷ vars) hubs = ap (◌∷◌ v) (vars_of-items vars hubs)

hubs_of-items :
    (vars : List Var) (hubs : List Hub) → hubs_of (map a_var vars ++ map a_hub hubs) ≡ hubs
hubs_of-items [] [] = refl
hubs_of-items [] (h ∷ hubs) = ap (◌∷◌ h) (hubs_of-items [] hubs)
hubs_of-items (v ∷ vars) hubs = hubs_of-items vars hubs

-- A section without variables that is written behind variables and other sections, of which there is
-- one at least, is lost when the file is read, and all others are read back. The names, contents and
-- descriptions keep to the characters that the format leaves them.
pub read_file-last_header :
    (vars : List Var) (g h : Hub) (hubs : List Hub)
    → AllStorable vars
    → AllStorableHubs (g ∷ hubs)
    → IsStorableHub h
    → h.vars ≡ []
    → read_file (write_file (map a_var vars ++ map a_hub (with_last (g ∷ hubs) h)))
      ≡ some (map a_var vars ++ map a_hub (g ∷ hubs))
unfolding read_file
read_file-last_header vars g h hubs k l m e =
    let all = with_last (g ∷ hubs) h in
    let items = map a_var vars ++ map a_hub all in
    let storable = AllStorableHubs-with_last (g ∷ hubs) h l m in
    let own_vars = vars_of-items vars all in
    let own_hubs = hubs_of-items vars all in
    let some_lines = nonempty-lines vars (g ∷ hubs) h in
    let text : lines (write_file items) ≡ file_lines vars all =
      lines-write_file items (rw own_vars k) (rw own_hubs storable)
        (rw (own_vars, own_hubs) some_lines)
      ∙ ap₂ file_lines own_vars own_hubs in
    rw text
      (read_loop-last_header (length (file_lines vars all)) vars g h hubs (omega arith) k l m e)
