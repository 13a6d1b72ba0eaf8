-- ===== src/IniFile/Tests.antt =====
-- A file of one section and one variable, written, read and measured.
use mathlib.Core.List.Perm
use crs.Base.{
  ◌%◌, ◌>>=◌, none, ◌≡◌, refl, true, false, List, [], ◌∷◌, ◌++◌, map, some, length, Yields,
  size_mod,
}
use crs.Parsing.{skip_spaces}
use crs.IniFile.{
  Var, Hub, Item, a_var, a_hub, is_empty, is_var, after, before, cutfrom, firstchar, trim,
  is_header, create, read_file, read_var, write_var, write_description, hub_write, write_item,
  newline_each, newline_between, sort_loop, sort_from, sort_items, write_file, hub_size, create,
}
use crs.IniFile.Entries.{IsStorable, create-write_var}
use crs.IniFile.Sections.{IsStorableHub}
use crs.IniFile.Roundtrip.{read_file-write_file, read_file-last_header}
use crs.IniFile.Order.{vars_of, hubs_of, sort_items_lem}
use crs.IniFile.Size.{hub_size_lem}
use crs.IniFile.Returns.{read_file-returns}
use crs.IniFile.Access.{
  NamedHub, new_hub, append, find_name, insert_name, erase_name, erase_first, same_name, less_name,
  get, get_var, assign_var, writevar, readvar, erase_var,
}
use crs.IniFile.Edits.{Edit, writes, erases, edit, edits, value_of, edits-new_hub}

-- "a=1;n"
abbrev one : Var
one = record { name = 97 ∷ []; contents = 49 ∷ []; description = 110 ∷ [] }

one-IsStorable : IsStorable one
unfolding is_header
one-IsStorable = record {
  name_rem = (refl, tt);
  name_equ = (refl, tt);
  name_line = record { whole = (refl, tt); clean = (refl, tt); trimmed = refl };
  name_start = refl;
  contents_rem = (refl, tt);
  contents_null = (refl, tt);
  contents_eol = (refl, tt);
  contents_return = (refl, tt);
  description_eol = (refl, tt);
  description_return = (refl, tt);
  unnamed = λ e. cc;
}

-- "[h]" with the variable in it
abbrev section : Hub
section = record { name = 104 ∷ []; description = []; vars = one ∷ [] }

section-IsStorableHub : IsStorableHub section
section-IsStorableHub = record {
  name_rem = (refl, tt);
  name_slap_r = (refl, tt);
  name_eol = (refl, tt);
  name_return = (refl, tt);
  description_eol = tt;
  description_return = tt;
  vars_storable = (one-IsStorable, tt);
}

abbrev bare : Hub
bare = record section { vars = [] }

bare-IsStorableHub : IsStorableHub bare
bare-IsStorableHub = record {
  name_rem = (refl, tt);
  name_slap_r = (refl, tt);
  name_eol = (refl, tt);
  name_return = (refl, tt);
  description_eol = tt;
  description_return = tt;
  vars_storable = tt;
}

abbrev items : List Item
items = a_hub section ∷ a_var one ∷ []

written :
    write_file items
    ≡ (97 ∷ 61 ∷ 49 ∷ 59 ∷ 110 ∷ [])
      ++ ((10 ∷ 91 ∷ 104 ∷ 93 ∷ []) ++ 10 ∷ 97 ∷ 61 ∷ 49 ∷ 59 ∷ 110 ∷ [])
unfolding write_file newline_between newline_each write_item write_var hub_write write_description
    is_empty sort_items sort_from sort_loop is_var
written = refl

read_file-write_file_example : read_file (write_file items) ≡ some (sort_items items)
read_file-write_file_example =
    read_file-write_file items (one-IsStorable, tt) (section-IsStorableHub, tt) tt

read_file-last_header_example :
    read_file (write_file (a_var one ∷ a_hub section ∷ a_hub bare ∷ []))
    ≡ some (a_var one ∷ a_hub section ∷ [])
read_file-last_header_example =
    read_file-last_header (one ∷ []) section bare [] (one-IsStorable, tt)
      (section-IsStorableHub, tt) bare-IsStorableHub refl

create-write_var_run : create (write_var one) ≡ one
create-write_var_run = create-write_var one one-IsStorable

sort_items_lem_run : sort_items items ≡ map a_var (vars_of items) ++ map a_hub (hubs_of items)
sort_items_lem_run = sort_items_lem items

hub_size_lem_run :
    hub_size (one ∷ []) ≡ length (newline_each (map write_var section.vars)) % size_mod
hub_size_lem_run = hub_size_lem section (one ∷ []) (Perm.refl (one ∷ []))

read_file-returns_example : Yields (λ items. is_empty items ≡ false) (read_file (91 ∷ []))
read_file-returns_example = read_file-returns (91 ∷ [])

-- a variable that is read with the spaces and the carriage return around it
read_line : read_var ((32 ∷ 97 ∷ 61 ∷ 49 ∷ 59 ∷ 110 ∷ 13 ∷ []) ∷ []) ≡ (one, true)
unfolding read_var trim firstchar skip_spaces before after cutfrom create is_empty
read_line = refl

-- "b" is written twice, "a" is written and erased, "ab" is written once
abbrev ops : List Edit
ops =
    writes (98 ∷ []) (49 ∷ [])
    ∷ writes (97 ∷ []) (50 ∷ [])
    ∷ writes (97 ∷ 98 ∷ []) (51 ∷ 0 ∷ 52 ∷ [])
    ∷ erases (97 ∷ [])
    ∷ writes (98 ∷ []) (53 ∷ [])
    ∷ []

edits-new_hub_example :
    (t : NamedHub) × (edits ops new_hub ≡ some t)
    × (readvar (98 ∷ []) [] t
        ≡ some (elim (value_of (98 ∷ []) ops none) [ none ↦ [] | some str ↦ str ]))
edits-new_hub_example = edits-new_hub ops (98 ∷ []) []

last_written : value_of (98 ∷ []) ops none ≡ some (53 ∷ [])
unfolding value_of same_name before
last_written = refl

cut_short : (edits ops new_hub >>= λ t. readvar (97 ∷ 98 ∷ []) [] t) ≡ some (51 ∷ [])
unfolding edits edit writevar get_var get append assign_var erase_var find_name insert_name
    erase_name erase_first same_name less_name new_hub readvar before
cut_short = refl
