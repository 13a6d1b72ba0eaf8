-- ===== src/IniFile/Sections.antt =====
-- A file written and read again.
use mathlib.Core.List.{append-nil, append_assoc}
use crs.Base.{
  ℕ, zero, suc, ◌≤◌, ◌≡◌, refl, sym, ◌∙◌, true, false, List, [], ◌∷◌, ◌++◌, map, some, arith, ◌==◌,
  length,
}
use crs.IniFile.{
  rem, eol, slap_l, slap_r, carriage_return, Var, Hub, a_var, a_hub, is_empty, write_description,
  write_var, is_header, hub_read, create_hub, read_loop, cutfrom, before, after,
}
use crs.IniFile.Lines.{
  Lacks, Lacks-append, before-Lacks, after-Lacks, before-first, after-first, IsLine, trim-IsLine,
}
use crs.IniFile.Entries.{
  IsStorable, create-write_var, trim-write_var, write_var-header, write_description-Lacks,
}

abbrev pub AllStorable : List Var → Type 0
AllStorable [] = Unit
AllStorable (v ∷ vars) = IsStorable v × AllStorable vars

-- The name and the description keep to the characters that the format leaves them.
pub record IsStorableHub (h : Hub) : Type 0 where
  pub name_rem : Lacks rem h.name
  pub name_slap_r : Lacks slap_r h.name
  pub name_eol : Lacks eol h.name
  pub name_return : Lacks carriage_return h.name
  pub description_eol : Lacks eol h.description
  pub description_return : Lacks carriage_return h.description
  pub vars_storable : AllStorable h.vars

abbrev pub AllStorableHubs : List Hub → Type 0
AllStorableHubs [] = Unit
AllStorableHubs (h ∷ hubs) = IsStorableHub h × AllStorableHubs hubs

-- the last line of variables and the hubs behind them is a variable
abbrev pub LastIsVar : List Var → List Hub → Type 0
LastIsVar vars (h ∷ hubs) = LastIsVar h.vars hubs
LastIsVar [] [] = true ≡ false
LastIsVar (v ∷ vars) [] = Unit

-- the line of a header
unfoldable pub header : Hub → List ℕ
header h = slap_l ∷ (h.name ++ slap_r ∷ write_description h.description)

-- the lines of variables and of the hubs behind them
unfoldable pub file_lines : List Var → List Hub → List (List ℕ)
file_lines (v ∷ vars) hubs = write_var v ∷ file_lines vars hubs
file_lines [] (h ∷ hubs) = header h ∷ file_lines h.vars hubs
file_lines [] [] = []

header-Lacks :
    (ch : ℕ) (h : Hub)
    → (slap_l == ch ≡ false)
    → (slap_r == ch ≡ false)
    → (rem == ch ≡ false)
    → Lacks ch h.name
    → Lacks ch h.description
    → Lacks ch (header h)
unfolding header
header-Lacks ch h l r e n d = (
  l,
  Lacks-append ch h.name (slap_r ∷ write_description h.description) n
      (r, write_description-Lacks ch h.description e d),
)

pub header-IsLine : (h : Hub) → IsStorableHub h → IsLine (header h)
unfolding header
header-IsLine h k = record {
  whole = header-Lacks eol h refl refl refl k.name_eol k.description_eol;
  clean = header-Lacks carriage_return h refl refl refl k.name_return k.description_return;
  trimmed = refl;
}

pub header-is_header : (h : Hub) → is_header (header h) ≡ true
unfolding header is_header
header-is_header h = refl

name_part :
    (line description : List ℕ)
    → Lacks rem line
    → (before rem (line ++ write_description description) ≡ line)
      × (after rem (line ++ write_description description) ≡ description)
unfolding write_description is_empty
name_part line [] h = rw (append-nil line) (before-Lacks rem line h, after-Lacks rem line h)
name_part line (c ∷ description) h =
    (before-first rem line (c ∷ description) h, after-first rem line (c ∷ description) h)

pub create_hub-header : (h : Hub) → IsStorableHub h → create_hub (header h) h.vars ≡ h
unfolding create_hub cutfrom header
create_hub-header h k =
    let line = h.name ++ slap_r ∷ [] in
    let lacks = Lacks-append rem h.name (slap_r ∷ []) k.name_rem (refl, tt) in
    let (name, description) = name_part line h.description lacks in
    let split = append_assoc h.name (slap_r ∷ []) (write_description h.description) in
    rw (sym split, name, description, before-first slap_r h.name [] k.name_slap_r)

pub LastIsVar-nonempty :
    (vars : List Var) (hubs : List Hub)
    → LastIsVar vars hubs
    → is_empty (file_lines vars hubs) ≡ false
unfolding is_empty file_lines
LastIsVar-nonempty (v ∷ vars) hubs h = refl
LastIsVar-nonempty [] (x ∷ hubs) h = refl
LastIsVar-nonempty [] [] h = cc

-- a header that `Hub::read` meets is left for the next read
pub hub_read-header :
    (h : Hub) (stream : List (List ℕ))
    → IsStorableHub h
    → hub_read (header h ∷ stream) ≡ ([], is_empty stream, header h ∷ stream)
unfolding hub_read
hub_read-header h stream k = rw (trim-IsLine (header h) (header-IsLine h k), header-is_header h)

-- `Hub::read` takes the variables up to the next header
hub_read-file_lines :
    (vars : List Var) (hubs : List Hub)
    → AllStorable vars
    → AllStorableHubs hubs
    → LastIsVar vars hubs
    → hub_read (file_lines vars hubs) ≡ (vars, is_empty hubs, file_lines [] hubs)
unfolding hub_read file_lines is_empty
hub_read-file_lines [] [] k l e = cc
hub_read-file_lines [] (h ∷ hubs) k l e =
    let more = LastIsVar-nonempty h.vars hubs e in
    hub_read-header h (file_lines h.vars hubs) l.0 ∙ rw more
hub_read-file_lines (v ∷ []) [] k l e =
    rw (trim-write_var v k.0, write_var-header v k.0, create-write_var v k.0)
hub_read-file_lines (v ∷ w ∷ vars) [] k l e = rw (
  trim-write_var v k.0,
  write_var-header v k.0,
  create-write_var v k.0,
  hub_read-file_lines (w ∷ vars) [] k.1 l tt,
)
hub_read-file_lines (v ∷ vars) (h ∷ hubs) k l e =
    let more = LastIsVar-nonempty vars (h ∷ hubs) e in
    rw (
      trim-write_var v k.0,
      write_var-header v k.0,
      create-write_var v k.0,
      more,
      hub_read-file_lines vars (h ∷ hubs) k.1 l e,
    )

pub rest_shorter :
    (vars : List Var) (hubs : List Hub)
    → length (file_lines [] hubs) ≤ length (file_lines vars hubs)
unfolding file_lines
rest_shorter [] hubs = omega arith
rest_shorter (v ∷ vars) hubs = omega (arith, rest_shorter vars hubs)

-- `cINIFile::read` takes the variables, and then the hubs
pub read_loop-file_lines :
    (fuel : ℕ) (vars : List Var) (hubs : List Hub)
    → length (file_lines vars hubs) ≤ fuel
    → AllStorable vars
    → AllStorableHubs hubs
    → LastIsVar vars hubs
    → read_loop fuel (file_lines vars hubs) ≡ some (map a_var vars ++ map a_hub hubs)
unfolding read_loop file_lines is_empty
read_loop-file_lines fuel [] [] f k l e = cc
read_loop-file_lines zero (v ∷ vars) hubs f k l e = absurd (omega arith)
read_loop-file_lines zero [] (h ∷ hubs) f k l e = absurd (omega arith)
read_loop-file_lines (suc fuel) [] (h ∷ []) f k l e =
    let more = LastIsVar-nonempty h.vars [] e in
    rw (
      trim-IsLine (header h) (header-IsLine h l.0),
      header-is_header h,
      more,
      hub_read-file_lines h.vars [] l.0.vars_storable tt e,
      create_hub-header h l.0,
    )
read_loop-file_lines (suc fuel) [] (h ∷ g ∷ hubs) f k l e =
    let more = LastIsVar-nonempty h.vars (g ∷ hubs) e in
    let shorter = rest_shorter h.vars (g ∷ hubs) in
    rw (
      trim-IsLine (header h) (header-IsLine h l.0),
      header-is_header h,
      more,
      hub_read-file_lines h.vars (g ∷ hubs) l.0.vars_storable l.1 e,
      create_hub-header h l.0,
      read_loop-file_lines fuel [] (g ∷ hubs) (omega arith) tt l.1 e,
    )
read_loop-file_lines (suc fuel) (v ∷ []) [] f k l e =
    rw (trim-write_var v k.0, write_var-header v k.0, create-write_var v k.0)
read_loop-file_lines (suc fuel) (v ∷ w ∷ vars) [] f k l e = rw (
  trim-write_var v k.0,
  write_var-header v k.0,
  create-write_var v k.0,
  read_loop-file_lines fuel (w ∷ vars) [] (omega arith) k.1 l tt,
)
read_loop-file_lines (suc fuel) (v ∷ vars) (h ∷ hubs) f k l e =
    let more = LastIsVar-nonempty vars (h ∷ hubs) e in
    rw (
      trim-write_var v k.0,
      write_var-header v k.0,
      create-write_var v k.0,
      more,
      read_loop-file_lines fuel vars (h ∷ hubs) (omega arith) k.1 l e,
    )
