-- ===== src/IniFile/LastHeader.antt =====
-- Reading a file whose last line is the header of a section.
use crs.Base.{
  zero, suc, ◌≤◌, ℕ, ◌≡◌, refl, ap, ◌∙◌, List, [], ◌∷◌, ◌++◌, map, some, true, false, arith, length,
}
use crs.IniFile.{Var, Hub, a_var, a_hub, hub_read, is_empty, read_loop}
use crs.IniFile.Lines.{trim-IsLine}
use crs.IniFile.Entries.{trim-write_var, write_var-header, create-write_var}
use crs.IniFile.Sections.{
  IsStorableHub, header-is_header, hub_read-header, create_hub-header, AllStorable, AllStorableHubs,
  header, file_lines, header-IsLine, rest_shorter,
}

nonempty-hub : (vars : List Var) (h : Hub) → is_empty (file_lines vars (h ∷ [])) ≡ false
unfolding file_lines is_empty
nonempty-hub [] h = refl
nonempty-hub (v ∷ vars) h = refl

-- the variables in front of a last line that is a header: `msgEOF` is thrown
hub_read-last_header :
    (vars : List Var) (h : Hub)
    → AllStorable vars
    → IsStorableHub h
    → h.vars ≡ []
    → hub_read (file_lines vars (h ∷ [])) ≡ (vars, true, header h ∷ [])
unfolding hub_read file_lines is_empty
hub_read-last_header [] h k l e =
    let alone : file_lines h.vars [] ≡ [] = ap (λ vars. file_lines vars []) e in
    rw alone (hub_read-header h [] l)
hub_read-last_header (v ∷ vars) h k l e =
    let more = nonempty-hub vars h in
    rw (
      trim-write_var v k.0,
      write_var-header v k.0,
      create-write_var v k.0,
      more,
      hub_read-last_header vars h k.1 l e,
    )

-- the hubs, and then `h`
abbrev pub with_last : List Hub → Hub → List Hub
with_last [] h = h ∷ []
with_last (g ∷ hubs) h = g ∷ with_last hubs h

pub AllStorableHubs-with_last :
    (hubs : List Hub) (h : Hub)
    → AllStorableHubs hubs
    → IsStorableHub h
    → AllStorableHubs (with_last hubs h)
AllStorableHubs-with_last [] h k l = (l, tt)
AllStorableHubs-with_last (g ∷ hubs) h k l = (k.0, AllStorableHubs-with_last hubs h k.1 l)

pub nonempty-lines :
    (vars : List Var) (hubs : List Hub) (h : Hub)
    → is_empty (file_lines vars (with_last hubs h)) ≡ false
unfolding file_lines is_empty
nonempty-lines [] [] h = refl
nonempty-lines [] (g ∷ hubs) h = refl
nonempty-lines (v ∷ vars) hubs h = refl

-- `Hub::read` takes the variables up to the next header, where others follow
hub_read-next :
    (vars : List Var) (g h : Hub) (hubs : List Hub)
    → AllStorable vars
    → IsStorableHub g
    → hub_read (file_lines vars (with_last (g ∷ hubs) h))
      ≡ (vars, false, file_lines [] (with_last (g ∷ hubs) h))
unfolding hub_read file_lines is_empty
hub_read-next [] g h hubs k l =
    hub_read-header g (file_lines g.vars (with_last hubs h)) l
    ∙ rw (nonempty-lines g.vars hubs h) refl
hub_read-next (v ∷ vars) g h hubs k l = rw (
  trim-write_var v k.0,
  write_var-header v k.0,
  create-write_var v k.0,
  nonempty-lines vars (g ∷ hubs) h,
  hub_read-next vars g h hubs k.1 l,
)

pub read_loop-last_header :
    (fuel : ℕ) (vars : List Var) (g h : Hub) (hubs : List Hub)
    → length (file_lines vars (with_last (g ∷ hubs) h)) ≤ fuel
    → AllStorable vars
    → AllStorableHubs (g ∷ hubs)
    → IsStorableHub h
    → h.vars ≡ []
    → read_loop fuel (file_lines vars (with_last (g ∷ hubs) h))
      ≡ some (map a_var vars ++ map a_hub (g ∷ hubs))
unfolding read_loop file_lines is_empty
read_loop-last_header zero (v ∷ vars) g h hubs f k l m e = absurd (omega arith)
read_loop-last_header zero [] g h hubs f k l m e = absurd (omega arith)
read_loop-last_header (suc fuel) (v ∷ vars) g h hubs f k l m e = rw (
  trim-write_var v k.0,
  write_var-header v k.0,
  create-write_var v k.0,
  nonempty-lines vars (g ∷ hubs) h,
  read_loop-last_header fuel vars g h hubs (omega arith) k.1 l m e,
)
read_loop-last_header (suc fuel) [] g h [] f k l m e = rw (
  trim-IsLine (header g) (header-IsLine g l.0),
  header-is_header g,
  nonempty-hub g.vars h,
  hub_read-last_header g.vars h l.0.vars_storable m e,
  create_hub-header g l.0,
)
read_loop-last_header (suc fuel) [] g h (g' ∷ hubs) f k l m e =
    let shorter = rest_shorter g.vars (with_last (g' ∷ hubs) h) in
    rw (
      trim-IsLine (header g) (header-IsLine g l.0),
      header-is_header g,
      nonempty-lines g.vars (g' ∷ hubs) h,
      hub_read-next g.vars g' h hubs l.0.vars_storable l.1.0,
      create_hub-header g l.0,
      read_loop-last_header fuel [] g' h hubs (omega arith) tt l.1 m e,
    )
