-- ===== src/IniFile/Entries.antt =====
-- A variable written on a line and read again.
use mathlib.Core.List.{append-nil}
use crs.Base.{ℕ, ◌≡◌, refl, sym, ap, ◌∙◌, false, List, [], ◌∷◌, ◌++◌, ◌==◌, if◌then◌else◌}
use crs.Parsing.Tokens.{IsTrimmed}
use crs.IniFile.{
  rem, equ, eol, carriage_return, before, after, cutfrom, Var, create, is_empty, write_description,
  write_var, is_header, trim,
}
use crs.IniFile.Lines.{
  Lacks, Lacks-append, before-Lacks, after-Lacks, before-first, after-first, IsLine, trim-IsLine,
}

-- The parts of the variable keep to the characters that the format leaves them, and a variable
-- without a name has no contents.
pub record IsStorable (v : Var) : Type 0 where
  pub name_rem : Lacks rem v.name
  pub name_equ : Lacks equ v.name
  pub name_line : IsLine v.name
  pub name_start : is_header v.name ≡ false
  pub contents_rem : Lacks rem v.contents
  pub contents_null : Lacks 0 v.contents
  pub contents_eol : Lacks eol v.contents
  pub contents_return : Lacks carriage_return v.contents
  pub description_eol : Lacks eol v.description
  pub description_return : Lacks carriage_return v.description
  pub unnamed : v.name ≡ [] → v.contents ≡ []

-- `create` of what stands in front of the description, and of the description
create-write_description :
    (line description : List ℕ)
    → Lacks rem line
    → create (line ++ write_description description) ≡ record {
      name = before equ line;
      contents = before 0 (after equ line);
      description = description;
    }
unfolding create cutfrom write_description is_empty
create-write_description line [] h =
    rw (append-nil line, before-Lacks rem line h, after-Lacks rem line h)
create-write_description line (c ∷ description) h =
    rw (before-first rem line (c ∷ description) h, after-first rem line (c ∷ description) h)

-- what stands in front of the description
assignment : List ℕ → List ℕ → List ℕ
assignment name contents = if is_empty name then [] else name ++ equ ∷ contents

module _ (contents : List ℕ) where
  create-assignment :
      (name : List ℕ)
      → Lacks equ name
      → Lacks 0 contents
      → (name ≡ [] → contents ≡ [])
      → (before equ (assignment name contents) ≡ name)
        × (before 0 (after equ (assignment name contents)) ≡ contents)
  unfolding assignment is_empty before after
  create-assignment [] h k e = (refl, sym (e refl))
  create-assignment (c ∷ name) h k e = (
    before-first equ (c ∷ name) contents h,
    ap (before 0) (after-first equ (c ∷ name) contents h) ∙ before-Lacks 0 contents k,
  )

  assignment-Lacks :
      (ch : ℕ) (name : List ℕ)
      → (equ == ch ≡ false)
      → Lacks ch name
      → Lacks ch contents
      → Lacks ch (assignment name contents)
  unfolding assignment is_empty
  assignment-Lacks ch [] e h k = tt
  assignment-Lacks ch (c ∷ name) e h k = Lacks-append ch (c ∷ name) (equ ∷ contents) h (e, k)

pub write_description-Lacks :
    (ch : ℕ) (description : List ℕ)
    → (rem == ch ≡ false)
    → Lacks ch description
    → Lacks ch (write_description description)
unfolding write_description is_empty
write_description-Lacks ch [] e h = tt
write_description-Lacks ch (c ∷ description) e h = (e, h)

-- A storable variable that `Var::write` writes is the one that `Var::create` makes of the line.
pub create-write_var : (v : Var) → IsStorable v → create (write_var v) ≡ v
unfolding write_var assignment
create-write_var v h =
    let (name, contents) =
      create-assignment v.contents v.name h.name_equ h.contents_null h.unnamed in
    create-write_description (assignment v.name v.contents) v.description
      (assignment-Lacks v.contents rem v.name refl h.name_rem h.contents_rem)
    ∙ rw (name, contents)

first-IsTrimmed :
    (name contents description : List ℕ)
    → IsTrimmed name
    → IsTrimmed (assignment name contents ++ write_description description)
unfolding assignment is_empty write_description
first-IsTrimmed [] contents [] h = tt
first-IsTrimmed [] contents (c ∷ description) h = refl
first-IsTrimmed (c ∷ name) contents description h = h

first-header :
    (name contents description : List ℕ)
    → is_header name ≡ false
    → is_header (assignment name contents ++ write_description description) ≡ false
unfolding assignment is_empty write_description is_header
first-header [] contents [] h = refl
first-header [] contents (c ∷ description) h = refl
first-header (c ∷ name) contents description h = h

-- it stands on one line, and the line is no header
pub write_var-IsLine : (v : Var) → IsStorable v → IsLine (write_var v)
unfolding write_var assignment
write_var-IsLine v h = record {
  whole =
      Lacks-append eol _ _
        (assignment-Lacks v.contents eol v.name refl h.name_line.whole h.contents_eol)
        (write_description-Lacks eol v.description refl h.description_eol);
  clean =
      Lacks-append carriage_return _ _
        (assignment-Lacks v.contents carriage_return v.name refl h.name_line.clean
          h.contents_return)
        (write_description-Lacks carriage_return v.description refl h.description_return);
  trimmed = first-IsTrimmed v.name v.contents v.description h.name_line.trimmed;
}

pub write_var-header : (v : Var) → IsStorable v → is_header (write_var v) ≡ false
unfolding write_var assignment
write_var-header v h = first-header v.name v.contents v.description h.name_start

pub trim-write_var : (v : Var) → IsStorable v → trim (write_var v) ≡ write_var v
trim-write_var v h = trim-IsLine (write_var v) (write_var-IsLine v h)
