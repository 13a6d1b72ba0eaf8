-- ===== src/Handles.antt =====
-- crs/handle.h: cHandle, the handles that count the links to an object and delete it with the last.
-- A handle is a variable of a store, named by its number. A pointer is a number and 0 is null; a
-- counter is the place of its `nlinks` in the store. What a destructor of an object does is left
-- out, and the spin lock makes each change of a counter one step. A deleted counter stays in the store
-- with a value of 0, and `deleted` lists the objects that were deleted.
pub mod Count
pub mod Release
pub mod Place
pub mod Contract
pub mod Bind
mod Tests
use crs.Base.{
  ℕ, zero, suc, ◌+◌, ◌-◌, Bool, true, false, not, List, [], ◌∷◌, ◌++◌, Option, none, some, ◌==◌,
  if◌then◌else◌, ◌>>=◌, length, get_elem?, set,
}

pub record Handle : Type 0 where
  pub object : ℕ
  pub hcounter : Option ℕ

-- the handles, the counters, and the objects that were deleted, the first one first
pub record Store : Type 0 where
  pub handles : List Handle
  pub nlinks : List ℕ
  pub deleted : List ℕ

abbrev pub null : Handle
null = record { object = 0; hcounter = none }

-- `addhandle`
unfoldable pub addhandle : Option ℕ → Store → Option (Store)
addhandle hcounter s = hcounter >>= λ c.
    get_elem? s.nlinks c >>= λ n. some (record s { nlinks = set s.nlinks c (n + 1) })

-- `unbind` of the handle `i`; a counter that would fall below 0 is `none`
unfoldable pub unbind : ℕ → Store → Option Store
unbind i s = get_elem? s.handles i >>= λ h.
    let released = h.hcounter >>= λ c. get_elem? s.nlinks c >>= λ n.
    let left = record s { nlinks = set s.nlinks c (n - 1) } in
    let gone = record left {
      handles = set s.handles i null;
      deleted = s.deleted ++ h.object ∷ [];
    } in
    if n == 0 then none else if n - 1 == 0 then some gone else some left in
    if h.object == 0 then some s else released

-- `assign` of an object and its counter to the handle `i`; a null pointer leaves the counter
unfoldable pub assign_object : ℕ → ℕ → Option ℕ → Store → Option Store
assign_object i objectptr hcounterptr s = get_elem? s.handles i >>= λ h.
    let put = λ (c : Option ℕ). record s {
      handles = set s.handles i (record { object = objectptr; hcounter = c });
    } in
    if objectptr == 0 then some (put h.hcounter) else addhandle hcounterptr (put hcounterptr)

-- `assign` of the handle `j` to the handle `i`
unfoldable pub assign : ℕ → ℕ → Store → Option Store
assign i j s = get_elem? s.handles i >>= λ h. get_elem? s.handles j >>= λ o.
    let changed = unbind i s >>= λ s'. assign_object i o.object o.hcounter s' in
    if not (h.object == o.object) then changed else some s

-- `bind` of a pointer to the handle `i`
unfoldable pub bind : ℕ → ℕ → Store → Option Store
bind i ptr s = get_elem? s.handles i >>= λ h.
    let bound = unbind i s >>= λ s'. get_elem? s'.handles i >>= λ h'.
    let counted = record s' {
      handles = set s'.handles i (record { object = ptr; hcounter = some (length s'.nlinks) });
      nlinks = s'.nlinks ++ 1 ∷ [];
    } in
    let cleared = record s' { handles = set s'.handles i (record h' { object = ptr }) } in
    if ptr == 0 then some cleared else some counted in
    if not (h.object == ptr) then bound else some s

-- a new variable, and its number
unfoldable pub declare : Store → ℕ × Store
declare s = (length s.handles, record s { handles = s.handles ++ null ∷ [] })

-- the constructors from a pointer and from a handle
unfoldable pub new_handle : ℕ → Store → Option Store
new_handle ptr s = let (i, s') = declare s in bind i ptr s'

unfoldable pub copy_handle : ℕ → Store → Option Store
copy_handle j s = let (i, s') = declare s in assign i j s'

-- the destructor: the variable is not used any more
unfoldable pub destroy : ℕ → Store → Option Store
destroy i s = unbind i s >>= λ s'. some (record s' { handles = set s'.handles i null })
