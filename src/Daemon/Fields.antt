-- ===== src/Daemon/Fields.antt =====
-- The choice of the exported directory against a description of the property's fields.
use icbinn.Common.{
  ℕ, zero, suc, ◌≡◌, refl, Bytes, Bool-cases, Option-cases, ◌<◌, true, Option, none, some, List, [],
  ◌∷◌, length, leb, ◌==◌, ◌||◌, get_elem?, inl, inr, if◌then◌else◌, arith,
}
use icbinn.Daemon.Export.{Bus, before_comma, after_comma, take_field, pick_path, get_icbinn_path}

abbrev push : ℕ → List Bytes → List Bytes
push c [] = (c ∷ []) ∷ []
push c (field ∷ fields) = (c ∷ field) ∷ fields

-- The fields of a text, between its commas.
abbrev pub split : Bytes → List Bytes
split [] = [] ∷ []
split (c ∷ cs) = if c == b',' then [] ∷ split cs else push c (split cs)

-- A field that fits a buffer with its end, and is not empty.
abbrev pub usable : (size : ℕ) → Option Bytes → Option Bytes
usable size none = none
usable size (some field) = if leb size (length field) || length field == 0 then none else some field

abbrev rest_fields : Option Bytes → List Bytes
rest_fields none = []
rest_fields (some rest) = split rest

split_lem : (value : Bytes) → split value ≡ before_comma value ∷ rest_fields (after_comma value)
split_lem [] = refl
split_lem (c ∷ cs) = elim (Bool-cases (c == b',')) [
  | inl e ↦ rw e refl
  | inr e ↦ rw (e, split_lem cs) refl
]

pick_path_lem :
    (size i : ℕ) (value : Bytes) → pick_path value size i ≡ usable size (get_elem? (split value) i)
unfolding pick_path
pick_path_lem size zero value = rw (split_lem value) refl
pick_path_lem size (suc i) value = elim (Option-cases (after_comma value)) [
  | inl e ↦ rw (split_lem value, pick_path, e) refl
  | inr (rest, e) ↦ rw (split_lem value, pick_path, e) (pick_path_lem size i rest)
]

-- If the bus has a value for the domain's VM, `get_icbinn_path` gives the field of this index,
-- counted from 0 between the value's commas, if there is one, it is not empty, and it fits the
-- buffer with its end; otherwise it fails.
pub get_icbinn_path-field :
    {W : Type 0} (bus : Bus W) (domid size i : ℕ) (w : W) (object value : Bytes)
    → (bus.init w).0 ≡ true
    → (bus.find_vm_by_domid domid (bus.init w).1).0 ≡ some object
    → (bus.get_icbinn_path object (bus.find_vm_by_domid domid (bus.init w).1).1).0
      ≡ some (some value)
    → (get_icbinn_path (some bus) domid size i w).0 ≡ usable size (get_elem? (split value) i)
unfolding get_icbinn_path
get_icbinn_path-field bus domid size i w object value connected vm found =
    rw (connected, vm, found) (pick_path_lem size i value)

-- for the child: whatever it gets is a path that is there and fits
pub get_icbinn_path-fits :
    {W : Type 0} (bus : Option (Bus W)) (domid i : ℕ) (size : ℕ) (w : W) (path : Bytes)
    → 2 < size
    → (get_icbinn_path bus domid size i w).0 ≡ some path
    → (0 < length path) × (length path < size)
unfolding get_icbinn_path take_field pick_path
get_icbinn_path-fits none domid i size w path h e = ground arith
get_icbinn_path-fits (some bus) domid i size w path h e = ground arith
