-- ===== src/Daemon/Export.antt =====
-- dbusrpc.c: which directory is exported to a domain. The calls of libxcdbus and of the code that
-- is generated for it are a parameter; `none` is a build without them.
use icbinn.Common.{
  ℕ, zero, suc, Bytes, Bool, Option, none, some, [], ◌∷◌, codes, length, leb, ◌==◌, ◌||◌,
  if◌then◌else◌,
}

pub record Bus (W : Type 0) : Type 0 where
  -- `xcdbus_init`: whether there is a connection
  pub init : W → Bool × W
  -- the path of the VM's object
  pub find_vm_by_domid : (domid : ℕ) → W → Option Bytes × W
  -- The value of its property `icbinn_path`: `some none` is a call that succeeds and gives NULL.
  pub get_icbinn_path : Bytes → W → Option (Option Bytes) × W
  pub shutdown : W → W

-- `index (ptr, ',')`: what is in front of the comma, or all of it
abbrev pub before_comma : Bytes → Bytes
before_comma [] = []
before_comma (c ∷ cs) = if c == b',' then [] else c ∷ before_comma cs

-- and what is behind it
abbrev pub after_comma : Bytes → Option Bytes
after_comma [] = none
after_comma (c ∷ cs) = if c == b',' then some cs else after_comma cs

-- `while (i--)`
unfoldable pub skip_fields : (i : ℕ) → Bytes → Option Bytes
skip_fields zero ptr = some ptr
skip_fields (suc i) ptr = elim (after_comma ptr) [ none ↦ none | some rest ↦ skip_fields i rest ]

-- The field that ends at the next comma, which must fit the buffer and not be empty.
unfoldable pub take_field : (buf_size : ℕ) → Bytes → Option Bytes
take_field buf_size ptr =
    let path = before_comma ptr in
    if leb buf_size (length path) || length path == 0 then none else some path

unfoldable pub pick_path : (value : Bytes) (buf_size path_index : ℕ) → Option Bytes
unfolding skip_fields take_field
pick_path value buf_size path_index = elim (skip_fields path_index value) [
  | none ↦ none
  | some ptr ↦ take_field buf_size ptr
]

-- What is stored at `path_ptr`; `none` is the result -1.
unfoldable pub get_icbinn_path :
    {W : Type 0} → Option (Bus W) → (domid buf_size path_index : ℕ) → W → Option Bytes × W
unfolding pick_path
get_icbinn_path none domid buf_size path_index w = (some (codes "./"), w)
get_icbinn_path (some bus) domid buf_size path_index w =
    let (connected, w1) = bus.init w in
    let (obj_path, w2) = bus.find_vm_by_domid domid w1 in
    if connected
    then elim obj_path [
      | none ↦ (none, bus.shutdown w2)
      | some path ↦
          let (value, w3) = bus.get_icbinn_path path w2 in
          elim value [
            | none ↦ (none, bus.shutdown w3)
            | some none ↦ (none, bus.shutdown w3)
            | some (some v) ↦ (pick_path v buf_size path_index, bus.shutdown w3)
          ]
    ]
    else (none, bus.shutdown w1)
