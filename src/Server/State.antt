-- ===== src/Server/State.antt =====
-- libicbinn/server/server.c: the file-scope and function-scope variables, how a call can end, and
-- the helpers that the handlers share.
use icbinn.Common.{
  ℕ, ◌/◌, ◌%◌, ℤ, pos, minus_one, is_negative, Bytes, Bool, true, none, length, leb, ◌==◌,
  if◌then◌else◌,
}
use icbinn.Protocol.{
  FileType, link, directory, file, unknown, Result, ok, error, ReaddirRes, max_path_len,
}
use icbinn.Kernel.{Sys, returned, failed, enoent, s_islnk, s_isdir, s_isreg}

-- `listed` is the static result of the READDIR handler (`none` where its status is not OK),
-- `fresh` its static `init`; `allocated` and `freed` count the heap blocks of listings that
-- `malloc` has given and `xdr_free` has taken back, since the start of the process.
-- The blocks of `readbuf` are not kept: a reply is encoded before the next request is read.
pub record Server (W : Type 0) : Type 0 where
  pub world : W
  pub random_fd : ℤ
  pub urandom_fd : ℤ
  pub fresh : Bool
  pub listed : ReaddirRes
  pub allocated : ℕ
  pub freed : ℕ

-- A call returns, or ends the process by `fatal`, or accesses a buffer out of its bounds.
pub data Run (A : Type 0) : Type 0 where
  done : A → Run A
  exited : Run A
  fault : Run A

infixl 5 ◌>>=◌
abbrev pub ◌>>=◌ : {A B : Type 0} → Run A → (A → Run B) → Run B
done a >>= f = f a
exited >>= f = exited
fault >>= f = fault

abbrev pub init : {W : Type 0} → W → Server W
init w = record {
  world = w;
  random_fd = minus_one;
  urandom_fd = minus_one;
  fresh = true;
  listed = none;
  allocated = 0;
  freed = 0;
}

unfoldable pub get_pathname_len : Bytes → ℤ
get_pathname_len path = let len = length path in if leb max_path_len len then minus_one else pos len

unfoldable pub set_icbinn_prot_type : ℕ → FileType
set_icbinn_prot_type entry_mode =
    if s_islnk entry_mode
    then link
    else if s_isdir entry_mode
    then directory
    else if s_isreg entry_mode
    then file
    else unknown

-- `word & bit` as a condition, where `bit` is a power of two, or 0.
abbrev pub flag_set : ℕ → ℕ → Bool
flag_set word bit = word / bit % 2 == 1

-- The tail of most handlers: a failed call gives the arm of ICBINN_PROT_ERROR with `errno`, a call
-- that returns gives the arm of ICBINN_PROT_OK.
abbrev pub conclude : {A B : Type 0} → (A → B) → Sys A → Result B
conclude reply (returned a) = ok (reply a)
conclude reply (failed errno) = error (pos errno)

module _ {W : Type 0} where
  abbrev pub call : {A B : Type 0} → (A → B) → (W → Sys A × W) → Server W → Result B × Server W
  call reply sys s = let (r, w) = sys s.world in (conclude reply r, record s { world = w })

  -- A handler that refuses a path of ICBINN_PROT_MAXPATHLEN bytes or more with ENOENT.
  abbrev pub with_path :
      {B : Type 0} → Bytes → (Server W → Result B × Server W) → Server W → Result B × Server W
  unfolding get_pathname_len
  with_path path handler s =
      if is_negative (get_pathname_len path) then (error (pos enoent), s) else handler s
