-- ===== src/Protocol.antt =====
-- libicbinn/rpc/icbinn_prot.x: the limits, the argument and result types and the procedures of the
-- RPC program. A union that is switched on `icbinn_prot_stat` is a `Result`: the arm of
-- ICBINN_PROT_OK, or the error number of the arm of ICBINN_PROT_ERROR.
use icbinn.Common.{ℕ, ◌^◌, ℤ, Bytes, Bool, Option, List}

abbrev pub max_path_len : ℕ
max_path_len = 4096

abbrev pub max_name_len : ℕ
max_name_len = 1024

abbrev pub max_data : ℕ
max_data = 65536

-- ICBINN_PROT_PORT
abbrev pub prot_port : ℕ
prot_port = 4878

-- The numbers of a word: `unsigned int` and `unsigned hyper`.
abbrev pub u32_size : ℕ
u32_size = 2 ^ 32

abbrev pub u64_size : ℕ
u64_size = 2 ^ 64

-- `icbinn_prot_type`; `other` is a number on the wire that is none of the enumeration's.
pub data FileType : Type 0 where
  file directory link unknown : FileType
  other : ℤ → FileType

pub data Result (A : Type 0) : Type 0 where
  ok : A → Result A
  error : (errno_code : ℤ) → Result A

-- `icbinn_prot_errnostat`
abbrev pub ErrnoStat : Type 0
ErrnoStat = Result (Unit {0})

pub record ReaddirArgs : Type 0 where
  pub dir : Bytes
  pub offset : ℕ
  pub count : ℕ

pub record Entry : Type 0 where
  pub name : Bytes
  pub type : FileType

pub record DirList : Type 0 where
  pub entries : List Entry
  pub eof : Bool

-- The `default` arm of this union is void: an error carries no number.
abbrev pub ReaddirRes : Type 0
ReaddirRes = Option DirList

pub record OpenArgs : Type 0 where
  pub name : Bytes
  pub mode : ℕ

pub record StatReply : Type 0 where
  pub size : ℕ
  pub type : FileType

pub record PreadArgs : Type 0 where
  pub fd : ℤ
  pub offset : ℕ
  pub count : ℕ

pub record PwriteArgs : Type 0 where
  pub fd : ℤ
  pub offset : ℕ
  pub bytes : Bytes

-- `type` is an `icbinn_prot_ltype`, a C enumeration, which can hold any `int`.
pub record LockArgs : Type 0 where
  pub fd : ℤ
  pub type : ℤ

pub record RenameArgs : Type 0 where
  pub from : Bytes
  pub to : Bytes

pub record FtruncateArgs : Type 0 where
  pub fd : ℤ
  pub length : ℕ

-- `src` is an `icbinn_prot_randsrc`, and can hold any `int`.
pub record RandArgs : Type 0 where
  pub count : ℕ
  pub src : ℤ

pub record FallocateArgs : Type 0 where
  pub fd : ℤ
  pub mode : ℤ
  pub offset : ℕ
  pub length : ℕ

pub record SymlinkArgs : Type 0 where
  pub oldpath : Bytes
  pub newpath : Bytes

pub record ReadlinkArgs : Type 0 where
  pub path : Bytes
  pub bufsz : ℕ

-- The `default` arm of this union is void too.
abbrev pub RandRes : Type 0
RandRes = Option Bytes

pub record StatfsReply : Type 0 where
  pub bsize : ℕ
  pub blocks : ℕ
  pub bfree : ℕ
  pub bavail : ℕ

-- The procedures of ICBINN_PROT_PROGRAM with their arguments.
pub data Request : Type 0 where
  null : Request
  readdir : ReaddirArgs → Request
  stat : Bytes → Request
  open_file : OpenArgs → Request
  lock : LockArgs → Request
  pread : PreadArgs → Request
  pwrite : PwriteArgs → Request
  close : ℤ → Request
  mkdir : Bytes → Request
  rmdir : Bytes → Request
  rename : RenameArgs → Request
  unlink : Bytes → Request
  ftruncate : FtruncateArgs → Request
  rand : RandArgs → Request
  fallocate : FallocateArgs → Request
  symlink : SymlinkArgs → Request
  readlink : ReadlinkArgs → Request
  statfs : Bytes → Request
  fsync : ℤ → Request

-- The result types of the procedures.
pub data Response : Type 0 where
  void : Response
  listing : ReaddirRes → Response
  attributes : Result StatReply → Response
  opened : Result ℤ → Response
  chunk : Result Bytes → Response
  status : ErrnoStat → Response
  random : RandRes → Response
  space : Result StatfsReply → Response
