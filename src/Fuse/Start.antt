-- ===== src/Fuse/Start.antt =====
-- icbinn-fuse/src/icbinn-fs.c, `main`: the options, the connection, and the call of FUSE.
use icbinn.Common.{
  ℕ, zero, suc, ◌+◌, ◌-◌, ℤ, pos, Bytes, Bool, not, codes, Option, none, some, List, [], ◌∷◌,
  length, replicate, get_elem?, ◌==◌, if◌then◌else◌,
}
use icbinn.Kernel.Process.{Proc}
use icbinn.Server.State.{Run, done, fault, ◌>>=◌}
use icbinn.Client.Connection.{
  Net, Icbinn, icbinn_clnt_create_tcp, icbinn_clnt_create_v4v, icbinn_clnt_destroy,
}

-- What `getopt` returns: an option with `atoi (optarg)` or `optarg`, or any other.
pub data Opt : Type 0 where
  in_domain with_port : ℤ → Opt
  on_host : Bytes → Opt
  unknown : Opt

pub record Vars : Type 0 where
  pub domid : ℤ
  pub port : ℤ
  pub host : Option Bytes
  pub dflag : ℕ
  pub hflag : ℕ

abbrev pub unset : Vars
unset = record { domid = pos 0; port = pos 0; host = none; dflag = 0; hflag = 0 }

-- The loop over the options. An unknown one is passed over.
unfoldable pub parse_opts : List Opt → Vars → Vars
parse_opts [] v = v
parse_opts (in_domain domid ∷ opts) v =
    parse_opts opts (record v { domid = domid; dflag = suc v.dflag })
parse_opts (with_port port ∷ opts) v = parse_opts opts (record v { port = port })
parse_opts (on_host host ∷ opts) v =
    parse_opts opts (record v { host = some host; hflag = suc v.hflag })
parse_opts (unknown ∷ opts) v = parse_opts opts v

-- An array of pointers, with NULL in the places that are not set.
abbrev pub Pointers : Type 0
Pointers = List (Option Bytes)

-- `array[i] = value;`
unfoldable pub store : (i : ℕ) → Bytes → Pointers → Run Pointers
store i value [] = fault
store zero value (x ∷ array) = done (some value ∷ array)
store (suc i) value (x ∷ array) = store i value array >>= λ (rest : Pointers). done (x ∷ rest)

-- The loop that copies, `n` more times.
unfoldable pub copy_args : (argv : List Bytes) (optind n i : ℕ) → Pointers → Run Pointers
unfolding store
copy_args argv optind zero i fuseargv = done fuseargv
copy_args argv optind (suc n) i fuseargv = elim (get_elem? argv (i + optind - 1)) [
  | none ↦ fault
  | some arg ↦ store (1 + i) arg fuseargv >>= copy_args argv optind n (suc i)
]

-- `fuseargv`, for an `argv` without the NULL at its end; `calloc` succeeds.
unfoldable pub fuse_args : (argv : List Bytes) (optind : ℕ) → Run Pointers
unfolding copy_args
fuse_args argv optind =
    let fuseargc = 1 + length argv - (optind - 1) in
    let fuseargv : Pointers = replicate fuseargc none in
    elim (get_elem? argv 0) [
      | none ↦ fault
      | some name ↦
          store 0 name fuseargv >>= store 1 (codes "-s") >>= copy_args argv optind (fuseargc - 2) 1
    ]

-- `!dflag ^ !!hflag`: none of the two, or both
unfoldable pub flags_clash : (dflag hflag : ℕ) → Bool
flags_clash dflag hflag = if dflag == 0 then hflag == 0 else not (hflag == 0)

-- The end of the process: its status, and what `fuse_main` was called with.
pub record Exit (W : Type 0) : Type 0 where
  pub status : ℤ
  pub mounted : Option Pointers
  pub proc : Proc W

module _ {W : Type 0} (net : Net W) (have_v4v : Bool)
    (fuse_main : Icbinn → Pointers → W → ℤ × W) where
  -- With the connection.
  unfoldable pub mount : Pointers → Option Icbinn × Proc W → Exit W
  mount fuseargv (none, p) = record { status = pos 1; mounted = none; proc = p }
  mount fuseargv (some icb, p) =
      let (rv, w) = fuse_main icb fuseargv p.world in
      record {
        status = rv;
        mounted = some fuseargv;
        proc = icbinn_clnt_destroy net (some icb) (record p { world = w });
      }

  unfoldable pub fuse_program :
      (argv : List Bytes) (optind : ℕ) (opts : List Opt) → Proc W → Run (Exit W)
  unfolding fuse_args mount parse_opts flags_clash
  fuse_program argv optind opts p =
      let v = parse_opts opts unset in
      if flags_clash v.dflag v.hflag
      then done (record { status = pos 1; mounted = none; proc = p })
      else fuse_args argv optind >>= λ (fuseargv : Pointers).
          (if v.dflag == 0
            then icbinn_clnt_create_tcp net v.host v.port p
            else icbinn_clnt_create_v4v net have_v4v v.domid v.port p)
          >>= λ (out : Option Icbinn × Proc W). done (mount fuseargv out)
