-- ===== src/Daemon/Options.antt =====
-- svc_main.c, `main`: the options.
use icbinn.Common.{
  ℕ, suc, ◌+◌, ◌≤◌, ◌<◌, ◌≡◌, refl, ℤ, pos, Bool, Bool-cases, true, false, ◌&&◌, Option, none, some,
  List, [], ◌∷◌, ◌++◌, append_assoc, append-nil, length, length-append, ltb, leb, ◌==◌,
  if◌then◌else◌, inl, inr, arith,
}
use native.Mathlib.Nat.{add-zero, zero-add}
use icbinn.Protocol.{prot_port}
use icbinn.Server.State.{Run, done, exited, fault, ◌>>=◌}
use icbinn.Server.Outcomes.{Returning}

-- MAX_ICBINN_SOCKETS
abbrev pub max_sockets : ℕ
max_sockets = 16

-- What `getopt` returns: `-p` or `-s` with `atoi (optarg)`, where `optarg` is there; `-t`; or any
-- other.
pub data Flag : Type 0 where
  listen_on : (optarg : Option ℤ) → Flag
  use_tcp : Flag
  unknown : Flag

-- `port[0]` to `port[num_icbinn_sockets - 1]`, and `tflag`.
pub record Config : Type 0 where
  pub port : List ℤ
  pub tflag : ℕ

-- `port[num_icbinn_sockets++] = value;`, a fault outside the array.
abbrev pub store_port : ℤ → Config → Run Config
store_port value c =
    if ltb (length c.port) max_sockets
    then done (record c { port = c.port ++ value ∷ [] })
    else fault

-- The loop over the options. `usage` ends the process, as `fatal` does.
unfoldable pub parse_flags : List Flag → Config → Run Config
parse_flags [] c = done c
parse_flags (listen_on optarg ∷ flags) c =
    let rest = parse_flags flags in
    if length c.port == max_sockets
    then exited
    else elim optarg [ none ↦ exited | some value ↦ store_port value c >>= rest ]
parse_flags (use_tcp ∷ flags) c = parse_flags flags (record c { tflag = suc c.tflag })
parse_flags (unknown ∷ flags) c = exited

-- With no port given, `port[0]` holds what it is set to first. `have_v4v` says how the program was
-- built.
unfoldable pub configure : (have_v4v : Bool) → List Flag → Run Config
unfolding parse_flags
configure have_v4v flags = do
  c ← parse_flags flags (record { port = []; tflag = if have_v4v then 0 else 1 })
  done (if length c.port == 0 then record c { port = pos prot_port ∷ [] } else c)

-- The ports of the options, in their order.
abbrev pub wanted : List Flag → List ℤ
wanted [] = []
wanted (listen_on none ∷ flags) = wanted flags
wanted (listen_on (some value) ∷ flags) = value ∷ wanted flags
wanted (_ ∷ flags) = wanted flags

abbrev pub tcp_flags : List Flag → ℕ
tcp_flags [] = 0
tcp_flags (use_tcp ∷ flags) = suc (tcp_flags flags)
tcp_flags (_ ∷ flags) = tcp_flags flags

-- Every option is known, and has its argument.
abbrev pub are_valid : List Flag → Bool
are_valid [] = true
are_valid (listen_on none ∷ flags) = false
are_valid (listen_on (some value) ∷ flags) = are_valid flags
are_valid (use_tcp ∷ flags) = are_valid flags
are_valid (unknown ∷ flags) = false

parse_flags_lem :
    (flags : List Flag) (c : Config)
    → length c.port ≤ max_sockets
    → parse_flags flags c ≡ (
        if leb (length c.port + length (wanted flags)) max_sockets && are_valid flags
        then done (record { port = c.port ++ wanted flags; tflag = c.tflag + tcp_flags flags })
        else exited)
unfolding parse_flags
parse_flags_lem [] c h =
    let fits : leb (length c.port + 0) max_sockets ≡ true = ground arith in
    rw (fits, append-nil c.port, add-zero c.tflag) refl
parse_flags_lem (listen_on none ∷ flags) c h = ground arith
parse_flags_lem (listen_on (some value) ∷ flags) c h =
    let m = length (wanted flags) in
    elim (Bool-cases (length c.port == max_sockets)) [
      | inl full ↦
          let over : leb (length c.port + suc m) max_sockets ≡ false = ground arith in
          rw (full, over) refl
      | inr more ↦
          let room : ltb (length c.port) max_sockets ≡ true = ground arith in
          let ports = c.port ++ value ∷ [] in
          let size : length ports ≡ suc (length c.port) =
            omega (arith, length-append c.port (value ∷ [])) in
          let ih = parse_flags_lem flags (record c { port = ports }) (ground arith) in
          let shift : length ports + m ≡ length c.port + suc m = omega (arith, size) in
          rw (more, room) (rw (shift, append_assoc c.port (value ∷ []) (wanted flags)) at ih)
    ]
parse_flags_lem (use_tcp ∷ flags) c h =
    let shift : suc c.tflag + tcp_flags flags ≡ c.tflag + suc (tcp_flags flags) = omega arith in
    rw shift at (parse_flags_lem flags (record c { tflag = suc c.tflag }) h)
parse_flags_lem (unknown ∷ flags) c h = ground arith

-- For all options, `main` of the server goes on just if each is known and has its argument and at
-- most 16 ports are given, with these ports in their order, or the default port if none is given,
-- and with the count of `-t` added to the default; otherwise the process ends, and no port is
-- stored outside the array.
pub configure_lem :
    (have_v4v : Bool) (flags : List Flag)
    → configure have_v4v flags ≡ (
        if leb (length (wanted flags)) max_sockets && are_valid flags
        then done (record {
          port = if length (wanted flags) == 0 then pos prot_port ∷ [] else wanted flags;
          tflag = (if have_v4v then 0 else 1) + tcp_flags flags;
        })
        else exited)
unfolding configure
configure_lem have_v4v flags =
    let start : Config = record { port = []; tflag = if have_v4v then 0 else 1 } in
    let p = parse_flags_lem flags start (omega arith) in
    let fits = leb (length (wanted flags)) max_sockets && are_valid flags in
    rw (rw (zero-add (length (wanted flags))) at p)
      (elim (Bool-cases fits) [ inl e ↦ rw e (ground arith) | inr e ↦ rw e refl ])

-- The ports that are listened on.
abbrev pub ports_of : List Flag → List ℤ
ports_of flags = if length (wanted flags) == 0 then pos prot_port ∷ [] else wanted flags

-- What the program goes on with: at least one port, and no more than the arrays hold.
pub configure-fits :
    (have_v4v : Bool) (flags : List Flag)
    → Returning
        (λ (c : Config).
          (c.port ≡ ports_of flags) × (0 < length c.port) × (length c.port ≤ max_sockets))
        (configure have_v4v flags)
configure-fits have_v4v flags = rw (configure_lem have_v4v flags) (ground arith)
