-- ===== src/Shell/Main.antt =====
-- libicbinn/client/client.c, `main`: the options, the connection, and what becomes of it.
use icbinn.Common.{
  ℕ, suc, ◌-◌, ℤ, pos, Bytes, Bool, true, false, not, Option, none, some, List, [], ◌∷◌, take, ◌==◌,
  if◌then◌else◌,
}
use icbinn.Kernel.Process.{Proc}
use icbinn.Server.State.{Run, done, ◌>>=◌}
use icbinn.Client.Connection.{
  Net, Icbinn, icbinn_clnt_create_tcp, icbinn_clnt_create_v4v, icbinn_clnt_destroy,
}
use icbinn.Client.Stubs.{Stubs}
use icbinn.Shell.{Local, Session}
use icbinn.Shell.Interact.{Memory, Next, goes_on, quits, unfinished, overran, run_cmd, line_loop}

-- What `getopt` returns: an option with `atoi (optarg)` or `optarg`, or any other.
pub data Opt : Type 0 where
  in_domain with_port : ℤ → Opt
  on_host with_cmd : Bytes → Opt
  unknown : Opt

-- The variables of `main` that the options set.
pub record Vars : Type 0 where
  pub domid : ℤ
  pub port : ℤ
  pub host : Option Bytes
  pub cmd : Option Bytes
  pub dflag : ℕ
  pub hflag : ℕ

abbrev pub unset : Vars
unset = record { domid = pos 0; port = pos 0; host = none; cmd = none; dflag = 0; hflag = 0 }

-- The loop over the options; `none` is `usage`, which exits.
unfoldable pub parse_opts : List Opt → Vars → Option Vars
parse_opts [] v = some v
parse_opts (in_domain domid ∷ opts) v =
    parse_opts opts (record v { domid = domid; dflag = suc v.dflag })
parse_opts (with_port port ∷ opts) v = parse_opts opts (record v { port = port })
parse_opts (on_host host ∷ opts) v =
    parse_opts opts (record v { host = some host; hflag = suc v.hflag })
parse_opts (with_cmd cmd ∷ opts) v = parse_opts opts (record v { cmd = some cmd })
parse_opts (unknown ∷ opts) v = none

abbrev xor : Bool → Bool → Bool
xor true b = not b
xor false b = b

-- `!dflag ^ !!hflag`
unfoldable pub wrong_usage : (dflag hflag : ℕ) → Bool
wrong_usage dflag hflag = xor (dflag == 0) (not (hflag == 0))

-- Which of the two functions is called, and for whom.
pub data Peer : Type 0 where
  domain : (domid : ℤ) → Peer
  tcp_host : Option Bytes → Peer

unfoldable pub peer_of : Vars → Option Peer
unfolding wrong_usage
peer_of v =
    if wrong_usage v.dflag v.hflag
    then none
    else some (if v.dflag == 0 then tcp_host v.host else domain v.domid)

-- `strncpy` into `line` and the zero behind it
abbrev line_size : ℕ
line_size = 1024

-- The end of the process, with its status and the session it had; an access behind `argv`; or a
-- loop that has spent its fuel.
pub data Main (S L W : Type 0) : Type 0 where
  exits : (status : ℕ) → Option (Session S L) → Proc W → Main S L W
  crashes runs_on : Main S L W

-- `stubs` and `conn` are the functions and the state of the RPC library for a connection.
module _ {S L W : Type 0} (net : Net W) (have_v4v : Bool) (stubs : Icbinn → Stubs S)
    (conn : Icbinn → S) (os : Local L) (m : Memory) where
  unfoldable pub connect_peer : Peer → (port : ℤ) → Proc W → Run (Option Icbinn × Proc W)
  connect_peer (domain domid) port p = icbinn_clnt_create_v4v net have_v4v domid port p
  connect_peer (tcp_host host) port p = icbinn_clnt_create_tcp net host port p

  -- The one command, or the loop.
  unfoldable pub use_connection :
      Icbinn → (cmd : Option Bytes) → (input : List (Option Bytes)) → L → Next S L
  use_connection icb cmd input local =
      let s : Session S L = record { conn = conn icb; local = local; printed = [] } in
      elim cmd [
        | none ↦ line_loop (stubs icb) os m input s
        | some cmd ↦ run_cmd (stubs icb) os m (take (line_size - 1) cmd) s
      ]

  abbrev destroyed : Icbinn → Proc W → Session S L → Main S L W
  destroyed icb p s = exits 0 (some s) (icbinn_clnt_destroy net (some icb) p)

  -- With the connection.
  unfoldable pub finish : Icbinn → Proc W → Next S L → Main S L W
  finish icb p (goes_on ret s) = destroyed icb p s
  finish icb p (quits s) = destroyed icb p s
  finish icb p unfinished = runs_on
  finish icb p overran = crashes

  abbrev refused : Proc W → Main S L W
  refused p = exits 1 none p

  unfoldable pub with_connection :
      (cmd : Option Bytes) (input : List (Option Bytes)) → L → Option Icbinn × Proc W → Main S L W
  unfolding use_connection finish
  with_connection cmd input local (none, p) = refused p
  with_connection cmd input local (some icb, p) = finish icb p (use_connection icb cmd input local)

  unfoldable pub client_main :
      List Opt → (input : List (Option Bytes)) → L → Proc W → Run (Main S L W)
  unfolding parse_opts peer_of connect_peer with_connection
  client_main opts input local p = elim (parse_opts opts unset) [
    | none ↦ done (refused p)
    | some v ↦ elim (peer_of v) [
      | none ↦ done (refused p)
      | some peer ↦ connect_peer peer v.port p >>= λ (out : Option Icbinn × Proc W).
          done (with_connection v.cmd input local out)
    ]
  ]
