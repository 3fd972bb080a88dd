-- ===== src/Suite/Program.antt =====
-- libicbinn/test/test.c, `test` and `main`: the order of the tests, the options, the connection and
-- the status of the process.
pub mod Ending
use icbinn.Common.{
  ℕ, suc, ◌+◌, ◌-◌, ◌%◌, ℤ, pos, negsuc, minus_one, is_nonzero, Bytes, Bool, true, false, not,
  Option, none, some, List, [], ◌∷◌, ◌==◌, if◌then◌else◌,
}
use icbinn.Kernel.Process.{Proc}
use icbinn.Server.State.{Run, done, ◌>>=◌}
use icbinn.Client.Connection.{
  Net, Icbinn, icbinn_clnt_create_tcp, icbinn_clnt_create_v4v, icbinn_clnt_destroy,
}
use icbinn.Client.Stubs.{Stubs}
use icbinn.Client.Calls.{StatBuf, Dirent}
use icbinn.Suite.{
  failure, passed, test_null, test_cleanup, test_mkdir, test_rmdir, test_renamedir, test_fileio,
  test_renamefile, test_unlink, test_ftruncate, test_stat, test_lock, test_readdir, test_rand,
}

-- What `qsort` makes of an array with a function that compares, and what the arrays and structures
-- of the tests hold before they are set.
pub record Around : Type 0 where
  pub qsort : (Dirent → Dirent → ℤ) → List Dirent → List Dirent
  pub buf : Bytes
  pub stat_buf : StatBuf

abbrev pub Test : Type 0 → Type 0
Test S = S → Run (ℤ × S)

-- The macro TEST, one after the other.
unfoldable pub run_tests : {S : Type 0} → List (Test S) → Test S
run_tests [] s = done (passed s)
run_tests {S} (a ∷ rest) s =
    let more = run_tests rest in
    a s >>= λ (out : ℤ × S). if is_nonzero out.0 then done (failure out.1) else more out.1

abbrev pub plain : {S : Type 0} → (S → ℤ × S) → Test S
plain a s = done (a s)

module _ {S : Type 0} (m : Around) (icb : Stubs S) where
  abbrev pub tests : List (Test S)
  tests =
      plain (test_null icb)
      ∷ plain (test_cleanup icb)
      ∷ plain (test_mkdir icb)
      ∷ plain (test_rmdir icb)
      ∷ plain (test_renamedir icb)
      ∷ plain (test_fileio icb m.buf)
      ∷ plain (test_renamefile icb)
      ∷ plain (test_unlink icb)
      ∷ plain (test_ftruncate icb)
      ∷ plain (test_mkdir icb)
      ∷ plain (test_fileio icb m.buf)
      ∷ plain (test_stat icb m.stat_buf)
      ∷ plain (test_lock icb)
      ∷ test_readdir icb m.qsort
      ∷ plain (test_rand icb m.buf)
      ∷ plain (test_cleanup icb)
      ∷ []

  unfoldable pub test : Test S
  unfolding run_tests
  test = run_tests tests

-- What `getopt` returns with `atoi (optarg)` or `optarg`.
pub data Opt : Type 0 where
  in_domain with_port : ℤ → Opt
  on_host : Bytes → Opt
  unknown : Opt

pub record Vars : Type 0 where
  pub domid : ℤ
  pub port : ℤ
  pub host : Option Bytes
  pub dflag : ℕ
  pub hflag : ℕ

abbrev pub unset : Vars
unset = record { domid = pos 0; port = pos 0; host = none; dflag = 0; hflag = 0 }

-- `none` is `usage`, which exits.
unfoldable pub parse_opts : List Opt → Vars → Option Vars
parse_opts [] v = some v
parse_opts (in_domain domid ∷ opts) v =
    parse_opts opts (record v { domid = domid; dflag = suc v.dflag })
parse_opts (with_port port ∷ opts) v = parse_opts opts (record v { port = port })
parse_opts (on_host host ∷ opts) v =
    parse_opts opts (record v { host = some host; hflag = suc v.hflag })
parse_opts (unknown ∷ opts) v = none

abbrev xor : Bool → Bool → Bool
xor true b = not b
xor false b = b

-- `!dflag ^ !!hflag`
abbrev pub one_missing : Vars → Bool
one_missing v = xor (v.dflag == 0) (not (v.hflag == 0))

-- The status of a process whose `main` returns this number, or that calls `exit` with it.
unfoldable pub exit_status : ℤ → ℕ
exit_status (pos n) = n % 256
exit_status (negsuc n) = 255 - n % 256

module _ {S W : Type 0} (net : Net W) (have_v4v : Bool) (stubs : Icbinn → Stubs S)
    (conn : Icbinn → S) (m : Around) where
  unfoldable pub connect_peer : Vars → Proc W → Run (Option Icbinn × Proc W)
  connect_peer v p =
      if v.dflag == 0
      then icbinn_clnt_create_tcp net v.host v.port p
      else icbinn_clnt_create_v4v net have_v4v v.domid v.port p

  -- With what came of the attempt.
  unfoldable pub test_peer : Option Icbinn × Proc W → Run (ℕ × Proc W)
  unfolding exit_status
  test_peer (none, p) = done (exit_status (pos 1), p)
  test_peer (some icb, p) = test m (stubs icb) (conn icb) >>= λ (out : ℤ × S).
      done (exit_status out.0, icbinn_clnt_destroy net (some icb) p)

  -- The status of the process, and what it leaves.
  unfoldable pub test_main : List Opt → Proc W → Run (ℕ × Proc W)
  unfolding parse_opts connect_peer test_peer exit_status
  test_main opts p = elim (parse_opts opts unset) [
    | none ↦ done (exit_status (pos 1), p)
    | some v ↦
        if one_missing v
        then done (exit_status (pos 1), p)
        else (connect_peer v p >>= λ (out : Option Icbinn × Proc W). test_peer out)
  ]
