-- ===== src/Suite/Program/Ending.antt =====
-- libicbinn/test/test.c, `main`: how a run of the tests ends.
use icbinn.Common.{
  ℕ, ◌≤◌, ◌≡◌, ◌⊎◌, ℤ, pos, minus_one, Bytes, true, false, Option, none, some, List, [], ◌∷◌,
  length,
}
use icbinn.Kernel.Process.{Proc}
use icbinn.Server.State.{done}
use icbinn.Server.Outcomes.{Returns}
use icbinn.Client.Connection.{Net, Icbinn}
use icbinn.Client.Stubs.{Stubs}
use icbinn.Client.Calls.{icbinn_readent}
use icbinn.Suite.Program.{Around, Test, test, Vars, one_missing, connect_peer}

-- No answer to a call for one entry brings more than one.
abbrev pub BringsOne : {S : Type 0} → Stubs S → Type 0
BringsOne {S} icb =
    (dir : Bytes) (offset : ℕ) (s : S) → length (icbinn_readent icb dir offset s).1 ≤ 1

-- 0 or -1
abbrev pub IsVerdict : ℤ → Type 0
IsVerdict ret = (ret ≡ pos 0) ⊎ (ret ≡ minus_one)

abbrev AllReturn : {S : Type 0} → List (Test S) → Type 0
AllReturn [] = Unit
AllReturn {S} (a ∷ rest) = ((s : S) → Returns (a s)) × AllReturn rest

module _ {S W : Type 0} (net : Net W) (stubs : Icbinn → Stubs S) (conn : Icbinn → S)
    (m : Around) where
  -- The status says what came of the tests on a connection.
  abbrev pub Reports : (icb : Icbinn) → (status : ℕ) → S → Type 0
  Reports icb status s =
      ((test m (stubs icb) (conn icb) ≡ done (pos 0, s)) × (status ≡ 0))
      ⊎ ((test m (stubs icb) (conn icb) ≡ done (minus_one, s)) × (status ≡ 255))

  -- What `connect_peer` came to: status 1 without a connection, and otherwise the status of the
  -- tests on the connection, and the descriptors that were open before.
  abbrev pub EndsWith : (fds : List ℕ) → Option Icbinn × Proc W → ℕ × Proc W → Type 0
  EndsWith fds (none, p) out = out ≡ (1, p)
  EndsWith fds (some icb, p) out = (s : S) × Reports icb out.0 s × (out.1.fds ≡ fds)

  -- How a run of the program ends with the variables that the options have set: at once with
  -- status 1, if there are none or they do not name one peer; otherwise with what the attempt to
  -- connect came to.
  abbrev pub EndsFrom : Option Vars → Proc W → ℕ × Proc W → Type 0
  EndsFrom none p out = out ≡ (1, p)
  EndsFrom (some v) p out =
      ((one_missing v ≡ true) × (out ≡ (1, p)))
      ⊎ ((one_missing v ≡ false)
          × ((attempt : Option Icbinn × Proc W) × (connect_peer net true stubs conn m v p
                ≡ done attempt)
              × EndsWith p.fds attempt out))
