-- ===== src/Shell/Ending.antt =====
-- What a run of the command-line client leaves open.
use icbinn.Common.{ℕ, ◌≡◌, refl, ℤ, Bytes, true, Option-cases, Option, none, some, List, inl, inr}
use icbinn.Kernel.Process.{Proc}
use icbinn.Server.State.{done}
use icbinn.Server.Outcomes.{Returning, bind-Returning, Returns, bind-Returns, Returning-done}
use icbinn.Client.Connection.{Net, Icbinn, icbinn_clnt_destroy}
use icbinn.Client.Closing.{Connected, create_tcp-Connected, create_v4v-Connected}
use icbinn.Client.Allocating.{Allocates, create_tcp-Returns, create_v4v-Returns}
use icbinn.Client.Stubs.{Stubs}
use icbinn.Shell.{Local}
use icbinn.Shell.Interact.{Memory, Next, goes_on, quits, unfinished, overran}
use icbinn.Shell.Main.{
  Opt, unset, parse_opts, peer_of, Peer, domain, tcp_host, Main, exits, crashes, runs_on,
  connect_peer, use_connection, finish, with_connection, client_main,
}
use icbinn.Shell.Tidy.{Tracks, HasNext}
use icbinn.Shell.Tidy.Lines.{run_cmd-Keeps, line_loop-Keeps}

-- A run that has had a session and ended leaves the descriptors that there were, those of
-- connections and those of local files, of which `opened` are the open ones.
abbrev pub Leaves :
    {S L W : Type 0} → (opened : L → List ℕ) → (fds files : List ℕ) → Main S L W → Type 0
Leaves opened fds files (exits status none p) = Unit
Leaves opened fds files (exits status (some s) p) =
    (status ≡ 0) × (p.fds ≡ fds) × (opened s.local ≡ files)
Leaves opened fds files crashes = Unit
Leaves opened fds files runs_on = Unit

module _ {S L W : Type 0} (net : Net W) (stubs : Icbinn → Stubs S) (conn : Icbinn → S)
    (os : Local L) (m : Memory) (opened : L → List ℕ) (tracks : Tracks os opened) where
  connect_peer-Connected :
      (peer : Peer) (port : ℤ) (p : Proc W)
      → Returning (Connected net p.fds) (connect_peer net true stubs conn os m peer port p)
  unfolding connect_peer
  connect_peer-Connected (domain domid) port p = create_v4v-Connected net domid port p
  connect_peer-Connected (tcp_host host) port p = create_tcp-Connected net host port p

  finish-Leaves :
      (fds files : List ℕ) (icb : Icbinn) (p : Proc W) (next : Next S L)
      → (icbinn_clnt_destroy net (some icb) p).fds ≡ fds
      → HasNext (stubs icb) os opened tracks files next
      → Leaves opened fds files (finish net true stubs conn os m icb p next)
  unfolding finish
  finish-Leaves fds files icb p (goes_on ret s) h kept = (refl, h, kept)
  finish-Leaves fds files icb p (quits s) h kept = (refl, h, kept)
  finish-Leaves fds files icb p unfinished h kept = tt
  finish-Leaves fds files icb p overran h kept = tt

  use_connection-Keeps :
      (icb : Icbinn) (cmd : Option Bytes) (input : List (Option Bytes)) (local : L)
      → HasNext
          (stubs icb)
          os
          opened
          tracks
          (opened local)
          (use_connection net true stubs conn os m icb cmd input local)
  unfolding use_connection
  use_connection-Keeps icb none input local =
      line_loop-Keeps (stubs icb) os m opened tracks (opened local) input _ refl
  use_connection-Keeps icb (some cmd) input local =
      run_cmd-Keeps (stubs icb) os m opened tracks (opened local) _ _ refl

  with_connection-Leaves :
      (fds : List ℕ) (cmd : Option Bytes) (input : List (Option Bytes)) (local : L)
      → (out : Option Icbinn × Proc W) → Connected net fds out
      → Leaves opened fds
          (opened local)
          (with_connection net true stubs conn os m cmd input local out)
  unfolding with_connection
  with_connection-Leaves fds cmd input local (none, p) h = tt
  with_connection-Leaves fds cmd input local (some icb, p) h =
      finish-Leaves fds (opened local) icb p _ h (use_connection-Keeps icb cmd input local)

  -- A run that ends, with a session, leaves what was open before.
  client_main-Leaves :
      (opts : List Opt) (input : List (Option Bytes)) (local : L) (p : Proc W)
      → Returning
          (Leaves opened p.fds (opened local))
          (client_main net true stubs conn os m opts input local p)
  unfolding client_main
  client_main-Leaves opts input local p = elim (Option-cases (parse_opts opts unset)) [
    | inl e ↦ rw (e, client_main) tt
    | inr (v, e) ↦ elim (Option-cases (peer_of v)) [
      | inl f ↦ rw (e, f, client_main) tt
      | inr (peer, f) ↦
          rw (e, f, client_main)
            (bind-Returning (Connected net p.fds) (Leaves opened p.fds (opened local))
              (connect_peer net true stubs conn os m peer v.port p) _
              (connect_peer-Connected peer v.port p)
              (λ out h. with_connection-Leaves p.fds v.cmd input local out h))
    ]
  ]

  connect_peer-Returns :
      Allocates net
      → (peer : Peer) (port : ℤ) (p : Proc W)
      → Returns (connect_peer net true stubs conn os m peer port p)
  unfolding connect_peer
  connect_peer-Returns memory (domain domid) port p =
      create_v4v-Returns net memory true domid port p
  connect_peer-Returns memory (tcp_host host) port p = create_tcp-Returns net memory host port p

  main-Returns :
      Allocates net
      → (opts : List Opt) (input : List (Option Bytes)) (local : L) (p : Proc W)
      → Returns (client_main net true stubs conn os m opts input local p)
  unfolding client_main connect_peer
  main-Returns memory opts input local p = elim (Option-cases (parse_opts opts unset)) [
    | inl e ↦ rw (e, client_main) (_, refl)
    | inr (v, e) ↦ elim (Option-cases (peer_of v)) [
      | inl f ↦ rw (e, f, client_main) (_, refl)
      | inr (peer, f) ↦
          rw (e, f, client_main)
            (bind-Returns (connect_peer net true stubs conn os m peer v.port p) _
              (connect_peer-Returns memory peer v.port p) (λ out. (_, refl)))
    ]
  ]

  -- Where `malloc` succeeds, a run of the command-line client, in a build with V4V and with any
  -- options, input and connection, is not aborted. If it has had a session and ends, it does so
  -- with status 0 and leaves the descriptors that were open before: those of connections, and
  -- those of local files, of which `open` adds one unless it fails, `close` takes one away, and
  -- `read` and `write` change nothing.
  pub client_main-closes :
      Allocates net
      → (opts : List Opt) (input : List (Option Bytes)) (local : L) (p : Proc W)
      → (out : Main S L W) × (client_main net true stubs conn os m opts input local p ≡ done out)
        × Leaves opened p.fds (opened local) out
  client_main-closes memory opts input local p =
      let run = client_main net true stubs conn os m opts input local p in
      let (out, e) = main-Returns memory opts input local p in
      (
        out,
        e,
        Returning-done (Leaves opened p.fds (opened local)) run out
            (client_main-Leaves opts input local p) e,
      )
