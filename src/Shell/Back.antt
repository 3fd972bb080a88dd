-- ===== src/Shell/Back.antt =====
-- `cmd_put` and then `cmd_get` of the same remote file, over a connection to a server's handlers.
use Prim.Native.Nat.{bit_or}
use icbinn.Common.{
  ℕ, ◌+◌, ◌^◌, ◌<◌, ◌≡◌, subst, ℤ, pos, Bytes, [], is_negative, false, some, length, arith,
}
use icbinn.Protocol.{max_data}
use icbinn.Kernel.{Kernel, returned}
use icbinn.Kernel.RegularFile.{ReadsAs, WritesAs}
use icbinn.Server.State.{Server}
use icbinn.Server.Files.{pread_1_svc, pwrite_1_svc, rdonly, wronly, creat, trunc}
use icbinn.Client.Stubs.{Stubs}
use icbinn.Client.Calls.{icbinn_open, icbinn_lock, icbinn_close}
use icbinn.Wire.Link.{Carries}
use icbinn.Shell.{Local, Session}
use icbinn.Shell.Commands.{cmd_get, cmd_put}
use icbinn.Shell.Putting.{Streams, cmd_put-copies}
use icbinn.Shell.Getting.{Appends, cmd_get-copies}

-- For the path, the server opens `ifd` again, grants a lock on the descriptor `locks`, and then
-- reads through `ifd` what the file held before.
pub record Reopens {W S : Type 0} (k : Kernel W) (icb : Stubs S) (server : S → Server W)
    (content : W → Bytes) (path : Bytes) (locks ifd : ℤ) : Type 0 where
  pub opened : (c : S) → (icbinn_open icb path rdonly c).0 ≡ ifd
  pub locked : (c : S) → (icbinn_lock icb locks (pos 0) (icbinn_open icb path rdonly c).1).0 ≡ pos 0
  pub readable :
      (c : S)
      → ReadsAs k ifd
          (content (server c).world)
          (server (icbinn_lock icb locks (pos 0) (icbinn_open icb path rdonly c).1).1).world

-- The local path is created, or emptied, as the descriptor's file.
pub record Creates {L : Type 0} (os : Local L) (path : Bytes) (fd : ℕ) (written : L → Bytes)
    : Type 0 where
  pub created : (l : L) → (os.open_file path (bit_or (bit_or wronly creat) trunc) l).0 ≡ returned fd
  pub empty : (l : L) → written (os.open_file path (bit_or (bit_or wronly creat) trunc) l).1 ≡ []

module _ {W S L : Type 0} (k : Kernel W) (icb : Stubs S) (server : S → Server W)
    (reads : Carries server icb.pread_1 (pread_1_svc k))
    (writes : Carries server icb.pwrite_1 (pwrite_1_svc k)) (os : Local L) (fd : ℕ)
    (left : L → Bytes) (source : Streams os fd left) (copy_fd : ℕ) (written : L → Bytes)
    (target : Appends os copy_fd written) (ifd again : ℤ) (content : W → Bytes)
    (file : WritesAs k ifd content)
    (closed : (c : S)
      → content (server (icbinn_close icb ifd c).1).world ≡ content (server c).world) where
  -- Where `cmd_put` has opened a local file, which gives `bytes` from front to back, and the
  -- remote file at a path, which is then empty, and the lock that it asks for is granted, over a
  -- connection that carries PREAD and PWRITE to the server's handlers, to a remote file that takes
  -- every byte, keeps its content when it is closed, and whenever the path is opened again and
  -- locked reads as what it holds, and where a second local path can be created as a file that
  -- takes every byte: with fuel of more than the number of bytes, of which there are less than 2 ^
  -- 63 - 65536, `cmd_put` to the path ends and returns 0, `cmd_get` from the path in the session
  -- that it leaves ends and returns 0, and the second local file then holds `bytes`.
  pub cmd_get-cmd_put :
      (fuel : ℕ) (junk_fd : ℤ) (buf from path to bytes : Bytes) (s : Session S L)
      → let (found, l) = os.open_file from rdonly s.local in
        let (opened, c1) = icbinn_open icb path (bit_or (bit_or wronly creat) trunc) s.conn in
        let (locked, c2) = icbinn_lock icb (pos fd) (pos 1) c1 in
        found ≡ returned fd
        → opened ≡ ifd
        → is_negative ifd ≡ false
        → locked ≡ pos 0
        → left l ≡ bytes
        → content (server c2).world ≡ []
        → Reopens k icb server content path junk_fd again
        → is_negative again ≡ false
        → Creates os to copy_fd written
        → length bytes < fuel
        → length bytes + max_data < 2 ^ 63
        → (s' s'' : Session S L) × (cmd_put icb os fuel from path s ≡ some (pos 0, s'))
          × (cmd_get icb os fuel junk_fd buf path to s' ≡ some (pos 0, s''))
          × (written s''.local ≡ bytes)
  cmd_get-cmd_put fuel junk_fd buf from path to bytes s found opened valid locked source_is new
        reopens valid_again creates enough low =
      let (s', put_it, holds) =
        cmd_put-copies k icb server writes os fd left source ifd content file closed fuel from path
          bytes s found opened valid locked source_is new enough (omega arith) in
      let c2 = (icbinn_lock icb junk_fd (pos 0) (icbinn_open icb path rdonly s'.conn).1).1 in
      let readable : ReadsAs k again bytes (server c2).world =
        subst (λ x. ReadsAs k again x (server c2).world) holds (reopens.readable s'.conn) in
      let (s'', got_it, copied) =
        cmd_get-copies k icb server reads os copy_fd written target again bytes low fuel junk_fd buf
          path to s' (reopens.opened s'.conn) valid_again (reopens.locked s'.conn)
          (creates.created s'.local) (creates.empty s'.local) readable enough in
      (s', s'', put_it, got_it, copied)
