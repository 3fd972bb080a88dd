-- ===== src/Shell/Commands.antt =====
-- libicbinn/client/get.c, put.c, ls.c, stat.c and the commands that make one call. A command takes
-- its arguments without its own name, and returns its result with the new session; `none` is a loop
-- that still runs when the fuel is spent.
use Prim.Native.Nat.{bit_or}
use icbinn.Common.{
  ℕ, zero, suc, ◌+◌, ℤ, pos, minus_one, is_negative, is_number, is_nonzero, pos_part, Bytes, true,
  Option, none, some, [], ◌∷◌, ◌++◌, take, length, ◌==◌, if◌then◌else◌,
}
use icbinn.Protocol.{max_data}
use icbinn.Kernel.{Sys, returned, failed}
use icbinn.Server.Files.{rdonly, wronly, creat, trunc}
use icbinn.Client.Stubs.{Stubs}
use icbinn.Client.Calls.{
  Dirent, StatBuf, icbinn_null, icbinn_open, icbinn_lock, icbinn_close, icbinn_mkdir, icbinn_rmdir,
  icbinn_unlink, icbinn_rename, icbinn_stat, icbinn_readent,
}
use icbinn.Client.Transfer.{icbinn_pread, icbinn_pwrite}
use icbinn.Fuse.{stored_or, first_or}
use icbinn.Shell.{Local, listed, described, Session, icb_type_to_char}

module _ {S L : Type 0} (icb : Stubs S) (os : Local L) where
  abbrev Outcome : Type 0
  Outcome = ℤ × Session S L

  -- A command that is one call of the library.
  abbrev one_call : (S → ℤ × S) → Session S L → Outcome
  one_call f s = let (ret, conn) = f s.conn in (ret, record s { conn = conn })

  unfoldable pub cmd_null : Session S L → Outcome
  cmd_null s = one_call (icbinn_null icb) s

  unfoldable pub cmd_mkdir : Bytes → Session S L → Outcome
  cmd_mkdir path s = one_call (icbinn_mkdir icb path) s

  unfoldable pub cmd_rmdir : Bytes → Session S L → Outcome
  cmd_rmdir path s = one_call (icbinn_rmdir icb path) s

  unfoldable pub cmd_rm : Bytes → Session S L → Outcome
  cmd_rm path s = one_call (icbinn_unlink icb path) s

  unfoldable pub cmd_rename : (from to : Bytes) → Session S L → Outcome
  cmd_rename from to s = one_call (icbinn_rename icb from to) s

  -- `junk` is what the variable `buf` holds before the call sets it.
  unfoldable pub cmd_stat : StatBuf → Bytes → Session S L → Outcome
  cmd_stat junk path s =
      let (ret, stored, conn) = icbinn_stat icb (some path) true s.conn in
      let buf = stored_or stored junk in
      let line = described path (icb_type_to_char buf.type) buf.size in
      if is_nonzero ret
      then (minus_one, record s { conn = conn })
      else (pos 0, record s { conn = conn; printed = s.printed ++ line ∷ [] })

  unfoldable pub ls_loop : Bytes → (fuel i : ℕ) → Dirent → Session S L → Option Outcome
  ls_loop path zero i buf s = none
  ls_loop path (suc fuel) i buf s =
      let (ret, found, conn) = icbinn_readent icb path i s.conn in
      let buf' = first_or found buf in
      let line = listed (icb_type_to_char buf'.type) buf'.name in
      let rest =
        ls_loop path fuel (suc i) buf'
          (record s { conn = conn; printed = s.printed ++ line ∷ [] }) in
      if is_nonzero ret then some (pos 0, record s { conn = conn }) else rest

  unfoldable pub cmd_ls : (fuel : ℕ) → Dirent → Bytes → Session S L → Option Outcome
  unfolding ls_loop
  cmd_ls fuel buf path s = ls_loop path fuel 0 buf s

  -- `icbinn_close`, whose result the commands do not look at
  abbrev pub shut : (ifd : ℤ) → Session S L → Session S L
  shut ifd s = record s { conn = (icbinn_close icb ifd s.conn).1 }

  abbrev pub shut_local : (fd : ℕ) → Session S L → Session S L
  shut_local fd s = record s { local = os.close fd s.local }

  -- `write (fd, buf, red) != red`
  abbrev pub wrote : ℕ → Sys ℕ → ℤ
  wrote red (returned n) = if n == red then pos 0 else minus_one
  wrote red (failed errno) = minus_one

  -- The loop of `cmd_get` with the code behind it; `buf` is the static buffer.
  unfoldable pub get_loop : (fd : ℕ) (ifd : ℤ) (fuel o : ℕ) → Bytes → Session S L → Option Outcome
  get_loop fd ifd zero o buf s = none
  get_loop fd ifd (suc fuel) o buf s =
      let (red, filled) = icbinn_pread icb ifd max_data o (record { buf = buf; conn = s.conn }) in
      let s1 = record s { conn = filled.conn } in
      let n = pos_part red in
      let (out, l) = os.write fd (take n filled.buf) s1.local in
      let s2 = record s1 { local = l } in
      let rest = get_loop fd ifd fuel (o + n) filled.buf s2 in
      if n == 0
      then some (if is_nonzero red then minus_one else pos 0, shut ifd (shut_local fd s1))
      else if is_negative (wrote n out)
      then some (minus_one, shut ifd (shut_local fd s2))
      else rest

  -- `junk_fd` is what the variable `fd`, which is locked before it is set, holds.
  unfoldable pub cmd_get :
      (fuel : ℕ) (junk_fd : ℤ) (buf : Bytes) (from to : Bytes) → Session S L → Option Outcome
  unfolding get_loop
  cmd_get fuel junk_fd buf from to s =
      let (ifd, conn1) = icbinn_open icb from rdonly s.conn in
      let (locked, conn2) = icbinn_lock icb junk_fd (pos 0) conn1 in
      let s2 = record s { conn = conn2 } in
      let (opened, l) = os.open_file to (bit_or (bit_or wronly creat) trunc) s.local in
      let s3 = record s2 { local = l } in
      if is_negative ifd
      then some (minus_one, record s { conn = conn1 })
      else if is_nonzero locked
      then some (minus_one, shut ifd s2)
      else elim opened [
        | failed errno ↦ some (minus_one, shut ifd s3)
        | returned fd ↦ get_loop fd ifd fuel 0 buf s3
      ]

  -- The loop of `cmd_put` with the code behind it.
  unfoldable pub put_loop : (fd : ℕ) (ifd : ℤ) (fuel o : ℕ) → Session S L → Option Outcome
  put_loop fd ifd zero o s = none
  put_loop fd ifd (suc fuel) o s =
      let (red, l) = os.read fd max_data s.local in
      let s1 = record s { local = l } in
      elim red [
        | failed errno ↦ some (minus_one, shut_local fd (shut ifd s1))
        | returned bytes ↦
            let n = length bytes in
            let (ret, conn) = icbinn_pwrite icb ifd bytes n o s1.conn in
            let s2 = record s1 { conn = conn } in
            let rest = put_loop fd ifd fuel (o + n) s2 in
            if n == 0
            then some (pos 0, shut_local fd (shut ifd s1))
            else if is_number ret n
            then rest
            else some (minus_one, shut_local fd (shut ifd s2))
      ]

  -- It locks the local descriptor's number at the server.
  unfoldable pub cmd_put : (fuel : ℕ) (from to : Bytes) → Session S L → Option Outcome
  unfolding put_loop
  cmd_put fuel from to s =
      let (opened, l) = os.open_file from rdonly s.local in
      let s1 = record s { local = l } in
      elim opened [
        | failed errno ↦ some (minus_one, s1)
        | returned fd ↦
            let (ifd, conn2) = icbinn_open icb to (bit_or (bit_or wronly creat) trunc) s1.conn in
            let s2 = record s1 { conn = conn2 } in
            let (locked, conn3) = icbinn_lock icb (pos fd) (pos 1) s2.conn in
            let s3 = record s2 { conn = conn3 } in
            if is_negative ifd
            then some (minus_one, shut_local fd s2)
            else if is_nonzero locked
            then some (minus_one, shut_local fd (shut ifd s3))
            else put_loop fd ifd fuel 0 s3
      ]
