-- ===== src/Shell/Tidy.antt =====
-- The local files that the commands of libicbinn/client open: which are open after a command.
pub mod Lines
use Prim.Native.Nat.{bit_or}
use icbinn.Common.{
  ℕ, zero, suc, ◌+◌, ◌≡◌, refl, true, ap, ◌∙◌, ℤ, pos, is_negative, is_number, is_nonzero, pos_part,
  Bytes, Option, none, some, List, [], ◌∷◌, take, length, ◌==◌, if_both, Bool-cases, inl, inr,
}
use icbinn.Protocol.{max_data}
use icbinn.Kernel.{Sys, Sys-cases, returned, failed}
use icbinn.Kernel.Process.{remove_fd, remove_fd-head}
use icbinn.Server.Files.{rdonly, wronly, creat, trunc}
use icbinn.Client.Stubs.{Stubs}
use icbinn.Client.Calls.{Dirent, StatBuf, icbinn_open, icbinn_lock, icbinn_readent, icbinn_stat}
use icbinn.Client.Transfer.{icbinn_pread, icbinn_pwrite}
use icbinn.Shell.{Local, Session}
use icbinn.Shell.Parse.{
  Handler, get, help, ls, mkdir, null, put, quit, rename, rm, rmdir, stat, Cmd, cmd_tab, words,
  parse_cmd, Parsed, nothing, overrun, invalid, incorrect, calls,
}
use icbinn.Shell.Commands.{
  cmd_null, cmd_mkdir, cmd_rmdir, cmd_rm, cmd_rename, cmd_stat, ls_loop, cmd_ls, get_loop, cmd_get,
  put_loop, cmd_put, wrote,
}
use icbinn.Shell.Interact.{
  Memory, Next, goes_on, quits, unfinished, overran, cmd_help, call_handler, act_on, run_cmd,
  line_loop, ended_within, report,
}

-- `opened` are the descriptors that the local calls have opened and not closed.
pub record Tracks {L : Type 0} (os : Local L) (opened : L → List ℕ) : Type 0 where
  pub opens :
      (path : Bytes) (flags fd : ℕ) (l : L)
      → (os.open_file path flags l).0 ≡ returned fd
      → opened (os.open_file path flags l).1 ≡ fd ∷ opened l
  pub refuses :
      (path : Bytes) (flags errno : ℕ) (l : L)
      → (os.open_file path flags l).0 ≡ failed errno
      → opened (os.open_file path flags l).1 ≡ opened l
  pub reads : (fd n : ℕ) (l : L) → opened (os.read fd n l).1 ≡ opened l
  pub writes : (fd : ℕ) (bytes : Bytes) (l : L) → opened (os.write fd bytes l).1 ≡ opened l
  pub closes : (fd : ℕ) (l : L) → opened (os.close fd l) ≡ remove_fd fd (opened l)

module _ {S L : Type 0} (icb : Stubs S) (os : Local L) (opened : L → List ℕ)
    (tracks : Tracks os opened) (fds : List ℕ) where
  -- A command that has ended has these descriptors open.
  abbrev Has : Option (ℤ × Session S L) → Type 0
  Has none = Unit
  Has (some (ret, s)) = opened s.local ≡ fds

  abbrev pub HasNext : Next S L → Type 0
  HasNext (goes_on ret s) = opened s.local ≡ fds
  HasNext (quits s) = opened s.local ≡ fds
  HasNext unfinished = Unit
  HasNext overran = Unit

  shut : (fd : ℕ) (l : L) → opened l ≡ fd ∷ fds → opened (os.close fd l) ≡ fds
  shut fd l h = tracks.closes fd l ∙ ap (remove_fd fd) h ∙ remove_fd-head fd fds

  get_loop-Has :
      (fd : ℕ) (ifd : ℤ) (fuel o : ℕ) (buf : Bytes) (s : Session S L)
      → opened s.local ≡ fd ∷ fds
      → Has (get_loop icb os fd ifd fuel o buf s)
  unfolding get_loop
  get_loop-Has fd ifd zero o buf s h = tt
  get_loop-Has fd ifd (suc fuel) o buf s h =
      let (red, filled) = icbinn_pread icb ifd max_data o (record { buf = buf; conn = s.conn }) in
      let n = pos_part red in
      let (out, l) = os.write fd (take n filled.buf) s.local in
      let h' : opened l ≡ fd ∷ fds = tracks.writes fd (take n filled.buf) s.local ∙ h in
      if_both Has (n == 0) (shut fd s.local h) (
        if_both Has (is_negative (wrote icb os n out)) (shut fd l h')
          (get_loop-Has fd ifd fuel (o + n) filled.buf _ h'))

  put_loop-Has :
      (fd : ℕ) (ifd : ℤ) (fuel o : ℕ) (s : Session S L)
      → opened s.local ≡ fd ∷ fds
      → Has (put_loop icb os fd ifd fuel o s)
  unfolding put_loop
  put_loop-Has fd ifd zero o s h = tt
  put_loop-Has fd ifd (suc fuel) o s h =
      let l = (os.read fd max_data s.local).1 in
      let h' : opened l ≡ fd ∷ fds = tracks.reads fd max_data s.local ∙ h in
      elim (Sys-cases (os.read fd max_data s.local).0) [
        | inl (errno, e) ↦ rw (e, put_loop) (shut fd l h')
        | inr (bytes, e) ↦
            let n = length bytes in
            rw (e, put_loop)
              (if_both Has (n == 0) (shut fd l h') (
                if_both Has (is_number (icbinn_pwrite icb ifd bytes n o s.conn).0 n)
                  (put_loop-Has fd ifd fuel (o + n) _ h') (shut fd l h')))
      ]

  cmd_get-Has :
      (fuel : ℕ) (junk_fd : ℤ) (buf from to : Bytes) (s : Session S L)
      → opened s.local ≡ fds
      → Has (cmd_get icb os fuel junk_fd buf from to s)
  unfolding cmd_get
  cmd_get-Has fuel junk_fd buf from to s h =
      let (ifd, conn1) = icbinn_open icb from rdonly s.conn in
      let flags = bit_or (bit_or wronly creat) trunc in
      if_both Has (is_negative ifd) h (
        if_both Has (is_nonzero (icbinn_lock icb junk_fd (pos 0) conn1).0) h
          (elim (Sys-cases (os.open_file to flags s.local).0) [
            | inl (errno, e) ↦ rw e (tracks.refuses to flags errno s.local e ∙ h)
            | inr (fd, e) ↦ rw e (
                get_loop-Has fd ifd fuel 0 buf _
                  (tracks.opens to flags fd s.local e ∙ ap (λ x. fd ∷ x) h))
          ]))

  cmd_put-Has :
      (fuel : ℕ) (from to : Bytes) (s : Session S L)
      → opened s.local ≡ fds
      → Has (cmd_put icb os fuel from to s)
  unfolding cmd_put
  cmd_put-Has fuel from to s h = elim (Sys-cases (os.open_file from rdonly s.local).0) [
    | inl (errno, e) ↦ rw (e, cmd_put) (tracks.refuses from rdonly errno s.local e ∙ h)
    | inr (fd, e) ↦
        let l = (os.open_file from rdonly s.local).1 in
        let h' : opened l ≡ fd ∷ fds = tracks.opens from rdonly fd s.local e ∙ ap (λ x. fd ∷ x) h in
        let (ifd, conn) = icbinn_open icb to (bit_or (bit_or wronly creat) trunc) s.conn in
        rw (e, cmd_put)
          (if_both Has (is_negative ifd) (shut fd l h') (
            if_both Has (is_nonzero (icbinn_lock icb (pos fd) (pos 1) conn).0) (shut fd l h')
              (put_loop-Has fd ifd fuel 0 _ h')))
  ]

  ls_loop-Has :
      (path : Bytes) (fuel i : ℕ) (buf : Dirent) (s : Session S L)
      → opened s.local ≡ fds
      → Has (ls_loop icb os path fuel i buf s)
  unfolding ls_loop
  ls_loop-Has path zero i buf s h = tt
  ls_loop-Has path (suc fuel) i buf s h =
      if_both Has (is_nonzero (icbinn_readent icb path i s.conn).0) h
        (ls_loop-Has path fuel (suc i) _ _ h)

  help-local : (cs : List Cmd) (s : Session S L) → (cmd_help cs s).local ≡ s.local
  unfolding cmd_help
  help-local [] s = refl
  help-local (c ∷ cs) s = help-local cs _

  stat-Has :
      (buf : StatBuf) (path : Bytes) (s : Session S L)
      → opened s.local ≡ fds
      → opened (cmd_stat icb os buf path s).1.local ≡ fds
  unfolding cmd_stat
  stat-Has buf path s h =
      if_both (λ (out : ℤ × Session S L). opened out.1.local ≡ fds)
        (is_nonzero (icbinn_stat icb (some path) true s.conn).0) h h

  within-HasNext : (o : Option (ℤ × Session S L)) → Has o → HasNext (ended_within o)
  within-HasNext none h = tt
  within-HasNext (some (ret, s)) h = h
