-- ===== src/Shell/Tidy/Lines.antt =====
-- The local files of libicbinn/client from a command to the end of the input.
use icbinn.Common.{ℕ, ◌≡◌, ap, ◌∙◌, Bytes, Option, none, some, List, [], ◌∷◌, length, ◌==◌, if_both}
use icbinn.Client.Stubs.{Stubs}
use icbinn.Shell.{Local, Session}
use icbinn.Shell.Parse.{
  Handler, get, help, ls, mkdir, null, put, quit, rename, rm, rmdir, stat, cmd_tab, words,
  parse_cmd, Parsed, nothing, overrun, invalid, incorrect, calls,
}
use icbinn.Shell.Commands.{cmd_null, cmd_mkdir, cmd_rmdir, cmd_rm, cmd_rename, cmd_ls}
use icbinn.Shell.Interact.{
  Memory, Next, goes_on, quits, unfinished, overran, call_handler, act_on, run_cmd, line_loop,
  report,
}
use icbinn.Shell.Tidy.{
  Tracks, HasNext, cmd_get-Has, cmd_put-Has, ls_loop-Has, help-local, stat-Has, within-HasNext,
}

module _ {S L : Type 0} (icb : Stubs S) (os : Local L) (m : Memory) (opened : L → List ℕ)
    (tracks : Tracks os opened) (fds : List ℕ) where
  abbrev Keeps : Next S L → Type 0
  Keeps = HasNext icb os opened tracks fds

  report-Keeps : (next : Next S L) → Keeps next → Keeps (report icb os m next)
  report-Keeps (goes_on ret s) h = h
  report-Keeps (quits s) h = h
  report-Keeps unfinished h = h
  report-Keeps overran h = h

  handler-Keeps :
      (handler : Handler) (args : List Bytes) (s : Session S L)
      → opened s.local ≡ fds
      → Keeps (call_handler icb os m handler args s)
  unfolding call_handler cmd_null cmd_mkdir cmd_rmdir cmd_rm cmd_rename cmd_ls
  handler-Keeps get (from ∷ to ∷ []) s h =
      within-HasNext icb os opened tracks fds _
        (cmd_get-Has icb os opened tracks fds m.fuel m.junk_fd m.buf from to s h)
  handler-Keeps help [] s h = ap opened (help-local icb os opened tracks fds cmd_tab s) ∙ h
  handler-Keeps ls (path ∷ []) s h =
      within-HasNext icb os opened tracks fds _
        (ls_loop-Has icb os opened tracks fds path m.fuel 0 m.dirent s h)
  handler-Keeps mkdir (path ∷ []) s h = h
  handler-Keeps null [] s h = h
  handler-Keeps put (from ∷ to ∷ []) s h =
      within-HasNext icb os opened tracks fds _
        (cmd_put-Has icb os opened tracks fds m.fuel from to s h)
  handler-Keeps quit [] s h = h
  handler-Keeps rename (from ∷ to ∷ []) s h = h
  handler-Keeps rm (path ∷ []) s h = h
  handler-Keeps rmdir (path ∷ []) s h = h
  handler-Keeps stat (path ∷ []) s h = stat-Has icb os opened tracks fds m.stat_buf path s h
  handler-Keeps _ args s h = tt

  act_on-Keeps :
      (found : ℕ) (parsed : Parsed) (s : Session S L)
      → opened s.local ≡ fds
      → Keeps (act_on icb os m found parsed s)
  unfolding act_on
  act_on-Keeps found nothing s h = h
  act_on-Keeps found overrun s h = tt
  act_on-Keeps found invalid s h = h
  act_on-Keeps found (incorrect c) s h = h
  act_on-Keeps found (calls handler args) s h =
      report-Keeps (call_handler icb os m handler args s) (handler-Keeps handler args s h)

  pub run_cmd-Keeps :
      (cmd_string : Bytes) (s : Session S L)
      → opened s.local ≡ fds
      → Keeps (run_cmd icb os m cmd_string s)
  unfolding run_cmd
  run_cmd-Keeps cmd_string s h =
      act_on-Keeps (length (words none cmd_string)) (parse_cmd cmd_tab cmd_string) s h

  after-Keeps :
      (next : Next S L) (rest : Session S L → Next S L)
      → Keeps next
      → ((s : Session S L) → opened s.local ≡ fds → Keeps (rest s))
      → Keeps (elim next [
        | goes_on ret s' ↦ rest s'
        | quits s' ↦ quits s'
        | unfinished ↦ unfinished
        | overran ↦ overran
      ])
  after-Keeps (goes_on ret s) rest h go = go s h
  after-Keeps (quits s) rest h go = h
  after-Keeps unfinished rest h go = tt
  after-Keeps overran rest h go = tt

  pub line_loop-Keeps :
      (lines : List (Option Bytes)) (s : Session S L)
      → opened s.local ≡ fds
      → Keeps (line_loop icb os m lines s)
  unfolding line_loop
  line_loop-Keeps [] s h = h
  line_loop-Keeps (none ∷ lines) s h = line_loop-Keeps lines s h
  line_loop-Keeps (some [] ∷ lines) s h = line_loop-Keeps lines s h
  line_loop-Keeps (some (c ∷ line) ∷ lines) s h =
      if_both Keeps (c == 10) (line_loop-Keeps lines s h) (
        after-Keeps (run_cmd icb os m (c ∷ line) s) (line_loop icb os m lines)
          (run_cmd-Keeps (c ∷ line) s h) (line_loop-Keeps lines))
