-- ===== src/Shell/Interact.antt =====
-- libicbinn/client/client.c: a command from its line to its handler, and the loop over lines.
use icbinn.Common.{
  ℕ, ℤ, pos, is_nonzero, Bytes, Option, none, some, List, [], ◌∷◌, ◌++◌, length, ◌==◌,
  if◌then◌else◌,
}
use icbinn.Client.Stubs.{Stubs}
use icbinn.Client.Calls.{Dirent, StatBuf}
use icbinn.Shell.{Local, Line, Session, help_of, no_command, wrong_count, returns_error, succeeded}
use icbinn.Shell.Parse.{
  Handler, get, help, ls, mkdir, null, put, quit, rename, rm, rmdir, stat, Cmd, cmd_tab, words,
  parse_cmd, Parsed, nothing, overrun, invalid, incorrect, calls,
}
use icbinn.Shell.Commands.{
  cmd_null, cmd_mkdir, cmd_rmdir, cmd_rm, cmd_rename, cmd_stat, cmd_ls, cmd_get, cmd_put,
}

-- What the variables of the commands hold before they are set, the static buffer of `cmd_get`, and
-- the fuel of the loops of a command.
pub record Memory : Type 0 where
  pub fuel : ℕ
  pub stat_buf : StatBuf
  pub dirent : Dirent
  pub junk_fd : ℤ
  pub buf : Bytes

-- How a command ends: with a result, by `exit`, not within its fuel, or by an access behind `argv`.
pub data Next (S L : Type 0) : Type 0 where
  goes_on : (ret : ℤ) → Session S L → Next S L
  quits : Session S L → Next S L
  unfinished : Next S L
  overran : Next S L

module _ {S L : Type 0} where
  abbrev shows : Line → Session S L → Session S L
  shows line s = record s { printed = s.printed ++ line ∷ [] }

  unfoldable pub cmd_help : List Cmd → Session S L → Session S L
  cmd_help [] s = s
  cmd_help (c ∷ cs) s = cmd_help cs (shows (help_of c.name) s)

  abbrev ended : ℤ × Session S L → Next S L
  ended (ret, s) = goes_on ret s

  abbrev pub ended_within : Option (ℤ × Session S L) → Next S L
  ended_within none = unfinished
  ended_within (some (ret, s)) = goes_on ret s

module _ {S L : Type 0} (icb : Stubs S) (os : Local L) (m : Memory) where
  -- `cmd->handler (argc, argv)`, without the name of the command. `quit` destroys the connection
  -- before it exits, as the end of `main` does.
  unfoldable pub call_handler : Handler → List Bytes → Session S L → Next S L
  unfolding cmd_help
  call_handler get (from ∷ to ∷ []) s =
      ended_within (cmd_get icb os m.fuel m.junk_fd m.buf from to s)
  call_handler help [] s = goes_on (pos 0) (cmd_help cmd_tab s)
  call_handler ls (path ∷ []) s = ended_within (cmd_ls icb os m.fuel m.dirent path s)
  call_handler mkdir (path ∷ []) s = ended (cmd_mkdir icb os path s)
  call_handler null [] s = ended (cmd_null icb os s)
  call_handler put (from ∷ to ∷ []) s = ended_within (cmd_put icb os m.fuel from to s)
  call_handler quit [] s = quits s
  call_handler rename (from ∷ to ∷ []) s = ended (cmd_rename icb os from to s)
  call_handler rm (path ∷ []) s = ended (cmd_rm icb os path s)
  call_handler rmdir (path ∷ []) s = ended (cmd_rmdir icb os path s)
  call_handler stat (path ∷ []) s = ended (cmd_stat icb os m.stat_buf path s)
  call_handler _ args s = overran

  -- "Command returns an error" or "Command succeeded"
  abbrev pub report : Next S L → Next S L
  report (goes_on ret s) =
      goes_on ret (shows (if is_nonzero ret then returns_error else succeeded) s)
  report next = next

  -- What `parse_cmd` does with a line, `found` being the number of its words.
  unfoldable pub act_on : (found : ℕ) → Parsed → Session S L → Next S L
  unfolding call_handler
  act_on found nothing s = goes_on (pos 0) s
  act_on found overrun s = overran
  act_on found invalid s = goes_on (pos 0) (shows no_command s)
  act_on found (incorrect c) s =
      goes_on (pos 0) (shows (help_of c.name) (shows (wrong_count found c.nargs) s))
  act_on found (calls handler args) s = report (call_handler handler args s)

  unfoldable pub run_cmd : Bytes → Session S L → Next S L
  unfolding act_on
  run_cmd cmd_string s = act_on (length (words none cmd_string)) (parse_cmd cmd_tab cmd_string) s

  -- The loop of `main`. An item is what `fgets` reads, or `none` for an error before the end of the
  -- file; at the end of the list is the end of the file.
  unfoldable pub line_loop : List (Option Bytes) → Session S L → Next S L
  unfolding run_cmd
  line_loop [] s = goes_on (pos 0) s
  line_loop (none ∷ lines) s = line_loop lines s
  line_loop (some [] ∷ lines) s = line_loop lines s
  line_loop (some (c ∷ line) ∷ lines) s =
      let rest = line_loop lines in
      if c == 10 then rest s else elim (run_cmd (c ∷ line) s) [
        | goes_on ret s' ↦ rest s'
        | quits s' ↦ quits s'
        | unfinished ↦ unfinished
        | overran ↦ overran
      ]
