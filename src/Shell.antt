-- ===== src/Shell.antt =====
-- libicbinn/client: the command-line client. The state of a command is the connection, the machine
-- that the client runs on, and the lines that have been printed.
pub mod Commands
pub mod Parse
pub mod Interact
pub mod Main
pub mod Peers
pub mod Tidy
pub mod Ending
pub mod Arguments
pub mod Matching
pub mod Words
pub mod Getting
pub mod Listing
pub mod Putting
pub mod Back
use icbinn.Common.{ℕ, zero, suc, ℤ, pos, Bytes, List, Bool}
use icbinn.Kernel.{Sys}

-- The local calls of `cmd_get` and `cmd_put`, a parameter.
pub record Local (L : Type 0) : Type 0 where
  pub open_file : Bytes → (flags : ℕ) → L → Sys ℕ × L
  pub read : (fd count : ℕ) → L → Sys Bytes × L
  pub write : (fd : ℕ) → Bytes → L → Sys ℕ × L
  pub close : (fd : ℕ) → L → L

-- What the commands print to the standard output.
pub data Line : Type 0 where
  listed : (type : ℕ) (name : Bytes) → Line
  described : (path : Bytes) (type size : ℕ) → Line
  -- the help text of a command
  help_of : (name : Bytes) → Line
  -- "?Invalid command" or "?Ambiguous command"
  no_command : Line
  wrong_count : (found expected : ℕ) → Line
  -- to the standard error output
  returns_error : Line
  succeeded : Line

pub record Session (S L : Type 0) : Type 0 where
  pub conn : S
  pub local : L
  pub printed : List Line

-- 'f', 'd', 'l' and 'u'
unfoldable pub icb_type_to_char : ℤ → ℕ
icb_type_to_char (pos zero) = 102
icb_type_to_char (pos (suc zero)) = 100
icb_type_to_char (pos (suc (suc zero))) = 108
icb_type_to_char _ = 117
