-- ===== src/Daemon/Messages.antt =====
-- libicbinn/server/util.c: what `info`, `warning` and `fatal` come to.
use icbinn.Common.{ℕ, Bytes, ◌≡◌, refl, codes, take, if◌then◌else◌}
use icbinn.Server.State.{Run, done, exited, flag_set}

-- MESSAGE_INFO, MESSAGE_WARNING, MESSAGE_ERROR and MESSAGE_FATAL
abbrev pub message_info : ℕ
message_info = 1

abbrev pub message_warning : ℕ
message_warning = 2

abbrev pub message_error : ℕ
message_error = 4

abbrev pub message_fatal : ℕ
message_fatal = 8

unfoldable pub level_of : (flags : ℕ) → Bytes
level_of flags =
    if flag_set flags message_info
    then codes "Info"
    else if flag_set flags message_warning
    then codes "Warning"
    else if flag_set flags message_error
    then codes "Error"
    else if flag_set flags message_fatal
    then codes "Fatal"
    else codes "Unknown"

-- `syslog` is a parameter, and so is the text that `vsnprintf` makes, of which `buf` takes 1023
-- bytes.
unfoldable pub message :
    {W : Type 0}
    → (syslog : (level file function : Bytes) (line : ℕ) (text : Bytes) → W → W)
    → (flags : ℕ) (file function : Bytes) (line : ℕ) (text : Bytes) → W
    → Run W
unfolding level_of
message syslog flags file function line text w =
    let w' = syslog (level_of flags) file function line (take 1023 text) w in
    if flag_set flags message_fatal then exited else done w'

-- A message ends the process if it is fatal, and otherwise is only written down.
message_ends :
    {W : Type 0} (syslog : (level file function : Bytes) (line : ℕ) (text : Bytes) → W → W)
    → (file function : Bytes) (line : ℕ) (text : Bytes) (w : W)
    → (message syslog message_fatal file function line text w ≡ exited)
      × (message syslog message_warning file function line text w
          ≡ done (syslog (codes "Warning") file function line (take 1023 text) w))
unfolding message level_of
message_ends syslog file function line text w = (refl, refl)
