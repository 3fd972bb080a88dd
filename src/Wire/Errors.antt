-- ===== src/Wire/Errors.antt =====
-- What becomes of the kernel's result on its way through a handler and the client library.
use icbinn.Common.{ℕ, ◌≡◌, refl, ap, ◌∙◌, ◌<◌, ℤ, negate, pos, Bytes, some, length, arith}
use icbinn.Protocol.{OpenArgs, max_path_len}
use icbinn.Kernel.{Kernel, Sys, returned, failed}
use icbinn.Server.State.{Server, conclude, get_pathname_len}
use icbinn.Server.Files.{open_1_svc, open_flags, fallocate_1_svc}
use icbinn.Client.Stubs.{Stubs}
use icbinn.Client.Calls.{icbinn_open, open_code, icbinn_fallocate, fallocate_code}
use icbinn.Wire.Link.{Carries}

-- The convention of the library: a result of the kernel, or its error number with a minus sign.
abbrev pub c_result : {A : Type 0} → (A → ℤ) → Sys A → ℤ
c_result value (returned a) = value a
c_result value (failed errno) = negate (pos errno)

open_code-conclude : (r : Sys ℕ) → open_code (some (conclude pos r)) ≡ c_result pos r
unfolding open_code
open_code-conclude (returned fd) = refl
open_code-conclude (failed errno) = refl

module _ {W S : Type 0} (k : Kernel W) (icb : Stubs S) (server : S → Server W) where
  -- the handler, for a path that is not too long
  opens :
      (argp : OpenArgs) (v : Server W)
      → length argp.name < max_path_len
      → let (r, w) = k.open_file argp.name (open_flags argp.mode) 0o600 v.world in
        open_1_svc k argp v ≡ (conclude pos r, record v { world = w })
  unfolding open_1_svc get_pathname_len
  opens argp v short = ground arith

  -- Over a connection that carries OPEN to the server's handler, for a path below `max_path_len`
  -- bytes, `icbinn_open` returns the descriptor that the server's `open` returns, with the flags
  -- of the mode and the permissions 0600, or its error number with a minus sign, and the server's
  -- machine is as that call leaves it.
  pub open-kernel :
      Carries server icb.open_1 (open_1_svc k)
      → (name : Bytes) (mode : ℕ) (s : S) → length name < max_path_len
      → let (fd, s') = icbinn_open icb name mode s in
        let (r, w) = k.open_file name (open_flags mode) 0o600 (server s).world in
        (fd ≡ c_result pos r) × ((server s').world ≡ w)
  unfolding icbinn_open
  open-kernel carries name mode s short =
      let argp : OpenArgs = record { name = name; mode = mode } in
      let d = carries argp s in
      let q = opens argp (server s) short in
      (
        ap open_code (d.replied ∙ ap (λ r. some r.0) q)
            ∙ open_code-conclude (k.open_file name (open_flags mode) 0o600 (server s).world).0,
        ap (λ v. v.world) (d.advanced ∙ ap (λ r. r.1) q),
      )

  -- Over a connection that carries FALLOCATE to the server's handler, `icbinn_fallocate` returns
  -- the error number of a `fallocate` that fails at the server without a minus sign.
  pub fallocate_sign :
      Carries server icb.fallocate_1 (fallocate_1_svc k)
      → (fd mode : ℤ) (offset n errno : ℕ) (s : S)
      → (k.fallocate fd mode offset n (server s).world).0 ≡ failed errno
      → (icbinn_fallocate icb fd mode offset n s).0 ≡ pos errno
  unfolding icbinn_fallocate fallocate_1_svc fallocate_code
  fallocate_sign carries fd mode offset n errno s e =
      let d = carries (record { fd = fd; mode = mode; offset = offset; length = n }) s in
      rw (d.replied, e) refl
