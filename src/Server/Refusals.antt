-- ===== src/Server/Refusals.antt =====
-- Requests that the server turns down before it makes any system call.
use icbinn.Common.{ℕ, ◌≤◌, ◌<◌, ◌≡◌, ◌⊎◌, pos, Bytes, none, length, arith}
use icbinn.Protocol.{
  Request, Response, error, void, listing, attributes, opened, chunk, status, random, space,
  max_path_len, max_data,
}
use icbinn.Kernel.{Kernel, enoent, einval}
use icbinn.Server.State.{Server, done, get_pathname_len}
use icbinn.Server.Files.{
  stat_1_svc, statfs_1_svc, open_1_svc, readlink_1_svc, pread_1_svc, pwrite_1_svc, rand_1_svc,
}
use icbinn.Server.Names.{symlink_1_svc, mkdir_1_svc, rmdir_1_svc, rename_1_svc, unlink_1_svc}
use icbinn.Server.Dispatch.{serve}

abbrev IsLong : Bytes → Type 0
IsLong path = max_path_len ≤ length path

-- A path of the request, other than the directory of READDIR, has `max_path_len` bytes or more.
abbrev pub HasLongPath : Request → Type 0
HasLongPath (Request.stat path) = IsLong path
HasLongPath (Request.open_file argp) = IsLong argp.name
HasLongPath (Request.mkdir path) = IsLong path
HasLongPath (Request.rmdir path) = IsLong path
HasLongPath (Request.rename argp) = IsLong argp.from ⊎ IsLong argp.to
HasLongPath (Request.unlink path) = IsLong path
HasLongPath (Request.symlink argp) = IsLong argp.oldpath ⊎ IsLong argp.newpath
HasLongPath (Request.readlink argp) = IsLong argp.path
HasLongPath (Request.statfs path) = IsLong path
HasLongPath _ = ⊥

-- The request would move more than `max_data` bytes.
abbrev pub IsOversized : Request → Type 0
IsOversized (Request.pread argp) = max_data < argp.count
IsOversized (Request.pwrite argp) = max_data < length argp.bytes
IsOversized (Request.rand argp) = max_data < argp.count
IsOversized (Request.readlink argp) = (length argp.path < max_path_len) × (max_data < argp.bufsz)
IsOversized _ = ⊥

-- The response that reports an error number, in the result type of the request.
abbrev pub refusal : ℕ → Request → Response
refusal errno Request.null = void
refusal errno (Request.readdir argp) = listing none
refusal errno (Request.stat path) = attributes (error (pos errno))
refusal errno (Request.open_file argp) = opened (error (pos errno))
refusal errno (Request.pread argp) = chunk (error (pos errno))
refusal errno (Request.rand argp) = random none
refusal errno (Request.readlink argp) = chunk (error (pos errno))
refusal errno (Request.statfs path) = space (error (pos errno))
refusal errno _ = status (error (pos errno))

module _ {W : Type 0} (k : Kernel W) (s : Server W) where
  -- A request with a path of `max_path_len` bytes or more, READDIR aside, is answered with ENOENT,
  -- and no state changes: neither the server's nor the machine's.
  pub serve_long_path :
      (req : Request) → HasLongPath req → serve k req s ≡ done (refusal enoent req, s)
  unfolding serve get_pathname_len stat_1_svc statfs_1_svc open_1_svc readlink_1_svc symlink_1_svc
      mkdir_1_svc rmdir_1_svc rename_1_svc unlink_1_svc
  serve_long_path (Request.stat path) h = ground arith
  serve_long_path (Request.open_file argp) h = ground arith
  serve_long_path (Request.rename argp) h = ground arith
  serve_long_path (Request.symlink argp) h = ground arith
  serve_long_path _ h = ground arith

  -- A request that would move more than `max_data` bytes (PREAD, PWRITE, RAND, and READLINK of a
  -- path that is not too long) is answered with EINVAL, which RAND reports without its number, and
  -- no state changes: neither the server's nor the machine's.
  pub serve_oversized :
      (req : Request) → IsOversized req → serve k req s ≡ done (refusal einval req, s)
  unfolding serve get_pathname_len pread_1_svc pwrite_1_svc rand_1_svc readlink_1_svc
  serve_oversized (Request.pread argp) h = ground arith
  serve_oversized _ h = ground arith
