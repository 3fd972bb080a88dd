-- ===== src/Fuse/Truncate.antt =====
-- TRUNCATE of icbinn-fs.c over a connection to the handlers that it calls.
use icbinn.Common.{
  ℕ, zero, suc, some, subst, ◌<◌, ◌≡◌, refl, ap, ◌∙◌, ℤ, pos, negate, is_negative, Bytes, true,
  length, inl, inr, arith,
}
use icbinn.Protocol.{max_path_len}
use icbinn.Kernel.{Kernel, Sys, Sys-cases, returned, failed}
use icbinn.Kernel.Documented.{HasErrno}
use icbinn.Server.State.{Server, conclude}
use icbinn.Server.Files.{open_flags, wronly, open_1_svc, ftruncate_1_svc, close_1_svc}
use icbinn.Client.Stubs.{Stubs}
use icbinn.Client.Calls.{status_code, icbinn_open, icbinn_ftruncate, icbinn_close}
use icbinn.Wire.Link.{Carries}
use icbinn.Wire.Errors.{c_result, open-kernel}
use icbinn.Fuse.{icbinnfs_truncate}

module _ {W : Type 0} (k : Kernel W) (offset : ℕ) where
  -- What TRUNCATE comes to once `open` has given its result and its machine: a number, and the
  -- machine behind it.
  abbrev pub truncated : Sys ℕ → W → ℤ × W
  truncated (failed errno) w = (negate (pos errno), w)
  truncated (returned fd) w =
      let (r, w') = k.ftruncate (pos fd) offset w in
      (c_result (λ _. pos 0) r, (k.close (pos fd) w').1)

status_code-conclude :
    (r : Sys (Unit {0})) → status_code (some (conclude (λ _. tt) r)) ≡ c_result (λ _. pos 0) r
status_code-conclude (returned a) = refl
status_code-conclude (failed errno) = refl

negative : (errno : ℕ) → 0 < errno → is_negative (negate (pos errno)) ≡ true
negative zero h = absurd (omega arith)
negative (suc n) h = refl

module _ {W S : Type 0} (k : Kernel W) (icb : Stubs S) (server : S → Server W)
    (opening : Carries server icb.open_1 (open_1_svc k))
    (cutting : Carries server icb.ftruncate_1 (ftruncate_1_svc k))
    (closing : Carries server icb.close_1 (close_1_svc k)) where
  ftruncate-kernel :
      (fd : ℤ) (offset : ℕ) (s : S)
      → let (rv, s') = icbinn_ftruncate icb fd offset s in
        let (r, w) = k.ftruncate fd offset (server s).world in
        (rv ≡ c_result (λ _. pos 0) r) × ((server s').world ≡ w)
  unfolding icbinn_ftruncate ftruncate_1_svc
  ftruncate-kernel fd offset s =
      let d = cutting (record { fd = fd; length = offset }) s in
      (
        ap status_code d.replied ∙ status_code-conclude (k.ftruncate fd offset (server s).world).0,
        ap (λ v. v.world) d.advanced,
      )

  close-kernel :
      (fd : ℤ) (s : S) → (server (icbinn_close icb fd s).1).world ≡ (k.close fd (server s).world).1
  unfolding icbinn_close close_1_svc
  close-kernel fd s = ap (λ v. v.world) (closing fd s).advanced

  -- Over a connection that carries OPEN, FTRUNCATE and CLOSE to the server's handlers, for a path
  -- below `max_path_len` bytes and where a failed `open` has an error number: TRUNCATE of the FUSE
  -- file system returns the error number of the server's `open` with a minus sign, if that fails,
  -- and leaves the machine so; otherwise it returns the result of `ftruncate` on the new
  -- descriptor, 0 or the error number with a minus sign, and has closed the descriptor in either
  -- case.
  pub truncate-truncated :
      (path : Bytes) (offset : ℕ) (s : S)
      → length path < max_path_len
      → HasErrno (k.open_file path (open_flags wronly) 0o600 (server s).world).0
      → let (r, w) = k.open_file path (open_flags wronly) 0o600 (server s).world in
        let (rv, s') = icbinnfs_truncate icb path offset s in
        let (number, w') = truncated k offset r w in (rv ≡ number) × ((server s').world ≡ w')
  unfolding icbinnfs_truncate
  truncate-truncated path offset s short some_errno =
      let (fd, left) = open-kernel k icb server opening path wronly s short in
      let s1 = (icbinn_open icb path wronly s).1 in
      elim (Sys-cases (k.open_file path (open_flags wronly) 0o600 (server s).world).0) [
        | inl (errno, e) ↦
            let failed' = fd ∙ ap (c_result pos) e in
            rw (e, failed', negative errno (subst HasErrno e some_errno)) (refl, left)
        | inr (n, e) ↦
            let (rv, cut) = ftruncate-kernel (pos n) offset s1 in
            let closed = close-kernel (pos n) (icbinn_ftruncate icb (pos n) offset s1).1 in
            rw (e, fd ∙ ap (c_result pos) e)
              (
                rv ∙ ap (λ w. c_result (λ _. pos 0) (k.ftruncate (pos n) offset w).0) left,
                closed
                    ∙ ap (λ w. (k.close (pos n) w).1)
                        (cut ∙ ap (λ w. (k.ftruncate (pos n) offset w).1) left),
              )
      ]
