-- ===== src/Fuse/Attributes.antt =====
-- GETATTR of icbinn-fs.c over a connection to the STAT handler.
use icbinn.Common.{
  ℕ, ◌≡◌, refl, ap, ◌∙◌, ◌<◌, ℤ, pos, is_negative, Bytes, Bool, Bool-cases, true, false, ◌||◌, leb,
  Option, none, some, if◌then◌else◌, length, inl, inr, arith,
}
use icbinn.Protocol.{StatReply, ok, max_path_len}
use icbinn.Kernel.{Kernel, Stat, returned, s_islnk, s_isdir, s_isreg}
use icbinn.Server.State.{Server, get_pathname_len, set_icbinn_prot_type}
use icbinn.Server.Files.{stat_1_svc}
use icbinn.Client.Stubs.{Stubs}
use icbinn.Client.Calls.{StatBuf, icbinn_stat, stat_code}
use icbinn.Wire.Link.{Carries}
use icbinn.Fuse.{icbinnfs_getattr, file_attributes, stored_or}

-- A link, a directory or a regular file.
abbrev pub has_type : ℕ → Bool
has_type mode = s_islnk mode || s_isdir mode || s_isreg mode

-- Two files of the same type and size.
pub record IsLike (a b : Stat) : Type 0 where
  pub links : s_islnk a.mode ≡ s_islnk b.mode
  pub directories : s_isdir a.mode ≡ s_isdir b.mode
  pub regular : s_isreg a.mode ≡ s_isreg b.mode
  pub sizes : a.size ≡ b.size

-- the reply of the STAT handler for a file
abbrev stat_reply : Stat → StatReply
stat_reply sbuf = record { size = sbuf.size; type = set_icbinn_prot_type sbuf.mode }

-- what FUSE's side makes of a reply
abbrev taken : StatBuf → StatReply → ℤ × Option Stat
taken ist reply =
    let (rv, stored) = stat_code (some (ok reply)) in
    if is_negative rv then (rv, none) else file_attributes (stored_or stored ist)

taken-stat_reply :
    (ist : StatBuf) (sbuf : Stat)
    → has_type sbuf.mode ≡ true
    → (st : Stat) × (taken ist (stat_reply sbuf) ≡ (pos 0, some st)) × IsLike st sbuf
unfolding stat_code set_icbinn_prot_type
taken-stat_reply ist sbuf h = elim (Bool-cases (s_islnk sbuf.mode)) [
  | inl l ↦
      let d : s_isdir sbuf.mode ≡ false = ground arith in
      let r : s_isreg sbuf.mode ≡ false = ground arith in
      (
        record { mode = 0o120644; size = sbuf.size },
        rw l refl,
        record { links = rw l refl; directories = rw d refl; regular = rw r refl; sizes = refl },
      )
  | inr l ↦ elim (Bool-cases (s_isdir sbuf.mode)) [
    | inl d ↦
        let r : s_isreg sbuf.mode ≡ false = ground arith in
        (
          record { mode = 0o40755; size = sbuf.size },
          rw (l, d) refl,
          record { links = rw l refl; directories = rw d refl; regular = rw r refl; sizes = refl },
        )
    | inr d ↦
        let r : s_isreg sbuf.mode ≡ true = ground arith in
        (
          record { mode = 0o100644; size = sbuf.size },
          rw (l, d, r) refl,
          record { links = rw l refl; directories = rw d refl; regular = rw r refl; sizes = refl },
        )
  ]
]

with_state :
    {A B C : Type 0} (b : Bool) (x y : A × B) (c : C)
    → let out : A × B × C = if b then (x.0, x.1, c) else (y.0, y.1, c) in
      let pair : A × B = if b then x else y in (out.0 ≡ pair.0) × (out.1 ≡ pair.1)
with_state true x y c = (refl, refl)
with_state false x y c = (refl, refl)

module _ {W S : Type 0} (k : Kernel W) (icb : Stubs S) (server : S → Server W)
    (carries : Carries server icb.stat_1 (stat_1_svc k)) where
  answered :
      (path : Bytes) (v : Server W) (sbuf : Stat)
      → length path < max_path_len
      → (k.lstat path v.world).0 ≡ returned sbuf
      → (stat_1_svc k path v).0 ≡ ok (stat_reply sbuf)
  unfolding stat_1_svc get_pathname_len
  answered path v sbuf short e =
      let f : leb max_path_len (length path) ≡ false = ground arith in rw (f, e) refl

  -- Over a connection that carries STAT to the server's handler, for a path below `max_path_len`
  -- bytes at which the server's `lstat` finds a link, a directory or a regular file, GETATTR of
  -- the FUSE file system returns 0 and attributes of the same type and size.
  pub getattr-IsLike :
      (ist : StatBuf) (path : Bytes) (sbuf : Stat) (s : S)
      → length path < max_path_len
      → (k.lstat path (server s).world).0 ≡ returned sbuf
      → has_type sbuf.mode ≡ true
      → let (rv, stored, s') = icbinnfs_getattr icb ist path s in
        (st : Stat) × (rv ≡ pos 0) × (stored ≡ some st) × IsLike st sbuf
  unfolding icbinnfs_getattr icbinn_stat
  getattr-IsLike ist path sbuf s short e h =
      let (st, q, like) = taken-stat_reply ist sbuf h in
      let r : (icb.stat_1 path s).0 ≡ some (ok (stat_reply sbuf)) =
        (carries path s).replied ∙ ap some (answered path (server s) sbuf short e) in
      let (rv, stored) = stat_code (icb.stat_1 path s).0 in
      let (p, p') =
        with_state (is_negative rv) (rv, none) (file_attributes (stored_or stored ist))
          (icb.stat_1 path s).1 in
      let t : (let out : ℤ × Option Stat =
              if is_negative rv then (rv, none) else file_attributes (stored_or stored ist) in
            out)
          ≡ (pos 0, some st) =
        rw r q in
      (st, p ∙ ap (λ x. x.0) t, p' ∙ ap (λ x. x.1) t, like)
