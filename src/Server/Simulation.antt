-- ===== src/Server/Simulation.antt =====
-- Two machines, one of which is a view of the other: the server's handlers, on the one and on the
-- other.
pub mod Listing
pub mod Handlers
pub mod Requests
use icbinn.Common.{
  ℕ, ◌≡◌, refl, sym, ap, ◌∙◌, ℤ, Bytes, Bool, Bool-cases, length, leb, inl, inr, if◌then◌else◌,
}
use icbinn.Protocol.{Result, max_path_len}
use icbinn.Kernel.{Kernel, Sys, FlockType}
use icbinn.Server.State.{
  Server, Run, done, exited, fault, ◌>>=◌, get_pathname_len, conclude, call, with_path,
}

-- What becomes of the value of a run that returns.
abbrev pub map_run : {A B : Type 0} → (A → B) → Run A → Run B
map_run f (done a) = done (f a)
map_run f exited = exited
map_run f fault = fault

-- A chain of two calls, each of which has a counterpart.
pub map_run-bind :
    {A A' B B' : Type 0} (f : A → A') (g : B → B') (m : Run A) (m' : Run A') (h : A → Run B)
    (h' : A' → Run B')
    → map_run f m ≡ m'
    → ((a : A) → map_run g (h a) ≡ h' (f a))
    → map_run g (m >>= h) ≡ (m' >>= h')
map_run-bind f g (done a) m' h h' e step = step a ∙ ap (λ n. n >>= h') e
map_run-bind f g exited m' h h' e step = ap (λ n. n >>= h') e
map_run-bind f g fault m' h h' e step = ap (λ n. n >>= h') e

module _ {W V : Type 0} (view : W → V) where
  -- A system call and its counterpart: the same result, and machines that correspond.
  abbrev pub Alike : {A : Type 0} → (W → A × W) → (V → A × V) → Type 0
  Alike f f' = (w : W) → ((f w).0 ≡ (f' (view w)).0) × (view (f w).1 ≡ (f' (view w)).1)

  pub record Simulates (k : Kernel W) (k' : Kernel V) : Type 0 where
    pub stat : (path : Bytes) → Alike (k.stat path) (k'.stat path)
    pub lstat : (path : Bytes) → Alike (k.lstat path) (k'.lstat path)
    pub statvfs : (path : Bytes) → Alike (k.statvfs path) (k'.statvfs path)
    pub opendir : (path : Bytes) → Alike (k.opendir path) (k'.opendir path)
    pub closedir : (handle : ℕ) (w : W) → view (k.closedir handle w) ≡ k'.closedir handle (view w)
    pub malloc : (n : ℕ) → Alike (k.malloc n) (k'.malloc n)
    pub open_file :
        (path : Bytes) (flags mode : ℕ)
        → Alike (k.open_file path flags mode) (k'.open_file path flags mode)
    pub set_lock : (fd : ℤ) (type : FlockType) → Alike (k.set_lock fd type) (k'.set_lock fd type)
    pub readlink : (path : Bytes) (n : ℕ) → Alike (k.readlink path n) (k'.readlink path n)
    pub symlink : (from to : Bytes) → Alike (k.symlink from to) (k'.symlink from to)
    pub pread : (fd : ℤ) (n offset : ℕ) → Alike (k.pread fd n offset) (k'.pread fd n offset)
    pub pwrite :
        (fd : ℤ) (bytes : Bytes) (offset : ℕ)
        → Alike (k.pwrite fd bytes offset) (k'.pwrite fd bytes offset)
    pub ftruncate : (fd : ℤ) (n : ℕ) → Alike (k.ftruncate fd n) (k'.ftruncate fd n)
    pub fallocate :
        (fd mode : ℤ) (offset n : ℕ)
        → Alike (k.fallocate fd mode offset n) (k'.fallocate fd mode offset n)
    pub close : (fd : ℤ) → Alike (k.close fd) (k'.close fd)
    pub fsync : (fd : ℤ) → Alike (k.fsync fd) (k'.fsync fd)
    pub mkdir : (path : Bytes) (mode : ℕ) → Alike (k.mkdir path mode) (k'.mkdir path mode)
    pub rmdir : (path : Bytes) → Alike (k.rmdir path) (k'.rmdir path)
    pub rename : (from to : Bytes) → Alike (k.rename from to) (k'.rename from to)
    pub unlink : (path : Bytes) → Alike (k.unlink path) (k'.unlink path)
    pub read : (fd : ℤ) (n : ℕ) → Alike (k.read fd n) (k'.read fd n)

  -- The server whose machine is the view.
  abbrev pub seen : Server W → Server V
  seen s = record {
    world = view s.world;
    random_fd = s.random_fd;
    urandom_fd = s.urandom_fd;
    fresh = s.fresh;
    listed = s.listed;
    allocated = s.allocated;
    freed = s.freed;
  }

  abbrev pub seen_out : {A : Type 0} → A × Server W → A × Server V
  seen_out (a, s) = (a, seen s)

  -- A handler and its counterpart.
  abbrev pub Handled : {B : Type 0} → (Server W → B × Server W) → (Server V → B × Server V) → Type 0
  Handled h h' = (s : Server W) → seen_out (h s) ≡ h' (seen s)

  pub call-Handled :
      {A B : Type 0} (reply : A → B) (f : W → Sys A × W) (f' : V → Sys A × V)
      → Alike f f'
      → Handled (call reply f) (call reply f')
  call-Handled reply f f' like s =
      let (result, left) = like s.world in
      ap (λ r. (conclude reply r, seen (record s { world = (f s.world).1 }))) result
      ∙ ap (λ v. (conclude reply (f' (view s.world)).0, record (seen s) { world = v })) left

  pub choice-Handled :
      {B : Type 0} (b : Bool) (g h : Server W → B × Server W) (g' h' : Server V → B × Server V)
      → Handled g g'
      → Handled h h'
      → Handled (λ s. if b then g s else h s) (λ s. if b then g' s else h' s)
  choice-Handled b g h g' h' first second s = elim (Bool-cases b) [
    | inl e ↦ rw e (first s)
    | inr e ↦ rw e (second s)
  ]

  pub with_path-Handled :
      {B : Type 0} (path : Bytes) (h : Server W → Result B × Server W)
      (h' : Server V → Result B × Server V)
      → Handled h h'
      → Handled (with_path path h) (with_path path h')
  unfolding get_pathname_len
  with_path-Handled path h h' like s = elim (Bool-cases (leb max_path_len (length path))) [
    | inl e ↦ rw e refl
    | inr e ↦ rw e (like s)
  ]

  pub path_call-Handled :
      {A B : Type 0} (path : Bytes) (reply : A → B) (f : W → Sys A × W) (f' : V → Sys A × V)
      → Alike f f'
      → Handled (with_path path (call reply f)) (with_path path (call reply f'))
  path_call-Handled path reply f f' like =
      with_path-Handled path (call reply f) (call reply f') (call-Handled reply f f' like)
