-- ===== src/Wire/Rounds/Every.antt =====
-- Every procedure, over a connection through the server's own loop.
use icbinn.Common.{◌≡◌, refl, ap, ◌∙◌, ℤ, Option, none, some}
use icbinn.Protocol.{
  Request, Response, void, listing, attributes, opened, chunk, status, random, space, Result,
  ReaddirRes, StatReply, RandRes, StatfsReply,
}
use icbinn.Kernel.{Kernel}
use icbinn.Server.State.{Server, Run, done, exited, fault, ◌>>=◌}
use icbinn.Server.Dispatch.{serve}
use icbinn.Server.Files.{
  stat_1_svc, statfs_1_svc, open_1_svc, lock_1_svc, readlink_1_svc, pread_1_svc, ftruncate_1_svc,
  fallocate_1_svc, pwrite_1_svc, close_1_svc, fsync_1_svc, rand_1_svc,
}
use icbinn.Server.Names.{symlink_1_svc, mkdir_1_svc, rmdir_1_svc, rename_1_svc, unlink_1_svc}
use icbinn.Server.Simulation.{map_run, Simulates, seen_out}
use icbinn.Server.Simulation.Requests.{serve-Alike}
use icbinn.Client.Stubs.{Stubs, Remote}
use icbinn.Daemon.{Sockets}
use icbinn.Daemon.Input.{Transport}
use icbinn.Wire.Link.{Carries, CarriesAll}
use icbinn.Wire.Rounds.{
  Wires, cleaned, took, through_round, on_arrival, round_lem, as_chunk, as_status,
}

abbrev pub as_void : Response → Option (Unit {0})
as_void void = some tt
as_void _ = none

abbrev pub as_listing : Response → Option (ReaddirRes)
as_listing (listing res) = some res
as_listing _ = none

abbrev pub as_attributes : Response → Option (Result StatReply)
as_attributes (attributes res) = some res
as_attributes _ = none

abbrev pub as_opened : Response → Option (Result ℤ)
as_opened (opened res) = some res
as_opened _ = none

abbrev pub as_random : Response → Option (RandRes)
as_random (random res) = some res
as_random _ = none

abbrev pub as_space : Response → Option (Result StatfsReply)
as_space (space res) = some res
as_space _ = none

map_run-done :
    {A B : Type 0} (f : A → B) (m : Run A) (b : B)
    → map_run f m ≡ done b
    → (a : A) × (m ≡ done a) × (f a ≡ b)
map_run-done f (done a) b e = (a, refl, cc)
map_run-done f exited b e = cc
map_run-done f fault b e = cc

module _ {W : Type 0} (k : Kernel W) (os : Sockets W) (tr : Transport W) (svfd : ℤ)
    (wires : Wires k os tr svfd) where
  abbrev asks : {A B : Type 0} → (A → Request) → (Response → Option B) → Remote (Server W) A B
  asks = through_round k os tr svfd wires

  abbrev clear : Server W → Server W
  clear = cleaned k os tr svfd wires

  -- The client library's stubs, each of which sends a request and lets the server go through a
  -- round of its loop.
  abbrev pub over_rounds : Stubs (Server W)
  over_rounds = record {
    null_1 = asks (λ _. Request.null) as_void;
    readdir_1 = asks Request.readdir as_listing;
    stat_1 = asks Request.stat as_attributes;
    open_1 = asks Request.open_file as_opened;
    lock_1 = asks Request.lock (as_status k os tr svfd wires);
    pread_1 = asks Request.pread (as_chunk k os tr svfd wires);
    pwrite_1 = asks Request.pwrite (as_status k os tr svfd wires);
    close_1 = asks Request.close (as_status k os tr svfd wires);
    mkdir_1 = asks Request.mkdir (as_status k os tr svfd wires);
    rmdir_1 = asks Request.rmdir (as_status k os tr svfd wires);
    rename_1 = asks Request.rename (as_status k os tr svfd wires);
    unlink_1 = asks Request.unlink (as_status k os tr svfd wires);
    ftruncate_1 = asks Request.ftruncate (as_status k os tr svfd wires);
    rand_1 = asks Request.rand as_random;
    fallocate_1 = asks Request.fallocate (as_status k os tr svfd wires);
    symlink_1 = asks Request.symlink (as_status k os tr svfd wires);
    readlink_1 = asks Request.readlink (as_chunk k os tr svfd wires);
    statfs_1 = asks Request.statfs as_space;
    fsync_1 = asks Request.fsync (as_status k os tr svfd wires);
  }

  module _ (apart : Simulates wires.clean k k) where
    -- What the handlers make of a request without the wires arrives.
    asked :
        {A B : Type 0} (wrap : A → Request) (unwrap : Response → Option B) (a : A) (s : Server W)
        (res : Response) (b : B) (v : Server W)
        → serve k (wrap a) (clear s) ≡ done (res, v)
        → unwrap res ≡ some b
        → ((asks wrap unwrap a s).0 ≡ some b) × (clear (asks wrap unwrap a s).1 ≡ v)
    asked wrap unwrap a s res b v e opens =
        let arrived = on_arrival k os tr svfd wires (wrap a) s in
        let same : clear arrived ≡ clear s =
          ap (λ u. record s { world = u }) (wires.taken (wrap a) s.world) in
        let ((res', v'), q, r) =
          map_run-done (seen_out wires.clean) (serve k (wrap a) arrived) (res, v)
            (serve-Alike apart (wrap a) arrived ∙ ap (serve k (wrap a)) same ∙ e) in
        let went = round_lem k os tr svfd wires (wrap a) res' s v' q in
        (
          ap (λ m. (took k os tr svfd wires unwrap s m).0) went
              ∙ rw (wires.replied res' v'.world) (ap unwrap (ap (λ x. x.0) r) ∙ opens),
          ap (λ m. clear (took k os tr svfd wires unwrap s m).1) went
              ∙ ap (λ u. record v' { world = u }) (wires.sent res' v'.world)
              ∙ ap (λ x. x.1) r,
        )

    -- A handler with the request and the reply that it stands behind.
    carried :
        {A B : Type 0} (wrap : A → Request) (tag : B → Response) (unwrap : Response → Option B)
        (h : A → Server W → B × Server W)
        → ((a : A) (v : Server W) → serve k (wrap a) v ≡ done (tag (h a v).0, (h a v).1))
        → ((b : B) → unwrap (tag b) ≡ some b)
        → Carries clear (asks wrap unwrap) h
    carried wrap tag unwrap h serves opens a s =
        let (replied, advanced) =
          asked wrap unwrap a s _ (h a (clear s)).0 _ (serves a (clear s)) (opens _) in
        record { replied = replied; advanced = advanced }

    -- If the wires hand each request over alone and keep its reply, and no system call of the
    -- server sees the wires or touches them, then a connection whose calls are a request, one
    -- round of `svc_input_loop` and the reply carries every procedure to the server's handler, the
    -- wires apart.
    pub rounds-CarriesAll : CarriesAll clear k over_rounds
    unfolding serve
    rounds-CarriesAll = record {
      null = λ s. asked (λ _. Request.null) as_void tt s void tt (clear s) refl refl;
      readdir = λ argp s res v e.
          asked Request.readdir as_listing argp s (listing res) res v
            (ap (λ m. m >>= λ (out : ReaddirRes × Server W). done (listing out.0, out.1)) e) refl;
      stat = carried Request.stat attributes as_attributes (stat_1_svc k) (λ a v. refl) (λ b. refl);
      open_file =
          carried Request.open_file opened as_opened (open_1_svc k) (λ a v. refl) (λ b. refl);
      lock =
          carried Request.lock status (as_status k os tr svfd wires) (lock_1_svc k) (λ a v. refl)
            (λ b. refl);
      pread =
          carried Request.pread chunk (as_chunk k os tr svfd wires) (pread_1_svc k) (λ a v. refl)
            (λ b. refl);
      pwrite =
          carried Request.pwrite status (as_status k os tr svfd wires) (pwrite_1_svc k)
            (λ a v. refl) (λ b. refl);
      close =
          carried Request.close status (as_status k os tr svfd wires) (close_1_svc k) (λ a v. refl)
            (λ b. refl);
      mkdir =
          carried Request.mkdir status (as_status k os tr svfd wires) (mkdir_1_svc k) (λ a v. refl)
            (λ b. refl);
      rmdir =
          carried Request.rmdir status (as_status k os tr svfd wires) (rmdir_1_svc k) (λ a v. refl)
            (λ b. refl);
      rename =
          carried Request.rename status (as_status k os tr svfd wires) (rename_1_svc k)
            (λ a v. refl) (λ b. refl);
      unlink =
          carried Request.unlink status (as_status k os tr svfd wires) (unlink_1_svc k)
            (λ a v. refl) (λ b. refl);
      ftruncate =
          carried Request.ftruncate status (as_status k os tr svfd wires) (ftruncate_1_svc k)
            (λ a v. refl) (λ b. refl);
      rand = carried Request.rand random as_random (rand_1_svc k) (λ a v. refl) (λ b. refl);
      fallocate =
          carried Request.fallocate status (as_status k os tr svfd wires) (fallocate_1_svc k)
            (λ a v. refl) (λ b. refl);
      symlink =
          carried Request.symlink status (as_status k os tr svfd wires) (symlink_1_svc k)
            (λ a v. refl) (λ b. refl);
      readlink =
          carried Request.readlink chunk (as_chunk k os tr svfd wires) (readlink_1_svc k)
            (λ a v. refl) (λ b. refl);
      statfs = carried Request.statfs space as_space (statfs_1_svc k) (λ a v. refl) (λ b. refl);
      fsync =
          carried Request.fsync status (as_status k os tr svfd wires) (fsync_1_svc k) (λ a v. refl)
            (λ b. refl);
    }
