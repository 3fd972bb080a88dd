-- ===== src/Fuse/Arguments.antt =====
-- What FUSE is called with, and what is left open when it returns.
use icbinn.Common.{
  ℕ, suc, ◌+◌, ◌-◌, ◌<◌, ◌≡◌, refl, ℤ, Bytes, true, codes, Option, none, some, List, [], ◌∷◌, ◌++◌,
  append_assoc, length, length-append, replicate, get_elem?, ◌==◌, if_both, if◌then◌else◌, arith,
}
use icbinn.Kernel.Process.{Proc}
use icbinn.Server.State.{Run, done, ◌>>=◌}
use icbinn.Server.Outcomes.{Returning, bind-Returning, Returns, bind-Returns, Returning-done}
use icbinn.Client.Allocating.{Allocates, create_tcp-Returns, create_v4v-Returns}
use icbinn.Client.Connection.{Net, Icbinn, icbinn_clnt_destroy}
use icbinn.Client.Closing.{Connected, create_tcp-Connected, create_v4v-Connected}
use icbinn.Fuse.Start.{
  Opt, Pointers, store, copy_args, fuse_args, Exit, mount, fuse_program, parse_opts, unset,
  flags_clash,
}

-- Pointers that are all set.
abbrev pub all_set : List Bytes → Pointers
all_set [] = []
all_set (arg ∷ args) = some arg ∷ all_set args

get_elem?-behind :
    (xs : List Bytes) (a : Bytes) (ys : List Bytes) → get_elem? (xs ++ a ∷ ys) (length xs) ≡ some a
get_elem?-behind [] a ys = refl
get_elem?-behind (x ∷ xs) a ys = get_elem?-behind xs a ys

store-behind :
    (xs : Pointers) (a : Bytes) (x : Option Bytes) (ys : Pointers)
    → store (length xs) a (xs ++ x ∷ ys) ≡ done (xs ++ some a ∷ ys)
unfolding store
store-behind [] a x ys = refl
store-behind (y ∷ xs) a x ys = rw (store-behind xs a x ys)

copy_args_lem :
    (before rest : List Bytes) (copied : Pointers) (optind i : ℕ)
    → 0 < i
    → length before ≡ i + optind - 1
    → length copied ≡ 1 + i
    → copy_args (before ++ rest) optind (length rest) i (copied ++ replicate (length rest) none)
      ≡ done (copied ++ all_set rest)
unfolding copy_args
copy_args_lem before [] copied optind i h b c = refl
copy_args_lem before (arg ∷ rest) copied optind i h b c =
    let empty = replicate (length rest) none in
    let before' = before ++ arg ∷ [] in
    let copied' = copied ++ some arg ∷ [] in
    let read = rw b at (get_elem?-behind before arg rest) in
    let kept = rw c at (store-behind copied arg none empty) in
    let ih =
      copy_args_lem before' rest copied' optind (suc i) (omega arith)
        (omega (arith, length-append before (arg ∷ [])))
        (omega (arith, length-append copied (some arg ∷ []))) in
    rw (read, copy_args, kept)
      (rw
        (
          append_assoc before (arg ∷ []) rest,
          append_assoc copied (some arg ∷ []) empty,
          append_assoc copied (some arg ∷ []) (all_set rest),
        )
        at ih)

-- The program's name, the option for a single thread, and the arguments behind the options.
fuse_args_lem :
    (name : Bytes) (opts rest : List Bytes)
    → fuse_args (name ∷ opts ++ rest) (1 + length opts) ≡ done (all_set (name ∷ codes "-s" ∷ rest))
unfolding fuse_args store
fuse_args_lem name opts rest =
    let n = length rest in
    let size : 1 + length (name ∷ opts ++ rest) - (1 + length opts - 1) ≡ suc (suc n) =
      omega (arith, length-append opts rest) in
    let left : suc (suc n) - 2 ≡ n = omega arith in
    rw (size, left, fuse_args, store)
      (copy_args_lem (name ∷ opts) rest (some name ∷ some (codes "-s") ∷ []) (1 + length opts) 1
        (omega arith) (omega arith) (omega arith))

-- What `fuse_main` was called with, if it was, and the descriptors after its end.
abbrev IfMounted : {W : Type 0} → List ℕ → List Bytes → Option Pointers → Proc W → Type 0
IfMounted fds args none p = Unit
IfMounted fds args (some fuseargv) p = (fuseargv ≡ all_set args) × (p.fds ≡ fds)

abbrev pub Mounts : {W : Type 0} → List ℕ → List Bytes → Exit W → Type 0
Mounts fds args e = IfMounted fds args e.mounted e.proc

module _ {W : Type 0} (net : Net W) (fuse_main : Icbinn → Pointers → W → ℤ × W) where
  mount-Mounts :
      (fds : List ℕ) (args : List Bytes) (out : Option Icbinn × Proc W)
      → Connected net fds out
      → Mounts fds args (mount net true fuse_main (all_set args) out)
  unfolding mount icbinn_clnt_destroy
  mount-Mounts fds args (none, p) h = tt
  mount-Mounts fds args (some icb, p) h = (refl, h)

  -- From the connection on.
  from_connection :
      (args : List Bytes) (p : Proc W) (made : Run (Option Icbinn × Proc W))
      → Returning (Connected net p.fds) made
      → Returning (Mounts p.fds args) (
          made >>= λ (out : Option Icbinn × Proc W).
          done (mount net true fuse_main (all_set args) out))
  from_connection args p made h =
      bind-Returning (Connected net p.fds) (Mounts p.fds args) made _ h (mount-Mounts p.fds args)

  -- If `main` of icbinn-fs, in a build with V4V, calls FUSE, it does so with its own name, `-s`
  -- and the arguments behind its options, every place of the array being set; and then it destroys
  -- the connection, which leaves the descriptors that were open before.
  pub fuse_program-Mounts :
      (name : Bytes) (texts rest : List Bytes) (opts : List Opt) (p : Proc W)
      → Returning
          (Mounts p.fds (name ∷ codes "-s" ∷ rest))
          (fuse_program net true fuse_main (name ∷ texts ++ rest) (1 + length texts) opts p)
  unfolding fuse_program
  fuse_program-Mounts name texts rest opts p =
      let v = parse_opts opts unset in
      rw (fuse_args_lem name texts rest) (
        if_both (Returning _) (flags_clash v.dflag v.hflag) tt (
          from_connection (name ∷ codes "-s" ∷ rest) p (if v.dflag == 0 then _ else _) (
            if_both (Returning (Connected net p.fds)) (v.dflag == 0)
              (create_tcp-Connected net v.host v.port p)
              (create_v4v-Connected net v.domid v.port p))))

  program-Returns :
      Allocates net
      → (name : Bytes) (texts rest : List Bytes) (opts : List Opt) (p : Proc W)
      → Returns (fuse_program net true fuse_main (name ∷ texts ++ rest) (1 + length texts) opts p)
  unfolding fuse_program
  program-Returns memory name texts rest opts p =
      let v = parse_opts opts unset in
      rw (fuse_args_lem name texts rest) (
        if_both Returns (flags_clash v.dflag v.hflag) (_, refl)
          (bind-Returns (if v.dflag == 0 then _ else _) _
            (if_both Returns (v.dflag == 0) (create_tcp-Returns net memory v.host v.port p)
              (create_v4v-Returns net memory true v.domid v.port p))
            (λ out. (_, refl))))

  -- Where `malloc` and `calloc` succeed, `main` of icbinn-fs, in a build with V4V, accesses its
  -- arrays within their bounds, and comes to an end when `fuse_main` does. If it calls FUSE, it
  -- does so with its own name, `-s` and the arguments behind its options, every place of the array
  -- being set; and then it destroys the connection, which leaves the descriptors that were open
  -- before.
  pub fuse_program_runs :
      Allocates net
      → (name : Bytes) (texts rest : List Bytes) (opts : List Opt) (p : Proc W)
      → (e : Exit W) × (fuse_program net true fuse_main
            (name ∷ texts ++ rest)
            (1 + length texts)
            opts
            p
          ≡ done e)
        × Mounts p.fds (name ∷ codes "-s" ∷ rest) e
  fuse_program_runs memory name texts rest opts p =
      let run = fuse_program net true fuse_main (name ∷ texts ++ rest) (1 + length texts) opts p in
      let (e, q) = program-Returns memory name texts rest opts p in
      (
        e,
        q,
        Returning-done (Mounts p.fds (name ∷ codes "-s" ∷ rest)) run e
            (fuse_program-Mounts name texts rest opts p) q,
      )
