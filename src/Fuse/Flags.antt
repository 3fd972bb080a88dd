-- ===== src/Fuse/Flags.antt =====
-- The flags of `open` on their way from FUSE through icbinn-fs.c to the OPEN handler of the server.
use Prim.Native.Nat.{bit_or}
use icbinn.Common.{ℕ, ◌≡◌, refl, Bool, true, false, if◌then◌else◌}
use icbinn.Server.State.{flag_set}
use icbinn.Server.Files.{open_flags}
use icbinn.Fuse.{translate_open_flags}

-- What FUSE's side makes of its tests of O_RDONLY, O_WRONLY, O_RDWR, O_TRUNC and O_CREAT.
abbrev translated : (z w r t c : Bool) → ℕ
translated z w r t c =
    let f1 = if c then bit_or 0 0o100 else 0 in
    let f2 = if t then bit_or f1 0o1000 else f1 in
    let f3 = if w then bit_or f2 1 else f2 in
    let f4 = if r then bit_or f3 2 else f3 in if z then bit_or f4 0 else f4

-- What the server makes of the same tests.
abbrev served : (z w r t c : Bool) → ℕ
served z w r t c =
    let f0 = if z then bit_or 0 0 else 0 in
    let f1 = if w then bit_or f0 1 else f0 in
    let f2 = if r then bit_or f1 2 else f1 in
    let f3 = if t then bit_or f2 0o1000 else f2 in if c then bit_or f3 0o100 else f3

open_flags-translated : (z w r t c : Bool) → open_flags (translated z w r t c) ≡ served z w r t c
unfolding open_flags
open_flags-translated true true true true true = refl
open_flags-translated true true true true false = refl
open_flags-translated true true true false true = refl
open_flags-translated true true true false false = refl
open_flags-translated true true false true true = refl
open_flags-translated true true false true false = refl
open_flags-translated true true false false true = refl
open_flags-translated true true false false false = refl
open_flags-translated true false true true true = refl
open_flags-translated true false true true false = refl
open_flags-translated true false true false true = refl
open_flags-translated true false true false false = refl
open_flags-translated true false false true true = refl
open_flags-translated true false false true false = refl
open_flags-translated true false false false true = refl
open_flags-translated true false false false false = refl
open_flags-translated false true true true true = refl
open_flags-translated false true true true false = refl
open_flags-translated false true true false true = refl
open_flags-translated false true true false false = refl
open_flags-translated false true false true true = refl
open_flags-translated false true false true false = refl
open_flags-translated false true false false true = refl
open_flags-translated false true false false false = refl
open_flags-translated false false true true true = refl
open_flags-translated false false true true false = refl
open_flags-translated false false true false true = refl
open_flags-translated false false true false false = refl
open_flags-translated false false false true true = refl
open_flags-translated false false false true false = refl
open_flags-translated false false false false true = refl
open_flags-translated false false false false false = refl

-- For all flags of FUSE's `open`, the server opens the file with the flags that it would take of
-- FUSE's own: the translation in icbinn-fs.c drops only flags that the server drops too.
pub open_flags-translate_open_flags : (f : ℕ) → open_flags (translate_open_flags f) ≡ open_flags f
unfolding open_flags translate_open_flags
open_flags-translate_open_flags f =
    open_flags-translated (flag_set f 0) (flag_set f 1) (flag_set f 2) (flag_set f 0o1000)
      (flag_set f 0o100)
