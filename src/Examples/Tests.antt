-- ===== src/Examples/Tests.antt =====
-- The theorems of the development at inputs of theirs, on the machines of Examples.antt.
use icbinn.Common.{
  ℕ, ◌≡◌, refl, pos, Bytes, some, List, [], ◌∷◌, ◌++◌, take, drop, replicate, length-replicate,
  arith,
}
use icbinn.Protocol.{Request, Response, Entry, file, ReaddirArgs}
use icbinn.Server.State.{Server, done, fault, init, set_icbinn_prot_type}
use icbinn.Server.Readdir.{skipped, readdir_1_svc}
use icbinn.Server.Pages.{visible, found}
use icbinn.Server.Dispatch.{serve, session}
use icbinn.Server.Outcomes.{NoFault, Returning}
use icbinn.Server.Refusals.{refusal, serve_long_path}
use icbinn.Server.Overruns.{serve-NoFault, readdir_overrun}
use icbinn.Server.Buffers.{guarded, serve-guarded}
use icbinn.Server.Blocks.{OwnsBlocks, session-OwnsBlocks}
use icbinn.Server.Replies.{IsSound, serve-IsSound}
use icbinn.Server.Listing.{shown, page, readdir-page}
use icbinn.Client.Transfer.{Filling, icbinn_pread, icbinn_pwrite}
use icbinn.Client.Bounds.{IsKept, pread-IsKept}
use icbinn.Wire.Writing.{pwrite_short}
use icbinn.Wire.RoundTrip.{pread-pwrite}
use icbinn.Wire.Listing.{IsListed}
use icbinn.Examples.{
  machine, lossy, lenient, stream, a_directory, machine-Documented, machine-ChecksPaths,
  machine-WritesAs, machine-ReadsAs, direct, direct_pread, direct_pwrite,
}

abbrev pub content : Bytes
content = 1 ∷ 2 ∷ 3 ∷ 4 ∷ []

abbrev data_out : Bytes
data_out = 20 ∷ 30 ∷ 40 ∷ []

abbrev zeros : Bytes
zeros = 0 ∷ 0 ∷ 0 ∷ 0 ∷ 0 ∷ []

abbrev start : Server Bytes
start = init content

abbrev empty : Filling (Server Bytes)
empty = record { buf = zeros; conn = start }

pread-pwrite_example :
    let s' = (icbinn_pwrite (direct machine) (pos 3) data_out 3 2 start).1 in
    let (ret, filled) =
      icbinn_pread (direct machine) (pos 3) 3 2 (record { buf = zeros; conn = s' }) in
    (ret ≡ pos 3) × (filled.buf ≡ take 3 data_out ++ drop 3 zeros)
pread-pwrite_example =
    pread-pwrite machine (direct machine) (λ s. s) (direct_pread machine) (direct_pwrite machine)
      (pos 3) (λ w. w) data_out zeros 3 2 start machine-WritesAs machine-ReadsAs (omega arith)
      (omega arith)

pwrite_short_example : (icbinn_pwrite (direct lossy) (pos 3) data_out 3 0 start).0 ≡ pos 3
pwrite_short_example =
    pwrite_short lossy (direct lossy) (λ s. s) (direct_pwrite lossy) (pos 3) data_out 3 0 start
      (λ bytes from w. 0) (omega arith) (λ bytes from w. refl)

serve-guarded_example :
    serve
      (guarded machine lossy)
      (Request.pread (record { fd = pos 3; count = 70000; offset = 0 }))
      start
    ≡ serve machine (Request.pread (record { fd = pos 3; count = 70000; offset = 0 })) start
serve-guarded_example =
    serve-guarded machine lossy (Request.pread (record { fd = pos 3; count = 70000; offset = 0 }))
      start

abbrev listing_args : ReaddirArgs
listing_args = record { dir = 47 ∷ []; offset = 1; count = 5 }

serve-NoFault_example : NoFault (serve machine (Request.readdir listing_args) start)
serve-NoFault_example =
    serve-NoFault machine machine-ChecksPaths (Request.readdir listing_args) start

session-OwnsBlocks_example : Returning OwnsBlocks (
    session machine
      (Request.readdir listing_args ∷ Request.readdir listing_args ∷ [])
      (init content))
session-OwnsBlocks_example =
    session-OwnsBlocks machine (Request.readdir listing_args ∷ Request.readdir listing_args ∷ [])
      content

serve-IsSound_example :
    Returning
      (λ (out : Response × Server Bytes). IsSound out.0)
      (serve machine (Request.stat (97 ∷ [])) start)
serve-IsSound_example = serve-IsSound machine machine-Documented (Request.stat (97 ∷ [])) start

readdir-page_example :
    (out : Server Bytes) × (readdir_1_svc machine listing_args start
      ≡ done (some (page (shown machine (47 ∷ []) stream content) 1 5), out))
readdir-page_example =
    readdir-page machine (λ path w. refl) (λ n w. refl) listing_args start a_directory stream
      (omega arith) (omega arith) (omega arith) refl refl refl

abbrev pub entries : List Entry
entries = record { name = 97 ∷ []; type = file } ∷ record { name = 98 ∷ 99 ∷ []; type = file } ∷ []

pub entries-IsListed : IsListed machine (47 ∷ []) content entries
unfolding visible skipped found set_icbinn_prot_type
entries-IsListed = record {
  looks = λ path w. refl;
  memory = λ n w. refl;
  some_name = omega arith;
  short_name = omega arith;
  sbuf = a_directory;
  dirp = stream;
  small = omega arith;
  finds = refl;
  isdir = refl;
  opens = refl;
  shows = refl;
}

pread-IsKept_example : IsKept 2 zeros (icbinn_pread (direct machine) (pos 3) 2 0 empty).1.buf
pread-IsKept_example = pread-IsKept (direct machine) (pos 3) 2 0 empty (omega arith)

abbrev long_path : Bytes
long_path = replicate 4096 120

serve_long_path_example :
    serve machine (Request.rmdir long_path) start
    ≡ done (refusal 2 (Request.rmdir long_path), start)
serve_long_path_example =
    serve_long_path machine start (Request.rmdir long_path)
      (omega (arith, length-replicate {A = ℕ} 4096 120))

readdir_overrun_example :
    readdir_1_svc lenient (record { dir = long_path; offset = 0; count = 1 }) start ≡ fault
readdir_overrun_example =
    readdir_overrun lenient (record { dir = long_path; offset = 0; count = 1 }) start a_directory
      stream (omega (arith, length-replicate {A = ℕ} 4096 120)) refl refl refl
