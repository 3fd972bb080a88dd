-- ===== src/Suite/Contents.antt =====
-- libicbinn/test/test.c, `test_fileio`, over a connection to the handlers, on a regular file.
use icbinn.Common.{
  ℕ, ◌+◌, ◌^◌, ◌<◌, ◌≡◌, refl, ap, ◌∙◌, subst, ℤ, pos, Bytes, true, [], ◌∷◌, ◌++◌, length, take,
  drop, drop_all, take_all, replicate, append-nil, same_bytes, ==_iff, arith,
}
use icbinn.Kernel.{Kernel, returned}
use icbinn.Kernel.RegularFile.{ReadsAs, WritesAs, write_at}
use icbinn.Server.State.{Server}
use icbinn.Server.Files.{open_flags, open_1_svc, pread_1_svc, pwrite_1_svc, close_1_svc}
use icbinn.Client.Stubs.{Stubs}
use icbinn.Client.Calls.{icbinn_close}
use icbinn.Client.Transfer.{Filling, icbinn_pread, icbinn_pwrite}
use icbinn.Wire.Link.{Carries}
use icbinn.Wire.Errors.{open-kernel}
use icbinn.Wire.Reading.{pread-content}
use icbinn.Wire.Writing.{pwrite-content}
use icbinn.Suite.{
  inside, name_file1, rewrite_mode, fish, soup, writes, reads, holding, passed, test_fileio,
  write_fish, write_soup, read_fish, read_gap, read_soup, read_end,
}

-- What the file holds when the test is over.
abbrev pub fish_and_soup : Bytes
fish_and_soup = write_at fish 1024 soup

-- The test goes on and returns 0, in a state like this.
abbrev Passes : {S : Type 0} → (S → Type 0) → ℤ × S → Type 0
Passes P out = (out.0 ≡ pos 0) × P out.1

same_bytes_refl : (bytes : Bytes) → same_bytes bytes bytes ≡ true
same_bytes_refl [] = refl
same_bytes_refl (b ∷ bs) = ground (arith, same_bytes_refl bs)

module _ {W S : Type 0} (k : Kernel W) (icb : Stubs S) (server : S → Server W)
    (reading : Carries server icb.pread_1 (pread_1_svc k))
    (writing : Carries server icb.pwrite_1 (pwrite_1_svc k)) (fd : ℤ) (content : W → Bytes)
    (file : WritesAs k fd content) (readable : (w : W) → ReadsAs k fd (content w) w)
    (P : S → Type 0) where
  abbrev holds : S → Bytes
  holds s = content (server s).world

  write_step :
      (bytes c : Bytes) (offset : ℕ) (s : S) (rest : S → ℤ × S)
      → holds s ≡ c
      → offset + 4 < 2 ^ 63
      → length bytes ≡ 4
      → ((t : S) → holds t ≡ write_at c offset bytes → Passes P (rest t))
      → Passes P (writes 4 (icbinn_pwrite icb fd bytes 4 offset s) rest)
  write_step bytes c offset s rest now low four go =
      let (ret, left) =
        pwrite-content k icb server writing fd content bytes 4 offset s file low
          (omega (arith, four)) in
      rw ret (
        go _ (
          left
          ∙ ap (λ x. write_at x offset (take 4 bytes)) now
          ∙ ap (λ x. write_at c offset x) (take_all 4 bytes (omega (arith, four)))))

  read_step :
      (n : ℕ) (bytes c : Bytes) (offset : ℕ) (t : Filling S) (rest : Filling S → ℤ × S)
      → holds t.conn ≡ c
      → offset + 4 < 2 ^ 63
      → take 4 (drop offset c) ≡ bytes
      → length bytes ≡ n
      → ((u : Filling S) → u.buf ≡ bytes ++ drop n t.buf → holds u.conn ≡ c → Passes P (rest u))
      → Passes P (reads n (icbinn_pread icb fd 4 offset t) rest)
  read_step n bytes c offset t rest now low there long go =
      let got =
        pread-content k icb server reading fd c 4 offset t low (
          subst (λ x. ReadsAs k fd x (server t.conn).world) now (readable (server t.conn).world)) in
      let count : length (take 4 (drop offset c)) ≡ n = ap length there ∙ long in
      rw (got.result, count, (==_iff n n).1 refl)
        (go _
          (got.stored
            ∙ ap (λ i. take 4 (drop offset c) ++ drop i t.buf) count
            ∙ ap (λ x. x ++ drop n t.buf) there)
          (ap (λ v. content v.world) got.kept ∙ now))

  -- A read of four bytes that are compared with others.
  back_step :
      (bytes c : Bytes) (offset : ℕ) (t : Filling S) (rest : Filling S → ℤ × S)
      → holds t.conn ≡ c
      → offset + 4 < 2 ^ 63
      → take 4 (drop offset c) ≡ bytes
      → length bytes ≡ 4
      → length t.buf ≡ 4
      → ((u : Filling S) → length u.buf ≡ 4 → holds u.conn ≡ c → Passes P (rest u))
      → Passes P (reads 4 (icbinn_pread icb fd 4 offset t) (holding bytes rest))
  back_step bytes c offset t rest now low there long whole go =
      read_step 4 bytes c offset t (holding bytes rest) now low there long (λ u b same.
        let all : u.buf ≡ bytes =
          b ∙ ap (λ x. bytes ++ x) (drop_all 4 t.buf (omega (arith, whole))) ∙ append-nil bytes in
        rw (ap (λ x. same_bytes x bytes) all ∙ same_bytes_refl bytes)
          (go u (ap length all ∙ long) same))

  -- The test from the open file on.
  fileio_body :
      (buf : Bytes) (s : S)
      → holds s ≡ []
      → length buf ≡ 4
      → ((s' : S) → holds s' ≡ fish_and_soup → P (icbinn_close icb fd s').1)
      → Passes P (write_fish icb buf fd s)
  unfolding write_at
  fileio_body buf s empty whole closes =
      write_step fish [] 0 s (write_soup icb buf fd) empty (omega arith) refl λ s1 h1.
        write_step soup fish 1024 s1 (λ t. read_fish icb fd (record { buf = buf; conn = t })) h1
          (omega arith) refl
          λ s2 h2.
            back_step fish fish_and_soup 0 (record { buf = buf; conn = s2 }) (read_gap icb fd) h2
              (omega arith) refl refl whole
              λ t3 l3 h3.
                back_step (replicate 4 0) fish_and_soup 4 t3 (read_soup icb fd) h3 (omega arith)
                  refl refl l3
                  λ t4 l4 h4.
                    back_step soup fish_and_soup 1024 t4 (read_end icb fd) h4 (omega arith) refl
                      refl l4
                      λ t5 l5 h5.
                        read_step 0 [] fish_and_soup 1028 t5
                          (λ t. passed (icbinn_close icb fd t.conn).1) h5 (omega arith) refl refl
                          λ t6 b6 h6. (refl, closes t6.conn h6)

module _ {W S : Type 0} (k : Kernel W) (icb : Stubs S) (server : S → Server W)
    (opening : Carries server icb.open_1 (open_1_svc k))
    (reading : Carries server icb.pread_1 (pread_1_svc k))
    (writing : Carries server icb.pwrite_1 (pwrite_1_svc k))
    (closing : Carries server icb.close_1 (close_1_svc k)) where
  -- what `icbinn_close` leaves at the server
  close-world :
      (fd : ℤ) (s : S) → (server (icbinn_close icb fd s).1).world ≡ (k.close fd (server s).world).1
  unfolding icbinn_close close_1_svc
  close-world fd s = ap (λ v. v.world) (closing fd s).advanced

  -- Over a connection that carries OPEN, PREAD, PWRITE and CLOSE to the server's handlers: where
  -- the server's `open` of "icbinntest/file1" gives a descriptor of an empty file that takes every
  -- byte and reads as what it holds, and `close` keeps what files hold, `test_fileio` returns 0,
  -- and the file then holds "fish", zeros up to byte 1024, and "soup".
  pub test_fileio-passes :
      (content : W → Bytes) (buf : Bytes) (fd : ℕ) (s : S)
      → let (r, w) =
          k.open_file (inside name_file1) (open_flags rewrite_mode) 0o600 (server s).world in
        r ≡ returned fd
        → content w ≡ []
        → WritesAs k (pos fd) content
        → ((w : W) → ReadsAs k (pos fd) (content w) w)
        → ((w : W) → content (k.close (pos fd) w).1 ≡ content w)
        → length buf ≡ 4
        → let (ret, s') = test_fileio icb buf s in
          (ret ≡ pos 0) × (content (server s').world ≡ fish_and_soup)
  unfolding test_fileio
  test_fileio-passes content buf fd s granted empty file readable kept whole =
      let (ret, now) =
        open-kernel k icb server opening (inside name_file1) rewrite_mode s (omega arith) in
      rw (ret, granted)
        (fileio_body k icb server reading writing (pos fd) content file readable
          (λ t. content (server t).world ≡ fish_and_soup) buf _ (ap content now ∙ empty) whole
          (λ t h. ap content (close-world (pos fd) t) ∙ kept (server t).world ∙ h))
