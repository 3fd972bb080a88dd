-- ===== src/Wire/Again.antt =====
-- `icbinn_readent` again and again, on a machine that READDIR does not change.
use icbinn.Common.{
  ℕ, ◌%◌, ◌<◌, ◌≡◌, refl, sym, ap, ◌∙◌, pos, minus_one, Bytes, List, length, take, drop, ltb,
  if◌then◌else◌, subst,
}
use icbinn.Protocol.{ReaddirArgs, Entry, u32_size}
use icbinn.Kernel.{Kernel}
use icbinn.Server.State.{Server}
use icbinn.Server.Readdir.{readdir_1_svc}
use icbinn.Server.Outcomes.{Returning-done}
use icbinn.Server.Still.{IsStill, readdir-In}
use icbinn.Server.Listing.{readdir-page}
use icbinn.Client.Stubs.{Stubs}
use icbinn.Client.Calls.{dirents, icbinn_readdir, icbinn_readent}
use icbinn.Wire.Link.{CarriesRun}
use icbinn.Wire.Listing.{IsListed, readent-entry}

module _ {W S : Type 0} (k : Kernel W) (icb : Stubs S) (server : S → Server W)
    (carries : CarriesRun server icb.readdir_1 (readdir_1_svc k)) (still : IsStill k) where
  readent-world :
      (dir : Bytes) (entries : List Entry) (offset : ℕ) (s : S)
      → IsListed k dir (server s).world entries
      → (server (icbinn_readent icb dir offset s).2).world ≡ (server s).world
  unfolding icbinn_readent icbinn_readdir
  readent-world dir entries offset s d =
      let argp : ReaddirArgs = record {
        dir = dir;
        offset = offset % u32_size;
        count = 1 % u32_size;
      } in
      let (v, q) =
        readdir-page k d.looks d.memory argp (server s) d.sbuf d.dirp d.some_name d.short_name
          d.small d.finds d.isdir d.opens in
      let (_, advanced) = carries argp s _ v q in
      ap (λ t. t.world) advanced
      ∙ Returning-done _ (readdir_1_svc k argp (server s)) _
          (readdir-In k still (server s).world argp (server s) refl) q

  -- The entry at an offset, and the machine as it was.
  pub readent-again :
      (dir : Bytes) (entries : List Entry) (w : W) (offset : ℕ) (s : S)
      → IsListed k dir w entries
      → (server s).world ≡ w
      → offset < u32_size
      → let (ret, buf, s') = icbinn_readent icb dir offset s in
        (ret ≡ (if ltb offset (length entries) then pos 0 else minus_one))
        × (buf ≡ dirents (take 1 (drop offset entries)))
        × ((server s').world ≡ w)
  readent-again dir entries w offset s d e low =
      let d' = subst (λ v. IsListed k dir v entries) (sym e) d in
      let (ret, buf) = readent-entry k icb server carries dir entries offset s d' low in
      (ret, buf, readent-world dir entries offset s d' ∙ e)
