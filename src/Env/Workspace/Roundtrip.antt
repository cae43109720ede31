-- ===== src/Env/Workspace/Roundtrip.antt =====
-- Workspace of env/workspace.py: what is written is read back.
use evalstack.Prelude.{◌≡◌, ap, subst, ◌∙◌, sym, String, Bool, false, not, ◌&&◌, Option, any, arith}
use evalstack.Prelude.Effect.{done, >>=-done}
use evalstack.Env.Disk.Path.{parents, path_eq, parent}
use evalstack.Env.Disk.{FilePath, written, KeepsText}
use evalstack.Env.Workspace.{
  Workspace, Tools, FileEditRecord, has_nul, resolve, read_text, read_file, read_before,
  make_parent, write_text, write_file,
}

module _ {D S : Type 0} (t : Tools D S) where
  abbrev goes_out : FilePath → FilePath → Bool
  goes_out root real = not (path_eq real root) && not (any (path_eq root) (parents real))

  resolve-done :
      (relative : String) (w v : Workspace D S) (p : FilePath)
      → resolve t relative w ≡ (v, done p)
      → (v ≡ w)
        × (p ≡ t.disk.realpath w.disk w.root relative)
        × (goes_out w.root p ≡ false)
        × (has_nul t relative ≡ false)
  unfolding resolve
  resolve-done relative w v p h = ground arith

  done-resolve :
      (relative : String) (w : Workspace D S) (p : FilePath)
      → p ≡ t.disk.realpath w.disk w.root relative
      → goes_out w.root p ≡ false
      → has_nul t relative ≡ false
      → resolve t relative w ≡ (w, done p)
  unfolding resolve
  done-resolve relative w p e h valid = ground arith

  read_before-done :
      (p : FilePath) (w v : Workspace D S) (o : Option String)
      → read_before t p w ≡ (v, done o)
      → v ≡ w
  unfolding read_before read_text
  read_before-done p w v o h = ground arith

  make_parent-done :
      (p : FilePath) (w v : Workspace D S)
      → make_parent t p w ≡ (v, done tt)
      → v ≡ record w { disk = (t.disk.make_directory w.disk (parent p)).0 }
  unfolding make_parent
  make_parent-done p w v h = ground arith

  write_text-done :
      (p : FilePath) (s : String) (w v : Workspace D S)
      → write_text t p s w ≡ (v, done tt)
      → (v ≡ record w { disk = (t.disk.write_text w.disk p s).0 })
        × ((t.disk.write_text w.disk p s).1 ≡ written)
  unfolding write_text
  write_text-done p s w v h = ground arith

  module _ (p : FilePath) (contents : String) where
    abbrev disk_after : D → D
    disk_after d = (t.disk.write_text (t.disk.make_directory d (parent p)).0 p contents).0

    -- The states of `write_file`, from the one before to the one after.
    stages :
        (w w1 w2 w3 w4 v : Workspace D S)
        → w1 ≡ w
        → w2 ≡ w1
        → w3 ≡ record w2 { disk = (t.disk.make_directory w2.disk (parent p)).0 }
        → w4 ≡ record w3 { disk = (t.disk.write_text w3.disk p contents).0 }
        → w4 ≡ v
        → v ≡ record w { disk = disk_after w.disk }
    stages w w1 w2 w3 w4 v a b c d e = cc

    stages_ok :
        (w w1 w2 w3 : Workspace D S)
        → w1 ≡ w
        → w2 ≡ w1
        → w3 ≡ record w2 { disk = (t.disk.make_directory w2.disk (parent p)).0 }
        → (t.disk.write_text w3.disk p contents).1 ≡ written
        → (t.disk.write_text (t.disk.make_directory w.disk (parent p)).0 p contents).1 ≡ written
    stages_ok w w1 w2 w3 a b c ok = cc

    reads_back :
        (relative : String) (w : Workspace D S)
        → KeepsText t.disk contents
        → p ≡ t.disk.realpath w.disk w.root relative
        → goes_out w.root p ≡ false
        → has_nul t relative ≡ false
        → (t.disk.write_text (t.disk.make_directory w.disk (parent p)).0 p contents).1 ≡ written
        → let v = record w { disk = disk_after w.disk } in
          read_file t relative v ≡ (v, done contents)
    unfolding read_file read_text
    reads_back relative w keeps led inside valid ok =
        let v : Workspace D S = record w { disk = disk_after w.disk } in
        let d = (t.disk.make_directory w.disk (parent p)).0 in
        let led' : p ≡ t.disk.realpath v.disk v.root relative =
          led
          ∙ sym (keeps.realpath-make_directory w.disk (parent p) w.root relative)
          ∙ sym (keeps.realpath-write d p w.root relative) in
        rw (done-resolve relative v p led' inside valid)
          (rw (keeps.is_file-write d p ok) (rw (keeps.read-write d p ok, read_text)))

  -- Once `write_file` has returned, on a disk that keeps the text, `read_file` of the same path
  -- returns what was written and changes nothing.
  pub read_file-write_file :
      (relative contents : String) (w v : Workspace D S) (e : FileEditRecord)
      → KeepsText t.disk contents
      → write_file t relative contents w ≡ (v, done e)
      → read_file t relative v ≡ (v, done contents)
  unfolding write_file
  read_file-write_file relative contents w v e keeps h =
      let (w1, p, resolved, h1) = >>=-done (resolve t relative) _ w h in
      let (same, led, inside, valid) = resolve-done relative w w1 p resolved in
      let (w2, before, was_read, h2) = >>=-done (read_before t p) _ w1 h1 in
      let (w3, made_unit, made, h3) = >>=-done (make_parent t p) _ w2 h2 in
      let (w4, wrote_unit, wrote, h4) = >>=-done (write_text t p contents) _ w3 h3 in
      let same2 = read_before-done p w1 w2 before was_read in
      let at3 = make_parent-done p w2 w3 made in
      let (at4, ok) = write_text-done p contents w3 w4 wrote in
      let at_end = stages p contents w w1 w2 w3 w4 v same same2 at3 at4 (ap (λ x. x.0) h4) in
      let wrote_all = stages_ok p contents w w1 w2 w3 same same2 at3 ok in
      subst (λ x. read_file t relative x ≡ (x, done contents)) (sym at_end)
        (reads_back p contents relative w keeps led inside valid wrote_all)
