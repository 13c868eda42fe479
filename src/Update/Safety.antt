-- ===== src/Update/Safety.antt =====
-- Which binary is installed after an update, whatever fails on the way.
use orbis_agent_desktop.Base.{
  ◌&&◌, ℕ, ◌≡◌, ◌≢◌, refl, sym, ap, ◌∙◌, ◌⊎◌, inl, inr, ◌==◌, List, [], ◌∷◌, ◌++◌, Option, none,
  some, Text, text, Bool-cases, arith, length, length-append, append_cancel_left, last, last-append,
  Bool, true, false, is_empty, text_eq, text_eq_iff, Option-cases,
}
use mathlib.Core.Bool.{false≢true}
use orbis_agent_desktop.Base.Hex.{to_hex}
use orbis_agent_desktop.Base.Files.{
  Files, Fault, copy_file-refused, spoil_self, write, remove, copy_file, write_self, write_ne,
  remove_ne, copied, copy_file_copied, Copied, refused,
}
use orbis_agent_desktop.Update.{
  init_failed, cannot_open, transferred, World, Report, result, Run, returned, terminated, rollback,
  failed_run, backup_path, tmp_path, restart, replace, replace_binary, move_binary, verify_sha256,
  Replaced, download_binary, verify, fetch, update, Download, rename_failed, replaced, transferred,
  permissions_threw, progress,
}

append-ne : (p s : Text) (c : ℕ) → p ++ c ∷ s ≢ p
append-ne p s c e = absurd (omega (arith, ap length e, length-append p (c ∷ s)))

module _ (w : World) (sha256 : Text) (old : List ℕ) where
  open w use {binary_path}

  backup-ne : binary_path ≢ backup_path w
  unfolding text
  backup-ne e = append-ne binary_path (b'b' ∷ b'a' ∷ b'k' ∷ []) b'.' (sym e)

  tmp-ne : binary_path ≢ tmp_path w
  unfolding text
  tmp-ne e = append-ne binary_path (b'n' ∷ b'e' ∷ b'w' ∷ []) b'.' (sym e)

  backup-ne-tmp : backup_path w ≢ tmp_path w
  unfolding text
  backup-ne-tmp e = ground (arith, append_cancel_left binary_path (text ".bak") (text ".new") e)

  -- The old binary is installed, and backed up.
  record IsBackedUp (fs : Files) : Type 0 where
    installed : fs binary_path ≡ some old
    saved : fs (backup_path w) ≡ some old

  -- A binary with the requested digest is installed.
  abbrev pub HasNew : Files → Type 0
  HasNew fs =
      (content : List ℕ) × (fs binary_path ≡ some content) × (to_hex (w.sha256 content) ≡ sha256)

  -- The rollback after a restart that failed writes to a path that is not the binary's.
  abbrev pub Astray : Type 0
  Astray = binary_path ≢ w.path_after_rename

  -- How an update may end: with the old binary and a failure reported; with a binary of the requested
  -- digest and a success reported; with such a binary after a restart that failed and a rollback that
  -- went to another path; with whatever a rollback leaves of the binary whose copy failed, and a failure
  -- reported; or in the middle, with such a binary, by an exception for its permissions.
  pub data Ends (r : Run) : Type 0 where
    kept :
        (error : Text)
        → r.files binary_path ≡ some old
        → last r.reports ≡ some (result (text "failed") [] error)
        → r.ending ≡ returned
        → Ends r
    updated :
        (message : Text)
        → HasNew r.files
        → last r.reports ≡ some (result (text "success") message [])
        → r.ending ≡ returned
        → Ends r
    not_rolled_back :
        Astray
        → HasNew r.files
        → last r.reports
          ≡ some (result (text "failed") [] (text "Service restart failed, rolled back"))
        → r.ending ≡ returned
        → Ends r
    spoiled :
        (fault : Fault) (held : List ℕ) (error : Text)
        → w.rollback_fault ≡ some fault
        → (held ≡ old) ⊎ (to_hex (w.sha256 held) ≡ sha256)
        → r.files binary_path ≡ fault.left (some held)
        → last r.reports ≡ some (result (text "failed") [] error)
        → r.ending ≡ returned
        → Ends r
    crashed : HasNew r.files → r.ending ≡ terminated → Ends r

  write_tmp-IsBackedUp :
      (fs : Files) (content : List ℕ) → IsBackedUp fs → IsBackedUp (write fs (tmp_path w) content)
  write_tmp-IsBackedUp fs content b = record {
    installed = write_ne fs (tmp_path w) binary_path content tmp-ne ∙ b.installed;
    saved = write_ne fs (tmp_path w) (backup_path w) content backup-ne-tmp ∙ b.saved;
  }

  remove_tmp-IsBackedUp : (fs : Files) → IsBackedUp fs → IsBackedUp (remove fs (tmp_path w))
  remove_tmp-IsBackedUp fs b = record {
    installed = remove_ne fs (tmp_path w) binary_path tmp-ne ∙ b.installed;
    saved = remove_ne fs (tmp_path w) (backup_path w) backup-ne-tmp ∙ b.saved;
  }

  -- A rollback to the path of the binary restores the saved one, unless its copy fails.
  rollback_cases :
      (fs : Files)
      → fs (backup_path w) ≡ some old
      → (rollback w fs binary_path (backup_path w) binary_path ≡ some old)
        ⊎ ((fault : Fault) × (w.rollback_fault ≡ some fault)
            × (rollback w fs binary_path (backup_path w) binary_path ≡ fault.left (fs binary_path)))
  unfolding rollback copy_file
  rollback_cases fs h = elim (Option-cases w.rollback_fault) [
    | inl e ↦ inl (rw (e, rollback) (rw (h, rollback) (write_self fs binary_path old)))
    | inr (fault, e) ↦ inr (fault, e, rw (e, rollback) (spoil_self fs binary_path fault))
  ]

  rollback_elsewhere :
      (fs : Files) (current : Text)
      → binary_path ≢ current
      → rollback w fs current (backup_path w) binary_path ≡ fs binary_path
  unfolding rollback
  rollback_elsewhere fs current h = go (copy_file fs (backup_path w) current w.rollback_fault) refl
    where
      go :
          (c : Copied)
          → copy_file fs (backup_path w) current w.rollback_fault ≡ c
          → rollback w fs current (backup_path w) binary_path ≡ fs binary_path
      go (copied fs') e =
          let (content, p, q) =
            copy_file_copied fs fs' (backup_path w) current w.rollback_fault e in
          rw (e, rollback) (rw q (write_ne fs current binary_path content h))
      go (refused what fs') e =
          rw (e, rollback)
            (copy_file-refused fs fs' (backup_path w) current what binary_path w.rollback_fault e h)

  -- After a rollback to any path the old binary is installed, or the new one and the rollback went
  -- astray, or its copy failed.
  rolled_back_cases :
      (fs : Files)
      → fs (backup_path w) ≡ some old
      → HasNew fs
      → let after = rollback w fs w.path_after_rename (backup_path w) in
        (after binary_path ≡ some old)
        ⊎ (Astray × HasNew after)
        ⊎ ((fault : Fault) × (w.rollback_fault ≡ some fault)
            × (after binary_path ≡ fault.left (fs binary_path)))
  unfolding rollback
  rolled_back_cases fs saved new = elim (Bool-cases (text_eq binary_path w.path_after_rename)) [
    | inl e ↦
        let same = (text_eq_iff binary_path w.path_after_rename).0 e in
        rw (sym same)
          (elim (rollback_cases fs saved) [ inl back ↦ inl back | inr failed ↦ inr (inr failed) ])
    | inr e ↦
        let other : binary_path ≢ w.path_after_rename =
          λ q. absurd (false≢true (sym e ∙ (text_eq_iff binary_path w.path_after_rename).1 q)) in
        inr (inl (other, (new.0, rollback_elsewhere fs w.path_after_rename other ∙ new.1, new.2)))
  ]

  failed_run-Ends :
      (fs : Files) (before : List Report) (step error : Text)
      → fs binary_path ≡ some old
      → Ends (failed_run fs before step error)
  unfolding failed_run
  failed_run-Ends fs before step error h =
      kept error h (last-append before _ (result (text "failed") [] error ∷ [])) refl

  restart-Ends :
      (fs : Files) (version : Text) (before : List Report)
      → fs (backup_path w) ≡ some old
      → HasNew fs
      → Ends (restart w fs version before)
  unfolding restart
  restart-Ends fs version before saved new = elim (Bool-cases (w.restart_rc == 0)) [
    | inl e ↦ rw e (updated _ new (last-append before _ _) refl)
    | inr e ↦ rw e (elim (rolled_back_cases fs saved new) [
      | inl back ↦ kept _ back (last-append before _ _) refl
      | inr (inl (astray, left)) ↦ not_rolled_back astray left (last-append before _ _) refl
      | inr (inr (fault, e, left)) ↦
          spoiled fault new.0 _ e (inr new.2) (left ∙ ap fault.left new.1) (last-append before _ _)
            refl
    ])
  ]

  abbrev moved : Files → List ℕ → Files
  moved fs content = remove (write fs binary_path content) (tmp_path w)

  moved-new :
      (fs : Files) (content : List ℕ)
      → to_hex (w.sha256 content) ≡ sha256
      → HasNew (moved fs content)
  moved-new fs content h = (
    content,
    remove_ne (write fs binary_path content) (tmp_path w) binary_path tmp-ne
        ∙ write_self fs binary_path content,
    h,
  )

  moved-saved :
      (fs : Files) (content : List ℕ) → IsBackedUp fs → moved fs content (backup_path w) ≡ some old
  moved-saved fs content b =
      remove_ne (write fs binary_path content) (tmp_path w) (backup_path w) backup-ne-tmp
      ∙ (write_ne fs binary_path (backup_path w) content (λ e. backup-ne (sym e)) ∙ b.saved)

  replacement : Files → List ℕ → Bool → Option Text → Replaced
  replacement fs content true p = rename_failed
  replacement fs content false none = replaced (moved fs content)
  replacement fs content false (some what) = permissions_threw (moved fs content)

  replace_binary_lem :
      (fs : Files) (content : List ℕ) (r : Bool) (p : Option Text)
      → fs (tmp_path w) ≡ some content
      → w.rename_fault ≡ r
      → w.permissions_fault ≡ p
      → replace_binary w fs (tmp_path w) ≡ replacement fs content r p
  unfolding replace_binary replacement
  replace_binary_lem fs content true p e q k = rw (e, move_binary) (rw q)
  replace_binary_lem fs content false none e q k = rw (e, move_binary) (rw q (rw (k, move_binary)))
  replace_binary_lem fs content false (some what) e q k =
      rw (e, move_binary) (rw q (rw (k, move_binary)))

  replace-Ends :
      (fs : Files) (version : Text) (before : List Report) (content : List ℕ)
      → IsBackedUp fs
      → fs (tmp_path w) ≡ some content
      → to_hex (w.sha256 content) ≡ sha256
      → Ends (replace w fs version before)
  unfolding replace replacement
  replace-Ends fs version before content b e h = go w.rename_fault w.permissions_fault refl refl
    where
      go :
          (r : Bool) (p : Option Text)
          → w.rename_fault ≡ r
          → w.permissions_fault ≡ p
          → Ends (replace w fs version before)
      go true p q k =
          rw (replace_binary_lem fs content true p e q k, replace)
            (elim (rollback_cases _ (remove_tmp-IsBackedUp fs b).saved) [
              | inl back ↦ kept _ back (last-append (before ++ _ ∷ []) _ (_ ∷ [])) refl
              | inr (fault, f, left) ↦
                  spoiled fault old _ f (inl refl)
                    (left ∙ ap fault.left (remove_tmp-IsBackedUp fs b).installed)
                    (last-append (before ++ _ ∷ []) _ (_ ∷ [])) refl
            ])
      go false none q k =
          rw (replace_binary_lem fs content false none e q k, replace)
            (restart-Ends (moved fs content) version
              (before ++ progress (text "replacing") (text "Replacing binary") [] ∷ [])
              (moved-saved fs content b) (moved-new fs content h))
      go false (some what) q k =
          rw (replace_binary_lem fs content false (some what) e q k, replace)
            (crashed (moved-new fs content h) refl)

  -- What `verifySHA256` accepts is there, with the digest.
  verify_sha256_sound :
      (fs : Files)
      → verify_sha256 w fs (tmp_path w) sha256 ≡ true
      → (content : List ℕ) × (fs (tmp_path w) ≡ some content) × (to_hex (w.sha256 content) ≡ sha256)
  verify_sha256_sound fs h = go (fs (tmp_path w)) refl
    where
      go :
          (o : Option (List ℕ))
          → fs (tmp_path w) ≡ o
          → (content : List ℕ) × (fs (tmp_path w) ≡ some content)
            × (to_hex (w.sha256 content) ≡ sha256)
      go none e = let q : false ≡ true = unfold verify_sha256 in (rw (e, verify_sha256) at h) in cc
      go (some content) e =
          let q : (w.can_hash && text_eq (to_hex (w.sha256 content)) sha256) ≡ true =
            unfold verify_sha256 in (rw (e, verify_sha256) at h) in
          (content, e, (text_eq_iff (to_hex (w.sha256 content)) sha256).0 (ground arith))

  verify-Ends :
      (fs : Files) (version : Text) (before : List Report)
      → IsBackedUp fs
      → is_empty sha256 ≡ false
      → Ends (verify w fs sha256 version before)
  unfolding verify
  verify-Ends fs version before b h = elim (Bool-cases (verify_sha256 w fs (tmp_path w) sha256)) [
    | inl e ↦
        let (content, p, q) = verify_sha256_sound fs e in
        rw (h, e) (replace-Ends fs version _ content b p q)
    | inr e ↦ rw (h, e) (failed_run-Ends _ _ _ _ (remove_tmp-IsBackedUp fs b).installed)
  ]

  download-IsBackedUp :
      (fs : Files) (d : Download) → IsBackedUp fs → IsBackedUp (download_binary fs (tmp_path w) d).0
  unfolding download_binary
  download-IsBackedUp fs init_failed b = b
  download-IsBackedUp fs cannot_open b = b
  download-IsBackedUp fs (transferred content curl_ok code) b = write_tmp-IsBackedUp fs content b

  fetch-Ends :
      (fs : Files) (url version : Text)
      → IsBackedUp fs
      → is_empty sha256 ≡ false
      → Ends (fetch w fs url sha256 version)
  unfolding fetch
  fetch-Ends fs url version b h =
      let b' = download-IsBackedUp fs w.download b in
      elim (Bool-cases (download_binary fs (tmp_path w) w.download).1) [
        | inl e ↦ rw e (verify-Ends _ version _ b' h)
        | inr e ↦ rw e (failed_run-Ends _ _ _ _ (remove_tmp-IsBackedUp _ b').installed)
      ]

  copied-IsBackedUp :
      (fs fs' : Files)
      → fs binary_path ≡ some old
      → copy_file fs binary_path (backup_path w) w.backup_fault ≡ copied fs'
      → IsBackedUp fs'
  copied-IsBackedUp fs fs' h e =
      let (content, p, q) = copy_file_copied fs fs' binary_path (backup_path w) w.backup_fault e in
      rw q (record {
        installed = write_ne fs (backup_path w) binary_path content backup-ne ∙ h;
        saved = write_self fs (backup_path w) content ∙ (sym p ∙ h);
      })

  -- An update with a digest to check, of a binary that is installed, whatever the network, the file
  -- system and the service manager answer: unless the copy of a rollback fails, the binary that is
  -- installed in the end is the old one or one with the requested digest; success is reported with
  -- the latter only; and a failure that is reported leaves the old one, unless the copy of the
  -- rollback failed or went to another path than the binary's. An exception for the permissions of
  -- the new binary ends the process with that binary in place.
  pub update-Ends :
      (fs : Files) (url version : Text)
      → fs binary_path ≡ some old
      → is_empty sha256 ≡ false
      → Ends (update w fs url sha256 version)
  unfolding update
  update-Ends fs url version h s = go (copy_file fs binary_path (backup_path w) w.backup_fault) refl
    where
      go :
          (c : Copied)
          → copy_file fs binary_path (backup_path w) w.backup_fault ≡ c
          → Ends (update w fs url sha256 version)
      go (copied fs') e =
          rw (e, update) (fetch-Ends fs' url version (copied-IsBackedUp fs fs' h e) s)
      go (refused what fs') e =
          rw (e, update)
            (kept _
              (copy_file-refused fs fs' binary_path (backup_path w) what binary_path w.backup_fault
                  e backup-ne
                ∙ h)
              refl refl)
