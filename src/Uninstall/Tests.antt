-- ===== src/Uninstall/Tests.antt =====
-- A key that was saved on a machine without files, with a digest that keeps the length of the code.
use orbis_agent_desktop.Base.{
  ℕ, ◌≡◌, refl, inr, true, false, List, [], ◌∷◌, none, Text, length, min, arith,
}
use orbis_agent_desktop.Base.Files.{Files}
use orbis_agent_desktop.Base.Hex.{to_hex}
use orbis_agent_desktop.Uninstall.{save_uninstall_key, uninstall}
use orbis_agent_desktop.Uninstall.Protection.{DigestLaws, uninstall_protected}

abbrev no_files : Files
no_files p = none

abbrev toy_digest : Text → List ℕ
toy_digest s = min (length s) 255 ∷ []

toy_digest-DigestLaws : DigestLaws toy_digest
toy_digest-DigestLaws = record {
  not_empty = λ s. unfold to_hex in refl;
  digest_bytes = λ s. (omega arith, tt);
}

uninstall_protected_example :
    let saved = (save_uninstall_key toy_digest no_files true (49 ∷ 50 ∷ [])).0 in
    uninstall toy_digest saved (50 ∷ []) true
    ≡ record { code = 1; files = saved; uninstalled = false }
uninstall_protected_example =
    uninstall_protected toy_digest toy_digest-DigestLaws no_files (49 ∷ 50 ∷ []) (50 ∷ []) true
      (inr (λ e. ground (arith, e)))
