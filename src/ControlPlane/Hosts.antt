-- ===== src/ControlPlane/Hosts.antt =====
-- internal/controlplane/host.go: `RenameHost`; store.go: `SetEventHook`.
pub mod Renaming
use Prim.Native.String.{◌++◌ as ◌<>◌}
use remote_dev_skillkit.Prelude.{
  ℕ, String, Bool, ◌||◌, Option, none, some, [], ◌∷◌, Dict, if◌then◌else◌, ◌==◌, string_eq, nat_eq,
  ltb,
}
use remote_dev_skillkit.Prelude.Text.{byte_len, trim_space, contains_code}
use remote_dev_skillkit.Exec.{pure, fail, fail_if, ◌>>=◌, ◌>>◌}
use remote_dev_skillkit.ControlPlane.Protocol.{plain}
use remote_dev_skillkit.ControlPlane.Session.{Host}
use remote_dev_skillkit.ControlPlane.World.{World}
use remote_dev_skillkit.ControlPlane.Store.{Store, put_store}

abbrev pub after_entry :
    String → Host → Option (Host × Dict String Host) → Option (Host × Dict String Host)
after_entry k h none = none
after_entry k h (some (found, m)) = some (found, (k, h) ∷ m)

-- The loop of `RenameHost`: the host as it is renamed, and the directory with it.
unfoldable pub rename_in : String → String → Dict String Host → Option (Host × Dict String Host)
rename_in host_id name [] = none
rename_in host_id name ((k, h) ∷ m) =
    let rest = rename_in host_id name m in
    let renamed = record h { display_name = name } in
    if h.host_id == host_id then some (renamed, (k, renamed) ∷ m) else after_entry k h rest

abbrev pub is_control : ℕ → Bool
is_control c = c == 13 || c == 10 || c == 9

module _ ⦃w : World⦄ where
  abbrev pub rename_over : Option (Host × Dict String Host) → String → Store Host
  rename_over none host_id = fail (plain ("host " <> w.quote host_id <> " not found"))
  rename_over (some (h, hosts)) host_id = do put_store (λ m. record m { hosts = hosts }); pure h

  -- `RenameHost`, of a name that has been trimmed.
  unfoldable pub rename_trimmed : String → String → Store Host
  rename_trimmed host_id name = do
    fail_if (name == "") (plain "display_name is required")
    fail_if (ltb 64 (byte_len name)) (plain "display_name exceeds 64 characters")
    fail_if (contains_code is_control name)
        (plain "display_name must not contain control characters")
    λ s. rename_over (rename_in host_id name s.hosts) host_id s

  -- `RenameHost`
  unfoldable pub rename_host : String → String → Store Host
  rename_host host_id display_name = rename_trimmed host_id (trim_space display_name)

-- `SetEventHook`; `set` says whether the hook is not nil.
unfoldable pub set_event_hook : Bool → Store (Unit {0})
set_event_hook set = put_store (λ m. record m { has_hook = set })
