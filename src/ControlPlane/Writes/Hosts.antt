-- ===== src/ControlPlane/Writes/Hosts.antt =====
-- internal/controlplane/host.go, store.go: renaming a host and setting the hook leave the sessions alone.
use remote_dev_skillkit.Prelude.{String, Bool, Option, none, some, Dict, ◌==◌, string_eq, ltb, refl}
use remote_dev_skillkit.Prelude.Text.{byte_len, trim_space, contains_code}
use remote_dev_skillkit.ControlPlane.Session.{Host}
use remote_dev_skillkit.ControlPlane.World.{World}
use remote_dev_skillkit.ControlPlane.Store.{MemoryStore}
use remote_dev_skillkit.ControlPlane.Hosts.{
  is_control, rename_in, rename_over, rename_trimmed, rename_host, set_event_hook,
}
use remote_dev_skillkit.ControlPlane.Writes.{quiet}
use remote_dev_skillkit.ControlPlane.Writes.Rules.{
  Refines, Refines-quiet, IsQuiet-pure, IsQuiet-fail, Refines-put, Refines-last_put,
}
use remote_dev_skillkit.ControlPlane.Writes.Guards.{Refines-guard, Refines-read}

module _ ⦃w : World⦄ where
  rename_over-Refines :
      (x : MemoryStore) (o : Option (Host × Dict String Host)) (host_id : String)
      → Refines x (rename_over o host_id)
  rename_over-Refines x none host_id = Refines-quiet x _ (IsQuiet-fail _)
  rename_over-Refines x (some (h, hosts)) host_id =
      Refines-put x _ _ (quiet refl refl) (Refines-quiet _ _ (IsQuiet-pure h))

  rename_trimmed-Refines :
      (x : MemoryStore) (host_id name : String) → Refines x (rename_trimmed host_id name)
  unfolding rename_trimmed
  rename_trimmed-Refines x host_id name = Refines-guard x (name == "") _ _ λ _.
      Refines-guard x (ltb 64 (byte_len name)) _ _ λ _.
        Refines-guard x (contains_code is_control name) _ _ λ _.
          Refines-read x (λ m. rename_in host_id name m.hosts) (λ o. rename_over o host_id)
            (rename_over-Refines x _ host_id)

  pub rename_host-Refines :
      (x : MemoryStore) (host_id name : String) → Refines x (rename_host host_id name)
  unfolding rename_host
  rename_host-Refines x host_id name = rename_trimmed-Refines x host_id (trim_space name)

pub set_event_hook-Refines : (x : MemoryStore) (b : Bool) → Refines x (set_event_hook b)
unfolding set_event_hook
set_event_hook-Refines x b = Refines-last_put x _ (quiet refl refl)
