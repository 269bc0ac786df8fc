-- ===== src/ControlPlane/Hosts/Renaming.antt =====
-- internal/controlplane/host.go: what a renaming changes.
use remote_dev_skillkit.Prelude.{
  String, Option, some, [], ◌∷◌, ◌≡◌, ◌⊎◌, inl, inr, Dict, ◌==◌, string_eq, get, arith, Bool-cases,
  Option-cases,
}
use remote_dev_skillkit.ControlPlane.Session.{Host}
use remote_dev_skillkit.ControlPlane.Hosts.{rename_in}

-- The entry at a key before and after a host has been renamed.
abbrev pub SameOrRenamed : String → String → Option Host → Option Host → Type 0
SameOrRenamed host_id name before after =
    (after ≡ before)
    ⊎ ((h : Host) × (before ≡ some h)
        × (h.host_id ≡ host_id)
        × (after ≡ some (record h { display_name = name })))

-- When a host is renamed, each entry of the directory stays as it is, or is the one of a host with
-- that id and changes in its display name alone; and the host that is answered has the id and the name.
pub rename_in-get :
    (host_id name k : String) (m n : Dict String Host) (h : Host)
    → rename_in host_id name m ≡ some (h, n)
    → SameOrRenamed host_id name (get k m) (get k n)
      × (h.host_id ≡ host_id)
      × (h.display_name ≡ name)
unfolding rename_in get
rename_in-get host_id name k [] n h e = ground arith
rename_in-get host_id name k ((j, x) ∷ m) n h e = elim (Bool-cases (x.host_id == host_id)) [
  | inl hit ↦ elim (Bool-cases (j == k)) [
    | inl here ↦ (
      inr (x, ground (arith, here), ground (arith, hit), ground (arith, e, hit, here)),
      ground (arith, e, hit),
      ground (arith, e, hit),
    )
    | inr there ↦
        (inl (ground (arith, e, hit, there)), ground (arith, e, hit), ground (arith, e, hit))
  ]
  | inr miss ↦ elim (Option-cases (rename_in host_id name m)) [
    | inl absent ↦ ground (arith, e, miss, absent)
    | inr ((f, rest), found) ↦
        let (entry, id, named) = rename_in-get host_id name k m rest f found in
        elim (Bool-cases (j == k)) [
          | inl here ↦ (
            inl (ground (arith, e, miss, found, here)),
            ground (arith, e, miss, found, id),
            ground (arith, e, miss, found, named),
          )
          | inr there ↦ elim entry [
            | inl same ↦ (
              inl (ground (arith, e, miss, found, there, same)),
              ground (arith, e, miss, found, id),
              ground (arith, e, miss, found, named),
            )
            | inr (y, before, his, after) ↦ (
              inr (
                y,
                ground (arith, there, before),
                his,
                ground (arith, e, miss, found, there, after),
              ),
              ground (arith, e, miss, found, id),
              ground (arith, e, miss, found, named),
            )
          ]
        ]
  ]
]
