-- ===== src/ControlPlane/Artifacts/Offsets.antt =====
-- internal/controlplane/store.go: the uploads of a session only move forwards.
use remote_dev_skillkit.Prelude.{
  String, Bool, false, some, List, [], ◌∷◌, ◌≡◌, ◌≢◌, ◌==◌, ◌!=◌, string_eq, find?, arith,
  Bool-cases, Option-cases, inl, inr,
}
use remote_dev_skillkit.Prelude.Int.{ltb_ℤ}
use remote_dev_skillkit.ControlPlane.Session.{ArtifactRef}
use remote_dev_skillkit.ControlPlane.Artifacts.{place_artifact}

abbrev pub has_artifact_id : String → ArtifactRef → Bool
has_artifact_id id a = a.id == id

-- An accepted artifact is found under its id afterwards, what is found under another id is what was
-- found before, and an artifact with its id that was there before had no larger offset.
pub place_artifact-find :
    (ref : ArtifactRef) (xs ys : List ArtifactRef) (id : String)
    → place_artifact ref xs ≡ some ys
    → (find? (has_artifact_id ref.id) ys ≡ some ref)
      × (id ≢ ref.id → find? (has_artifact_id id) ys ≡ find? (has_artifact_id id) xs)
      × ((old : ArtifactRef)
          → find? (has_artifact_id ref.id) xs ≡ some old
          → ltb_ℤ ref.upload_offset old.upload_offset ≡ false)
unfolding place_artifact
place_artifact-find ref [] ys id h = ground arith
place_artifact-find ref (x ∷ xs) ys id h = elim (Bool-cases (x.id != ref.id)) [
  | inl other ↦ elim (Option-cases (place_artifact ref xs)) [
    | inl refused ↦ ground (arith, h, other, refused)
    | inr (zs, placed) ↦
        let (self, others, offset) = place_artifact-find ref xs zs id placed in
        (
          ground (arith, h, other, placed, self),
          λ differs. ground (arith, h, other, placed, others differs),
          λ old hit. offset old (ground (arith, other, hit)),
        )
  ]
  | inr same ↦ (
    ground (arith, h, same),
    λ differs. ground (arith, h, same, differs),
    λ old hit. ground (arith, h, same, hit),
  )
]
