-- ===== src/Tests/Policy.antt =====
-- The capabilities of a temporary session for which an operator names two.
use remote_dev_skillkit.Prelude.{String, List, [], ◌∷◌, ◌≡◌, ◌||◌}
use remote_dev_skillkit.ControlPlane.Endpoints.{contains}
use remote_dev_skillkit.ControlPlane.Endpoints.Ceiling.{IsDistinct}
use remote_dev_skillkit.Policy.{temporary_defaults, merge_temporary_capabilities}
use remote_dev_skillkit.Policy.Merged.{names, merge_temporary_capabilities_lem}

-- One of them stands twice, another is a default.
abbrev explicit : List String
explicit = "mesh.use" ∷ " mesh.use " ∷ "" ∷ "fs.read" ∷ []

merge_temporary_capabilities_lem_example :
    ((x : String)
      → contains (merge_temporary_capabilities explicit) x
        ≡ (names explicit x || contains temporary_defaults x))
    × IsDistinct (merge_temporary_capabilities explicit)
merge_temporary_capabilities_lem_example = merge_temporary_capabilities_lem explicit
