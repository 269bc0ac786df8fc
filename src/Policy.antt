-- ===== src/Policy.antt =====
-- internal/policy/capabilities.go and internal/model/host_mode.go: what a host may do in which mode.
pub mod Capabilities
pub mod Explained
pub mod Merged
use remote_dev_skillkit.Prelude.{
  String, String_discrete, Bool, true, false, ◌||◌, List, [], ◌∷◌, ◌++◌, ◌==◌, ◌!=◌, string_eq, Eq,
  not, if◌then◌else◌,
}
use remote_dev_skillkit.Policy.Capabilities
use remote_dev_skillkit.Policy.Capabilities.{Capability}
use remote_dev_skillkit.Prelude.Text.{trim_space}
use remote_dev_skillkit.ControlPlane.Endpoints.{contains}

pub data HostMode : Type 0 where
  attended_temporary managed break_glass : HostMode
  other : String → HostMode

unfoldable pub is_valid : HostMode → Bool
is_valid (HostMode.other s) = false
is_valid _ = true

unfoldable pub is_temporary : HostMode → Bool
is_temporary HostMode.attended_temporary = true
is_temporary _ = false

unfoldable pub temporary_defaults : List Capability
temporary_defaults =
    Capabilities.shell_user ∷ Capabilities.powershell_user ∷ Capabilities.fs_read
    ∷ Capabilities.fs_write_scoped ∷ Capabilities.file_transfer_read
    ∷ Capabilities.file_transfer_write ∷ Capabilities.process_inspect
    ∷ Capabilities.elevation_request ∷ Capabilities.gui_view
    ∷ Capabilities.gui_control_authorization ∷ Capabilities.app_launch ∷ Capabilities.app_close
    ∷ Capabilities.url_open ∷ Capabilities.screen_screenshot ∷ Capabilities.screen_record
    ∷ Capabilities.window_inspect ∷ Capabilities.window_focus ∷ Capabilities.window_move
    ∷ Capabilities.input_keyboard ∷ Capabilities.input_mouse ∷ []

unfoldable pub dangerous_capabilities : List Capability
dangerous_capabilities =
    Capabilities.shell_admin_jit ∷ Capabilities.package_install_authorization
    ∷ Capabilities.service_modify_authorization ∷ Capabilities.gui_view
    ∷ Capabilities.gui_control_authorization ∷ Capabilities.app_launch ∷ Capabilities.app_close
    ∷ Capabilities.url_open ∷ Capabilities.screen_screenshot ∷ Capabilities.screen_record
    ∷ Capabilities.window_focus ∷ Capabilities.window_move ∷ Capabilities.input_keyboard
    ∷ Capabilities.input_mouse ∷ Capabilities.clipboard_read ∷ Capabilities.clipboard_write
    ∷ Capabilities.unattended_access ∷ Capabilities.downstream_control ∷ []

unfoldable pub is_dangerous : Capability → Bool
is_dangerous c = contains dangerous_capabilities c

-- The lists `result` and `seen` of MergeTemporaryCapabilities.
pub record Merging : Type 0 where
  pub result : List Capability
  pub seen : List Capability

abbrev pub keep : Merging → Capability → Merging
keep m c = record { result = m.result ++ c ∷ []; seen = c ∷ m.seen }

unfoldable pub merge_explicit : Merging → List String → Merging
merge_explicit m [] = m
merge_explicit m (raw ∷ rest) =
    merge_explicit
      (if trim_space raw == "" || contains m.seen (trim_space raw)
        then m
        else keep m (trim_space raw))
      rest

unfoldable pub merge_defaults : Merging → List Capability → Merging
merge_defaults m [] = m
merge_defaults m (value ∷ rest) =
    merge_defaults (if contains m.seen value then m else keep m value) rest

unfoldable pub merge_temporary_capabilities : List String → List Capability
merge_temporary_capabilities explicit =
    (merge_defaults (merge_explicit (record { result = []; seen = [] }) explicit)
      temporary_defaults).result

pub record Explanation : Type 0 where
  pub mode : HostMode
  pub capability : Capability
  pub allowed : Bool
  pub authorization : Bool
  pub reason : String

unfoldable pub explain : HostMode → Capability → Explanation
explain mode capability =
    let with_reason : Bool → Bool → String → Explanation = λ allowed authorization reason. record {
      mode = mode;
      capability = capability;
      allowed = allowed;
      authorization = authorization;
      reason = reason;
    } in
    if not (is_valid mode)
    then with_reason false false "unknown host mode"
    else if is_temporary mode
    then if contains temporary_defaults capability
      then with_reason true false "allowed by temporary-mode defaults"
      else if is_dangerous capability
      then with_reason true true
          "available only through explicit session capability or operator-reviewed interrupt"
      else with_reason false false "not part of temporary-mode defaults"
    else if is_dangerous capability
    then with_reason true true "dangerous capability requires authorization"
    else with_reason true false "allowed subject to host and task policy"
