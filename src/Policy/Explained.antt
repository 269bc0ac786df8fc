-- ===== src/Policy/Explained.antt =====
-- internal/policy/capabilities.go: what Explain answers.
use remote_dev_skillkit.Prelude.{◌||◌, ◌&&◌, not, ◌≡◌, arith}
use remote_dev_skillkit.ControlPlane.Endpoints.{contains}
use remote_dev_skillkit.Policy.Capabilities.{Capability}
use remote_dev_skillkit.Policy.{
  HostMode, is_valid, is_temporary, temporary_defaults, is_dangerous, explain,
}

-- A capability is allowed just in a known mode, where that is not the temporary one or the capability is
-- one of its defaults or dangerous; it needs authorization just where it is dangerous and allowed other
-- than as a default of the temporary mode.
pub explain_lem :
    (mode : HostMode) (c : Capability)
    → ((explain mode c).allowed ≡ (
        is_valid mode
        && (not (is_temporary mode) || contains temporary_defaults c || is_dangerous c)))
      × ((explain mode c).authorization ≡ (
          (explain mode c).allowed
          && is_dangerous c
          && not (is_temporary mode && contains temporary_defaults c)))
unfolding explain
explain_lem mode c = ground arith
