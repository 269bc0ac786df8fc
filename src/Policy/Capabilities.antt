-- ===== src/Policy/Capabilities.antt =====
-- internal/policy/capabilities.go: the names of the capabilities.
use remote_dev_skillkit.Prelude.{String}

abbrev pub Capability : Type 0
Capability = String

abbrev pub shell_user : Capability
shell_user = "shell.user"

abbrev pub powershell_user : Capability
powershell_user = "powershell.user"

abbrev pub shell_admin_jit : Capability
shell_admin_jit = "shell.admin.jit"

abbrev pub fs_read : Capability
fs_read = "fs.read"

abbrev pub fs_write_scoped : Capability
fs_write_scoped = "fs.write.scoped"

abbrev pub file_transfer_read : Capability
file_transfer_read = "file.transfer.read"

abbrev pub file_transfer_write : Capability
file_transfer_write = "file.transfer.write"

abbrev pub process_inspect : Capability
process_inspect = "process.inspect"

abbrev pub elevation_request : Capability
elevation_request = "elevation.request"

abbrev pub package_install_authorization : Capability
package_install_authorization = "package.install.requiresAuthorization"

abbrev pub service_modify_authorization : Capability
service_modify_authorization = "service.modify.requiresAuthorization"

abbrev pub gui_view : Capability
gui_view = "gui.view"

abbrev pub gui_control_authorization : Capability
gui_control_authorization = "gui.control.requiresAuthorization"

abbrev pub app_launch : Capability
app_launch = "app.launch"

abbrev pub app_close : Capability
app_close = "app.close"

abbrev pub url_open : Capability
url_open = "url.open"

abbrev pub screen_screenshot : Capability
screen_screenshot = "screen.screenshot"

abbrev pub screen_record : Capability
screen_record = "screen.record"

abbrev pub window_inspect : Capability
window_inspect = "window.inspect"

abbrev pub window_focus : Capability
window_focus = "window.focus"

abbrev pub window_move : Capability
window_move = "window.move"

abbrev pub input_keyboard : Capability
input_keyboard = "input.keyboard"

abbrev pub input_mouse : Capability
input_mouse = "input.mouse"

abbrev pub clipboard_read : Capability
clipboard_read = "clipboard.read"

abbrev pub clipboard_write : Capability
clipboard_write = "clipboard.write"

abbrev pub unattended_access : Capability
unattended_access = "unattended.access"

abbrev pub network_discovery_scoped : Capability
network_discovery_scoped = "network.discovery.scoped"

abbrev pub network_probe_lan : Capability
network_probe_lan = "network.probe.lan"

abbrev pub relay_use : Capability
relay_use = "relay.use"

abbrev pub mesh_use : Capability
mesh_use = "mesh.use"

abbrev pub ssh_tunnel : Capability
ssh_tunnel = "ssh.tunnel"

abbrev pub downstream_control : Capability
downstream_control = "downstream.control.scoped"

abbrev pub dev_codex : Capability
dev_codex = "dev.codex"

abbrev pub dev_claude_code : Capability
dev_claude_code = "claude-code.run"

abbrev pub dev_acp : Capability
dev_acp = "acpx.run"
