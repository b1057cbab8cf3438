-- ===== src/Tools/PatchApply.antt =====
-- localagentcli/tools/patch_apply.py: patches as operations on the lines of a text. The file that is
-- read and written is left out.
mod Parse
mod Match
pub mod Laws
unfoldable pub use Parse.*
unfoldable pub use Match.*
