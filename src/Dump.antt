-- ===== src/Dump.antt =====
-- internal/display/dump.go: the lines that dump prints.
pub mod Utf8
pub mod Quote
pub mod Printable
pub mod Escape
pub mod Run
pub mod Json
pub mod Characters
pub mod Reading
pub mod Shown
pub mod JsonLine
pub mod Unquote
pub mod Terminal
mod Examples
use mqtt_load_generator.Base.{if◌then◌else◌, Bool, [], ◌∷◌, ◌++◌}
use mqtt_load_generator.Base.Text.{Bytes}
use mqtt_load_generator.Dump.Quote.{quote_to_ascii}

-- `formatDumpLine` without --json.
unfoldable pub format_dump_line : Bytes → Bytes → Bool → Bytes
format_dump_line topic payload show_topic =
    let line = quote_to_ascii payload ++ (b'\n' ∷ []) in
    if show_topic then quote_to_ascii topic ++ (b'\t' ∷ line) else line
