-- ===== src/Video/FileName.antt =====
-- `FormatFromFilename` and the temporary file name of `DoStart` in
-- GzDRL/src/sensor/video_recording_manager.cc. A `std::string` is a list of bytes, and
-- `std::string::npos` is `none`.
pub mod Search
pub mod Laws
use gz_drl.Base.{
  ℕ, suc, ◌+◌, Bool, ◌||◌, ◌++◌, none, some, Name, codes, length, take, drop, ltb, leb, ◌==◌,
  if◌then◌else◌, name_eq, nat_eq,
}
use Search.{find_last_of}

abbrev pub mp4 : Name
mp4 = codes "mp4"

abbrev pub avi : Name
avi = codes "avi"

abbrev pub ogv : Name
ogv = codes "ogv"

abbrev pub is_supported : Name → Bool
is_supported ext = ext == mp4 || ext == avi || ext == ogv

abbrev pub supported_or_mp4 : Name → Name
supported_or_mp4 ext = if is_supported ext then ext else mp4

unfoldable pub format_from_filename : Name → Name
format_from_filename filename = elim (find_last_of b'.' filename) [
  | none ↦ mp4
  | some dot ↦
      if leb (length filename) (dot + 1) then mp4 else supported_or_mp4 (drop (dot + 1) filename)
]

-- The place where the extension of `output` starts, or the end of `output` where it has none: a
-- dot in front of the last slash belongs to a directory.
unfoldable pub extension_start : Name → ℕ
extension_start output = elim (find_last_of b'.' output) [
  | none ↦ length output
  | some dot ↦ elim (find_last_of b'/' output) [
    | none ↦ dot
    | some slash ↦ if ltb dot slash then length output else dot
  ]
]

unfoldable pub tmp_name : Name → Name
tmp_name output =
    take (extension_start output) output ++ (codes ".tmp." ++ format_from_filename output)
